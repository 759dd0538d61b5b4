-- ===== src/Client/Untouched/Handled.antt =====
-- What the handling of a text that comes in leaves alone, and what it keeps.
use orpal.Frames.Decode.{decode_app_frame}
use orpal.Client.Contacts.{is_blocked, parse_card_text}
use orpal.Frames.{
  migration_ack, migration_challenge, key_migration, file_done, file_chunk, file_offer, text_frame,
  hello, sealed, migration_challenge_response, ChallengeResponseFrame,
}
use orpal.Client.Migration.{replace_contact}
use orpal.Contacts.{valid, ContactCard, invalid, ParsedCard}
use orpal.MigrationManager.Incoming.{Accepted}
use orpal.Client.Incoming.{
  is_news, process_frame, on_card, Moment, process_outer, handle_incoming_frame, on_hello,
}
use orpal.Base.{String, some, ◌≡◌, refl, ◌∙◌, ap, inl, inr, ◌⊎◌, Bool-cases, Option-cases}
use orpal.Json.{Json}
use orpal.Keys.{Orp}
use orpal.Client.{Outside, AppFrame, Client}
use orpal.Client.Untouched.{awk, Same, SameContacts, same}
use orpal.Client.Untouched.Frames.{IsPlain, process-Same, sealed-Same}
use orpal.Client.Untouched.Accepting.{on_response-kept, kept_if}

pub ParsedCard-cases :
    (p : ParsedCard)
    → ((reason : String) × (p ≡ invalid reason)) ⊎ ((card : ContactCard) × (p ≡ valid card))
ParsedCard-cases (invalid reason) = inl (reason, refl)
ParsedCard-cases (valid card) = inr (card, refl)

module _ (orp : Orp) (out : Outside) where
  on_hello-SameContacts :
      (key card : String) (c : Client orp) → SameContacts orp c (on_hello orp out key card c)
  unfolding on_hello on_card
  on_hello-SameContacts key card c = elim (ParsedCard-cases (parse_card_text orp out card)) [
    | inl (reason, bad) ↦ rw (on_hello, bad) ((same orp c).0)
    | inr (parsed, good) ↦
        rw (on_hello, good)
          (kept_if (SameContacts orp c) (is_news orp out key parsed.identity_key c)
            (record { stored = refl; registered = refl }) ((same orp c).0))
  ]

  outer-SameContacts :
      (key : String) (f : AppFrame) (t : Moment) (c : Client orp)
      → SameContacts orp c (process_outer orp out key f t c)
        ⊎ ((r : ChallengeResponseFrame) × (f ≡ migration_challenge_response r))
  unfolding process_outer process_frame
  outer-SameContacts key (sealed box) t c = inl ((sealed-Same orp out key box t c).0)
  outer-SameContacts key (hello card) t c = inl (on_hello-SameContacts key card c)
  outer-SameContacts key (migration_challenge_response f) t c = inr (f, refl)
  outer-SameContacts key (text_frame f) t c =
      inl ((process-Same orp out key (text_frame f) t c tt).0)
  outer-SameContacts key (awk f) t c = inl ((process-Same orp out key (awk f) t c tt).0)
  outer-SameContacts key (file_offer f) t c =
      inl ((process-Same orp out key (file_offer f) t c tt).0)
  outer-SameContacts key (file_chunk f) t c =
      inl ((process-Same orp out key (file_chunk f) t c tt).0)
  outer-SameContacts key (file_done f) t c = inl ((process-Same orp out key (file_done f) t c tt).0)
  outer-SameContacts key (key_migration f) t c =
      inl ((process-Same orp out key (key_migration f) t c tt).0)
  outer-SameContacts key (migration_challenge f) t c =
      inl ((process-Same orp out key (migration_challenge f) t c tt).0)
  outer-SameContacts key (migration_ack f) t c =
      inl ((process-Same orp out key (migration_ack f) t c tt).0)

  -- Whatever text comes in from whomever, the contacts in the store and in the registry stay as they are,
  -- unless the text is an unsealed answer to a migration challenge.
  pub handle-SameContacts :
      (key input : String) (t : Moment) (c : Client orp)
      → SameContacts orp c (handle_incoming_frame orp out key input t c)
        ⊎ ((value : Json) × (r : ChallengeResponseFrame) × (out.parse_json input ≡ some value)
            × (decode_app_frame value ≡ some (migration_challenge_response r)))
  unfolding handle_incoming_frame
  handle-SameContacts key input t c = elim (Bool-cases (is_blocked orp out key c)) [
    | inl blocked ↦ inl (rw (handle_incoming_frame, blocked) ((same orp c).0))
    | inr heard ↦ elim (Option-cases (out.parse_json input)) [
      | inl garbled ↦ inl (rw (handle_incoming_frame, heard, garbled) ((same orp c).0))
      | inr (value, parsed) ↦ elim (Option-cases (decode_app_frame value)) [
        | inl unknown ↦ inl (rw (handle_incoming_frame, heard, parsed, unknown) ((same orp c).0))
        | inr (f, decoded) ↦ elim (outer-SameContacts key f t c) [
          | inl kept ↦ inl (rw (handle_incoming_frame, heard, parsed, decoded) kept)
          | inr (r, is) ↦ inr (value, r, parsed, decoded ∙ ap some is)
        ]
      ]
    ]
  ]

  module _ (P : Client orp → Type 0) (along : (c d : Client orp) → Same orp c d → P c → P d)
      (replaced : (key : String) (a : Accepted) (c : Client orp)
        → P c
        → P (replace_contact orp key a c))
      (requested : (key card : String) (parsed : ContactCard) (c : Client orp)
        → parse_card_text orp out card ≡ valid parsed
        → P c
        → P (on_card orp out key card parsed c)) where
    on_hello-kept : (key card : String) (c : Client orp) → P c → P (on_hello orp out key card c)
    unfolding on_hello
    on_hello-kept key card c p = elim (ParsedCard-cases (parse_card_text orp out card)) [
      | inl (reason, bad) ↦ rw (on_hello, bad) p
      | inr (parsed, good) ↦ rw (on_hello, good) (requested key card parsed c good p)
    ]

    plain-kept :
        (key : String) (f : AppFrame) (t : Moment) (c : Client orp)
        → IsPlain f
        → P c
        → P (process_frame orp out key f t c)
    plain-kept key f t c plain p = along c _ (process-Same orp out key f t c plain) p

    outer-kept :
        (key : String) (f : AppFrame) (t : Moment) (c : Client orp)
        → P c
        → P (process_outer orp out key f t c)
    unfolding process_outer process_frame
    outer-kept key (sealed box) t c p = along c _ (sealed-Same orp out key box t c) p
    outer-kept key (hello card) t c p = on_hello-kept key card c p
    outer-kept key (migration_challenge_response f) t c p =
        on_response-kept orp P along replaced out key f t c p
    outer-kept key (text_frame f) t c p = plain-kept key (text_frame f) t c tt p
    outer-kept key (awk f) t c p = plain-kept key (awk f) t c tt p
    outer-kept key (file_offer f) t c p = plain-kept key (file_offer f) t c tt p
    outer-kept key (file_chunk f) t c p = plain-kept key (file_chunk f) t c tt p
    outer-kept key (file_done f) t c p = plain-kept key (file_done f) t c tt p
    outer-kept key (key_migration f) t c p = plain-kept key (key_migration f) t c tt p
    outer-kept key (migration_challenge f) t c p = plain-kept key (migration_challenge f) t c tt p
    outer-kept key (migration_ack f) t c p = plain-kept key (migration_ack f) t c tt p

    pub handle-kept :
        (key input : String) (t : Moment) (c : Client orp)
        → P c
        → P (handle_incoming_frame orp out key input t c)
    unfolding handle_incoming_frame
    handle-kept key input t c p = elim (Bool-cases (is_blocked orp out key c)) [
      | inl blocked ↦ rw (handle_incoming_frame, blocked) p
      | inr heard ↦ elim (Option-cases (out.parse_json input)) [
        | inl garbled ↦ rw (handle_incoming_frame, heard, garbled) p
        | inr (value, parsed) ↦ elim (Option-cases (decode_app_frame value)) [
          | inl unknown ↦ rw (handle_incoming_frame, heard, parsed, unknown) p
          | inr (f, decoded) ↦
              rw (handle_incoming_frame, heard, parsed, decoded) (outer-kept key f t c p)
        ]
      ]
    ]
