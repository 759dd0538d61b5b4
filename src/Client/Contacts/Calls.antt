-- ===== src/Client/Contacts/Calls.antt =====
-- The client's calls on its contacts, and what the registry has after them.
use orpal.Base.{
  ◌⊎◌, String, Bool, List, [], ◌∷◌, Option, ◌==◌, ◌≡◌, refl, inl, inr, Bool-cases, Option-cases,
}
use orpal.Dict
use orpal.Contacts.{Contact, ContactCard, invalid, valid, contact_from_card}
use orpal.Contacts.Bundle.{ContactsExport, OnCollision}
use orpal.ConversationStore.{get_contact}
use orpal.Keys.{Orp}
use orpal.Client.{Outside, Client}
use orpal.Client.Contacts.{
  CardOptions, set_of, list_contacts, ParsedCard, Added, refused, added, AddOptions,
  parse_card_text, register_contact, register_all, add_card, add_contact_from_card, import_bundle,
  ensure_loopback_contact, find_loopback, make_loopback_contact, forget_contact, set_contact_boards,
  set_contact_relay_only, set_auto_accept_migration, set_contact_display_name, trim, enforce_blocks,
  set_blocked_keys, settle_request, accept_contact_request, dismiss_contact_request,
}
use orpal.Client.Contacts.Mirror.{
  IsMirror, register-IsMirror, rewrite-IsMirror, remove-IsMirror, rename-IsMirror,
}

pub data ContactCall : Type 0 where
  add_contact : (input : String) → AddOptions → (now : String) → ContactCall
  import_all : ContactsExport → OnCollision → (now : String) → ContactCall
  add_loopback : ContactCard → (name : Option String) → (now : String) → ContactCall
  forget : String → ContactCall
  set_boards : String → (preferred fallback : Option (List String)) → ContactCall
  set_relay_only : String → Bool → ContactCall
  set_auto_accept : String → Bool → ContactCall
  set_display_name : String → String → ContactCall
  block : List String → ContactCall
  accept_request : String → (display_name : Option String) → (now : String) → ContactCall
  dismiss_request : String → ContactCall

module _ (orp : Orp) (out : Outside) where
  unfoldable pub call : ContactCall → Client orp → Client orp
  call (add_contact input opts now) c = (add_contact_from_card orp out input opts now c).1
  call (import_all bundle collision now) c = (import_bundle orp out bundle collision now c).1
  call (add_loopback own name now) c = (ensure_loopback_contact orp out own name now c).1
  call (forget key) c = forget_contact orp out key c
  call (set_boards key preferred fallback) c = set_contact_boards orp out key preferred fallback c
  call (set_relay_only key b) c = set_contact_relay_only orp out key b c
  call (set_auto_accept key b) c = set_auto_accept_migration orp out key b c
  call (set_display_name key name) c = set_contact_display_name orp out key name c
  call (block keys) c = set_blocked_keys orp out keys c
  call (accept_request key name now) c = (accept_contact_request orp out key name now c).1
  call (dismiss_request key) c = dismiss_contact_request orp out key c

  abbrev pub HasMirror : Client orp → Type 0
  HasMirror c = IsMirror c.store c.contacts

  register_contact-HasMirror :
      (contact : Contact) (c : Client orp)
      → HasMirror c
      → HasMirror (register_contact orp out contact c)
  unfolding register_contact
  register_contact-HasMirror contact c m = register-IsMirror c.store c.contacts m contact

  register_all-HasMirror :
      (contacts : List Contact) (c : Client orp)
      → HasMirror c
      → HasMirror (register_all orp out contacts c)
  unfolding register_all
  register_all-HasMirror [] c m = m
  register_all-HasMirror (contact ∷ contacts) c m =
      register_all-HasMirror contacts _ (register_contact-HasMirror contact c m)

  add_card-HasMirror :
      (card : ContactCard) (opts : CardOptions) (c : Client orp)
      → HasMirror c
      → HasMirror ((add_card orp out card opts c).1)
  unfolding add_card
  add_card-HasMirror card opts c m = elim (Bool-cases (card.identity_key == c.identity_key)) [
    | inl own ↦ rw (add_card, own) m
    | inr other ↦
        rw (add_card, other) (register_contact-HasMirror (contact_from_card card opts) c m)
  ]

  ParsedCard-cases :
      (p : ParsedCard)
      → ((reason : String) × (p ≡ invalid reason)) ⊎ ((card : ContactCard) × (p ≡ valid card))
  ParsedCard-cases (invalid reason) = inl (reason, refl)
  ParsedCard-cases (valid card) = inr (card, refl)

  add_contact-HasMirror :
      (input : String) (opts : AddOptions) (now : String) (c : Client orp)
      → HasMirror c
      → HasMirror ((add_contact_from_card orp out input opts now c).1)
  unfolding add_contact_from_card
  add_contact-HasMirror input opts now c m =
      elim (ParsedCard-cases (parse_card_text orp out input)) [
        | inl (reason, bad) ↦ rw (add_contact_from_card, bad) m
        | inr (card, good) ↦ rw (add_contact_from_card, good) (add_card-HasMirror card _ c m)
      ]

  import-HasMirror :
      (bundle : ContactsExport) (collision : OnCollision) (now : String) (c : Client orp)
      → HasMirror c
      → HasMirror ((import_bundle orp out bundle collision now c).1)
  unfolding import_bundle
  import-HasMirror bundle collision now c m =
      register_all-HasMirror ((import_bundle orp out bundle collision now c).0.contacts) c m

  loopback-HasMirror :
      (own : ContactCard) (name : Option String) (now : String) (c : Client orp)
      → HasMirror c
      → HasMirror ((ensure_loopback_contact orp out own name now c).1)
  unfolding ensure_loopback_contact
  loopback-HasMirror own name now c m =
      elim (Option-cases (find_loopback (list_contacts c.store))) [
        | inl missing ↦ elim (Option-cases (make_loopback_contact orp out own name now)) [
          | inl bad ↦ rw (ensure_loopback_contact, missing, bad) m
          | inr (contact, made) ↦
              rw (ensure_loopback_contact, missing, made) (register_contact-HasMirror contact c m)
        ]
        | inr (contact, found) ↦ rw (ensure_loopback_contact, found) m
      ]

  boards-HasMirror :
      (key : String) (preferred fallback : Option (List String)) (c : Client orp)
      → HasMirror c
      → HasMirror (set_contact_boards orp out key preferred fallback c)
  unfolding set_contact_boards
  boards-HasMirror key preferred fallback c m = elim (Option-cases (get_contact key c.store)) [
    | inl missing ↦ rw (set_contact_boards, missing) m
    | inr (contact, found) ↦
        rw (set_contact_boards, found)
          (rewrite-IsMirror c.store c.contacts m key contact _ _ found (m.keyed key contact found)
            refl)
  ]

  relay_only-HasMirror :
      (key : String) (b : Bool) (c : Client orp)
      → HasMirror c
      → HasMirror (set_contact_relay_only orp out key b c)
  unfolding set_contact_relay_only
  relay_only-HasMirror key b c m = elim (Option-cases (get_contact key c.store)) [
    | inl missing ↦ rw (set_contact_relay_only, missing) m
    | inr (contact, found) ↦
        rw (set_contact_relay_only, found)
          (rewrite-IsMirror c.store c.contacts m key contact _ _ found (m.keyed key contact found)
            refl)
  ]

  auto_accept-HasMirror :
      (key : String) (b : Bool) (c : Client orp)
      → HasMirror c
      → HasMirror (set_auto_accept_migration orp out key b c)
  unfolding set_auto_accept_migration
  auto_accept-HasMirror key b c m = elim (Option-cases (get_contact key c.store)) [
    | inl missing ↦ rw (set_auto_accept_migration, missing) m
    | inr (contact, found) ↦
        rw (set_auto_accept_migration, found)
          (rewrite-IsMirror c.store c.contacts m key contact _ _ found (m.keyed key contact found)
            refl)
  ]

  display_name-HasMirror :
      (key name : String) (c : Client orp)
      → HasMirror c
      → HasMirror (set_contact_display_name orp out key name c)
  unfolding set_contact_display_name
  display_name-HasMirror key name c m = elim (Option-cases (get_contact key c.store)) [
    | inl missing ↦ rw (set_contact_display_name, missing) m
    | inr (contact, found) ↦ elim (Bool-cases (trim name == "")) [
      | inl empty ↦ rw (set_contact_display_name, found, empty) m
      | inr named ↦
          rw (set_contact_display_name, found, named)
            (rename-IsMirror c.store c.contacts m key contact _ found (m.keyed key contact found)
              refl)
    ]
  ]

  blocks-HasMirror :
      (keys : List String) (c : Client orp)
      → HasMirror c
      → HasMirror (enforce_blocks orp out keys c)
  unfolding enforce_blocks
  blocks-HasMirror [] c m = m
  blocks-HasMirror (key ∷ keys) c m = blocks-HasMirror keys _ m

  set_blocked-HasMirror :
      (keys : List String) (c : Client orp)
      → HasMirror c
      → HasMirror (set_blocked_keys orp out keys c)
  unfolding set_blocked_keys
  set_blocked-HasMirror keys c m = blocks-HasMirror (set_of keys) _ m

  settle-HasMirror :
      (key : String) (a : Added × Client orp)
      → HasMirror (a.1)
      → HasMirror ((settle_request orp out key a).1)
  unfolding settle_request
  settle-HasMirror key (refused reason, c) m = m
  settle-HasMirror key (added contact, c) m = m

  accept_request-HasMirror :
      (key : String) (name : Option String) (now : String) (c : Client orp)
      → HasMirror c
      → HasMirror ((accept_contact_request orp out key name now c).1)
  unfolding accept_contact_request
  accept_request-HasMirror key name now c m = elim (Option-cases (Dict.get key c.pending_cards)) [
    | inl missing ↦ rw (accept_contact_request, missing) m
    | inr (req, found) ↦
        rw (accept_contact_request, found)
          (settle-HasMirror key _ (add_contact-HasMirror req.card _ now c m))
  ]

  pub call-HasMirror : (f : ContactCall) (c : Client orp) → HasMirror c → HasMirror (call f c)
  unfolding call
  call-HasMirror (add_contact input opts now) c m = add_contact-HasMirror input opts now c m
  call-HasMirror (import_all bundle collision now) c m = import-HasMirror bundle collision now c m
  call-HasMirror (add_loopback own name now) c m = loopback-HasMirror own name now c m
  call-HasMirror (forget key) c m =
      unfold forget_contact in remove-IsMirror c.store c.contacts m key
  call-HasMirror (set_boards key preferred fallback) c m =
      boards-HasMirror key preferred fallback c m
  call-HasMirror (set_relay_only key b) c m = relay_only-HasMirror key b c m
  call-HasMirror (set_auto_accept key b) c m = auto_accept-HasMirror key b c m
  call-HasMirror (set_display_name key name) c m = display_name-HasMirror key name c m
  call-HasMirror (block keys) c m = set_blocked-HasMirror keys c m
  call-HasMirror (accept_request key name now) c m = accept_request-HasMirror key name now c m
  call-HasMirror (dismiss_request key) c m = unfold dismiss_contact_request in m
