-- ===== src/Client/Incoming.antt =====
-- orpal-client.ts, `processFrame` and its caller: what the client does with the frames that come in over a
-- connection.
use orpal.Base.{ℕ, String, Bool, List, [], ◌∷◌, Option, none, some, ◌==◌, ◌&&◌, not, if◌then◌else◌}
use orpal.Dict
use orpal.Json.{Json}
use orpal.Contacts.{ContactCard, invalid, valid}
use orpal.ContactRegistry
use orpal.ConversationStore.{get_contact, get_message, acknowledged}
use orpal.ConnectionManager.{is_connected, get_connection}
use orpal.Frames.{
  AppFrame, text_frame, awk, file_offer, file_chunk, file_done, sealed, hello, key_migration,
  migration_ack, migration_challenge, migration_challenge_response, ChallengeFrame,
  ChallengeResponseFrame, TextFrame,
}
use orpal.Frames.Decode.{decode_app_frame}
use orpal.Keys.{Orp, Bytes}
use orpal.MigrationManager as Migrations
use orpal.MigrationManager.{PendingMigration}
use orpal.MigrationManager.Incoming.{handle_incoming_migration}
use orpal.MigrationManager.Incoming as Handling
use orpal.MigrationManager.Challenges.{
  Randomness, OutboundChallenge, created, nothing_pending, throws, create_challenges, answer,
  no_answer, answer_throws, answer_challenge, verify_challenge_response,
}
use orpal.Sealed.{open_sealed_frame}
use orpal.Client.{
  Outside, migration_progressed, Client, ContactRequest, contact_requested, migration_arrived,
  failed, file_frame, emit,
}
use orpal.Client.Contacts.{parse_card_text, is_blocked}
use orpal.Client.Messages.{
  mark_message, only_state, incoming_text, store_message, send_if_connected, send_awk, acknowledge,
}
use orpal.Client.Migration.{migration_progress, accept_migration, report_progress}

-- The time, and what is drawn for the challenges and for the box of an answer.
pub record Moment : Type 0 where
  pub now : ℕ
  pub now_utc : String
  pub drawn : Randomness
  pub box : Bytes

abbrev pub challenge_frame : OutboundChallenge → AppFrame
challenge_frame c =
    migration_challenge
      (record { target = c.target; sealed_nonce = c.sealed_nonce; ack_pubkey = c.ack_pubkey })

-- `pending[pending.length - 1]`
abbrev pub latest : List PendingMigration → Option PendingMigration
latest [] = none
latest (p ∷ pending) = elim (latest pending) [ none ↦ some p | some q ↦ some q ]

module _ (orp : Orp) (out : Outside) where
  unfoldable pub on_text : String → TextFrame → Moment → Client orp → Client orp
  on_text contact_key f t c = elim (get_message f.id c.store) [
    | some m ↦ send_awk orp contact_key f.id t.now c
    | none ↦
        send_awk orp contact_key f.id t.now
          (store_message orp (incoming_text contact_key f.id f.body f.ts) c)
  ]

  unfoldable pub on_awk : (id : String) → Client orp → Client orp
  on_awk id c =
      let removed = acknowledge orp id c in
      let marked = mark_message orp id (only_state acknowledged) c in
      let settled = mark_message orp id (only_state acknowledged) (removed.1) in
      if c.has_worker then (if removed.0 then settled else removed.1) else marked

  -- The card is new: it verifies, it is the counterparty's own, and the user has not seen it yet.
  unfoldable pub is_news : (contact_key card_key : String) → Client orp → Bool
  is_news contact_key card_key c =
      (card_key == contact_key)
      && (not (card_key == c.identity_key)
          && (not (Dict.has contact_key c.store.contacts)
              && not (Dict.has contact_key c.pending_cards)))

  unfoldable pub on_card : (contact_key card : String) → ContactCard → Client orp → Client orp
  unfolding is_news
  on_card contact_key card parsed c =
      let req : ContactRequest = record {
        contact_key = contact_key;
        card = card;
        name = parsed.name;
      } in
      if is_news contact_key parsed.identity_key c
      then emit orp (contact_requested req)
          (record c { pending_cards = Dict.set contact_key req c.pending_cards })
      else c

  unfoldable pub on_hello : (contact_key card : String) → Client orp → Client orp
  unfolding on_card
  on_hello contact_key card c = elim (parse_card_text orp out card) [
    | invalid reason ↦ c
    | valid parsed ↦ on_card contact_key card parsed c
  ]

  -- The connection's file receiver is given the frame, if there is one.
  unfoldable pub to_receiver : String → AppFrame → Client orp → Client orp
  to_receiver contact_key f c = elim (get_connection contact_key c.conns) [
    | none ↦ c
    | some conn ↦ if conn.receives_files then emit orp (file_frame contact_key f) c else c
  ]

  unfoldable pub report_incoming : Client orp → Client orp
  report_incoming c = elim c.migration [
    | none ↦ c
    | some m ↦ elim (latest m.pending_incoming) [
      | none ↦ c
      | some p ↦ emit orp (migration_arrived p) c
    ]
  ]

  unfoldable pub send_challenges : String → List OutboundChallenge → Client orp → Client orp
  send_challenges contact_key [] c = c
  send_challenges contact_key (f ∷ challenges) c =
      send_challenges contact_key challenges
        (send_if_connected orp contact_key (challenge_frame f) c)

  unfoldable pub challenge_contact :
      (contact_key old_transport_key : String)
      → Moment
      → Migrations.Manager orp.Identity
      → Client orp
      → Client orp
  unfolding send_challenges report_incoming
  challenge_contact contact_key old_key t m c =
      let (result, n) = create_challenges orp t.drawn contact_key old_key m in
      elim result [
        | created challenges ↦
            send_challenges contact_key challenges (record c { migration = some n })
        | nothing_pending ↦ report_incoming (record c { migration = some n })
        | throws ↦ record c { migration = some n }
      ]

  -- A contact whose migrations are accepted without the user, and which is there, is challenged.
  unfoldable pub on_valid_migration :
      String → Moment → Migrations.Manager orp.Identity → Client orp → Client orp
  unfolding challenge_contact report_incoming
  on_valid_migration contact_key t m c =
      let waiting = record c { migration = some m } in
      let is_auto =
        ContactRegistry.auto_accept_migration contact_key c.contacts
        && is_connected (get_connection contact_key c.conns) in
      elim (ContactRegistry.transport_key contact_key c.contacts) [
        | none ↦ report_incoming waiting
        | some old_key ↦
            if is_auto && not (old_key == "")
            then challenge_contact contact_key old_key t m waiting
            else report_incoming waiting
      ]

  unfoldable pub on_handled :
      String
      → Json
      → Moment
      → (name : String) → Migrations.Manager orp.Identity
      → Client orp
      → Client orp
  unfolding on_valid_migration
  on_handled contact_key migration t name m c =
      let (result, n) = handle_incoming_migration orp migration contact_key name m in
      elim result [
        | Handling.invalid reason ↦
            emit orp (failed "processFrame:key-migration") (record c { migration = some n })
        | Handling.valid ↦ on_valid_migration contact_key t n c
      ]

  unfoldable pub on_key_migration : String → Json → Moment → Client orp → Client orp
  unfolding on_handled
  on_key_migration contact_key migration t c = elim c.migration [
    | none ↦ c
    | some m ↦
        let name : String = elim (get_contact contact_key c.store) [
          | none ↦ contact_key
          | some p ↦ p.display_name
        ] in
        on_handled contact_key migration t name m c
  ]

  unfoldable pub on_challenge : String → ChallengeFrame → Moment → Client orp → Client orp
  on_challenge contact_key f t c = elim c.migration [
    | none ↦ c
    | some m ↦
        if Migrations.active orp m
        then elim (answer_challenge orp t.box c.identity f.target f.sealed_nonce f.ack_pubkey m) [
          | no_answer ↦ c
          | answer_throws ↦ c
          | answer echo ↦
              send_if_connected orp contact_key
                (migration_challenge_response (record { target = f.target; sealed_echo = echo })) c
        ]
        else c
  ]

  unfoldable pub on_verdict : String → Moment → (both_verified : Bool) → Client orp → Client orp
  on_verdict contact_key t both_verified c =
      let accepted = accept_migration orp contact_key t.now_utc c in
      let tell : Client orp → Client orp =
        λ d. emit orp (migration_progressed (migration_progress orp d)) d in
      if both_verified then (if accepted.0 then tell (accepted.1) else accepted.1) else c

  unfoldable pub on_response : String → ChallengeResponseFrame → Moment → Client orp → Client orp
  unfolding on_verdict
  on_response contact_key f t c = elim c.migration [
    | none ↦ c
    | some m ↦
        let (verdict, n) = verify_challenge_response orp contact_key f.target f.sealed_echo m in
        let known = record c { migration = some n } in
        on_verdict contact_key t verdict.both_verified (
          if verdict.valid
          then known
          else emit orp (failed "processFrame:migration-challenge-response") known)
  ]

  unfoldable pub on_ack : String → Json → Client orp → Client orp
  on_ack contact_key ack c = elim c.migration [
    | none ↦ c
    | some m ↦
        let (took, n) = Migrations.handle_migration_ack orp ack contact_key m in
        let known = record c { migration = some n } in
        if took then report_progress orp known else known
  ]

  unfoldable pub process_frame : String → AppFrame → Moment → Client orp → Client orp
  unfolding on_text on_awk on_hello to_receiver on_key_migration on_challenge on_response on_ack
  process_frame key (text_frame f) t c = on_text key f t c
  process_frame key (awk f) t c = on_awk f.id c
  process_frame key (hello card) t c = on_hello key card c
  process_frame key (file_offer f) t c = elim (get_message f.file_id c.store) [
    | some m ↦ c
    | none ↦ to_receiver key (file_offer f) c
  ]
  process_frame key (file_chunk f) t c = to_receiver key (file_chunk f) c
  process_frame key (file_done id) t c = to_receiver key (file_done id) c
  process_frame key (key_migration migration) t c = on_key_migration key migration t c
  process_frame key (migration_challenge f) t c = on_challenge key f t c
  process_frame key (migration_challenge_response f) t c = on_response key f t c
  process_frame key (migration_ack ack) t c = on_ack key ack c
  process_frame key (sealed box) t c = c

  unfoldable pub process_outer : String → AppFrame → Moment → Client orp → Client orp
  unfolding process_frame
  process_outer key (sealed box) t c =
      elim (open_sealed_frame orp out.to_bytes out.of_bytes box (orp.transport_private c.identity)
        (orp.transport_pub c.identity)) [
          | none ↦ emit orp (failed "handleIncomingFrame:unseal") c
          | some inner ↦ process_frame key inner t c
        ]
  process_outer key frame t c = process_frame key frame t c

  unfoldable pub handle_incoming_frame :
      (contact_key input : String) → Moment → Client orp → Client orp
  unfolding process_outer
  handle_incoming_frame key input t c =
      if is_blocked orp out key c then c else elim (out.parse_json input) [
        | none ↦ c
        | some value ↦ elim (decode_app_frame value) [
          | none ↦ c
          | some outer ↦ process_outer key outer t c
        ]
      ]
