-- ===== src/Client/Untouched.antt =====
-- What a frame that comes in leaves alone: the contacts, the pending requests and the device's own key.
pub mod Migrations
pub mod Accepting
pub mod Frames
pub mod Handled
use orpal.MigrationManager.Challenges.{OutboundChallenge}
use orpal.ConnectionManager.{is_connected, get_connection}
use orpal.Frames.{awk, TextFrame}
use orpal.Client.Migration.{migration_progress, report_progress}
use orpal.Client.Incoming.{
  on_text, Moment, latest, to_receiver, send_challenges, report_incoming, on_awk,
}
use orpal.Client.Messages.{
  incoming_text, send_awk, send_over, acknowledge, mark_message, report_message, send_if_connected,
  store_message,
}
use orpal.Base.{
  ℕ, String, Bool, true, false, List, [], ◌∷◌, Option, none, some, ◌==◌, ◌&&◌, ◌||◌, not,
  if◌then◌else◌, ◌≡◌, refl, ◌∙◌, ap, sym, inl, inr, Bool-cases, Option-cases, arith,
}
use orpal.Dict
use orpal.Dict.{Dict}
use orpal.Json.{Json}
use orpal.Contacts.{Contact}
use orpal.ContactRegistry.{Registry}
use orpal.ConversationStore.{
  get_message, acknowledged, MessagePatch, update_message, StoredMessage, append_message,
}
use orpal.PendingQueue
use orpal.Keys.{Orp, Bytes}
use orpal.Client.{Outside, AppFrame, Store, Client, ContactRequest}

module _ (orp : Orp) where
  -- The two clients agree on the contacts.
  pub record SameContacts (c d : Client orp) : Type 0 where
    pub stored : d.store.contacts ≡ c.store.contacts
    pub registered : d.contacts ≡ c.contacts

  -- The two clients agree on the requests and on whose they are.
  pub record SameRequests (c d : Client orp) : Type 0 where
    pub pending : d.pending_cards ≡ c.pending_cards
    pub own : d.identity_key ≡ c.identity_key

  abbrev pub Same : Client orp → Client orp → Type 0
  Same c d = SameContacts c d × SameRequests c d

  pub same : (c : Client orp) → Same c c
  same c = (record { stored = refl; registered = refl }, record { pending = refl; own = refl })

  -- What is written is another field of the client.
  pub same_by :
      {c d : Client orp}
      → d.store.contacts ≡ c.store.contacts
      → d.contacts ≡ c.contacts
      → d.pending_cards ≡ c.pending_cards
      → d.identity_key ≡ c.identity_key
      → Same c d
  same_by stored registered pending own =
      (record { stored = stored; registered = registered }, record { pending = pending; own = own })

  pub contacts_trans : {c d e : Client orp} → SameContacts c d → SameContacts d e → SameContacts c e
  contacts_trans s t = record {
    stored = t.stored ∙ s.stored;
    registered = t.registered ∙ s.registered;
  }

  pub requests_trans : {c d e : Client orp} → SameRequests c d → SameRequests d e → SameRequests c e
  requests_trans s t = record { pending = t.pending ∙ s.pending; own = t.own ∙ s.own }

  pub same_trans : {c d e : Client orp} → Same c d → Same d e → Same c e
  same_trans s t = (contacts_trans (s.0) (t.0), requests_trans (s.1) (t.1))

  pub same_if : {c d e : Client orp} (b : Bool) → Same c d → Same c e → Same c (if b then d else e)
  same_if true s t = s
  same_if false s t = t

  update-contacts :
      (id : String) (patch : MessagePatch) (s : Store)
      → (update_message id patch s).contacts ≡ s.contacts
  unfolding update_message
  update-contacts id patch s = elim (Option-cases (Dict.get id s.messages)) [
    | inl missing ↦ rw (update_message, missing) refl
    | inr (m, found) ↦ rw (update_message, found) refl
  ]

  report_message-Same : (id : String) (c : Client orp) → Same c (report_message orp id c)
  unfolding report_message
  report_message-Same id c = elim (Option-cases (get_message id c.store)) [
    | inl missing ↦ rw (report_message, missing) (same c)
    | inr (m, found) ↦ rw (report_message, found) (same_by refl refl refl refl)
  ]

  pub mark_message-Same :
      (id : String) (patch : MessagePatch) (c : Client orp) → Same c (mark_message orp id patch c)
  unfolding mark_message
  mark_message-Same id patch c =
      same_trans
        (
          record { stored = update-contacts id patch c.store; registered = refl },
          record { pending = refl; own = refl },
        )
        (report_message-Same id _)

  pub store_message-Same : (m : StoredMessage) (c : Client orp) → Same c (store_message orp m c)
  unfolding store_message append_message
  store_message-Same m c = same_by refl refl refl refl

  pub send-Same :
      (key : String) (f : AppFrame) (c : Client orp) → Same c (send_if_connected orp key f c)
  unfolding send_if_connected
  send-Same key f c = elim (Option-cases (get_connection key c.conns)) [
    | inl missing ↦ rw (missing, send_over) (same c)
    | inr (conn, found) ↦
        rw (found, send_over)
          (same_if (is_connected (some conn)) (same_by refl refl refl refl) (same c))
  ]

  acknowledge-Same : (id : String) (c : Client orp) → Same c ((acknowledge orp id c).1)
  unfolding acknowledge
  acknowledge-Same id c = elim (Option-cases c.queue) [
    | inl missing ↦ simp (acknowledge, missing) (same c)
    | inr (rows, found) ↦ elim (Option-cases (PendingQueue.get id rows)) [
      | inl absent ↦ simp (acknowledge, found, absent) (same c)
      | inr (m, queued) ↦ simp (acknowledge, found, queued) (same_by refl refl refl refl)
    ]
  ]

  pub report_progress-Same : (c : Client orp) → Same c (report_progress orp c)
  unfolding report_progress
  report_progress-Same c = elim (Option-cases (migration_progress orp c)) [
    | inl missing ↦ rw (report_progress, missing) (same c)
    | inr (p, found) ↦ rw (report_progress, found) (same_by refl refl refl refl)
  ]

  module _ (out : Outside) where
    pub on_text-Same :
        (key : String) (f : TextFrame) (t : Moment) (c : Client orp)
        → Same c (on_text orp out key f t c)
    unfolding on_text
    on_text-Same key f t c = elim (Option-cases (get_message f.id c.store)) [
      | inl fresh ↦
          rw (on_text, fresh)
            (unfold send_awk in
              (same_trans (store_message-Same (incoming_text key f.id f.body f.ts) c) (
                send-Same key (awk (record { id = f.id; ts = t.now }))
                  (store_message orp (incoming_text key f.id f.body f.ts) c))))
      | inr (m, found) ↦
          rw (on_text, found)
            (unfold send_awk in (send-Same key (awk (record { id = f.id; ts = t.now })) c))
    ]

    pub on_awk-Same : (id : String) (c : Client orp) → Same c (on_awk orp out id c)
    unfolding on_awk
    on_awk-Same id c =
        same_if c.has_worker
          (same_if ((acknowledge orp id c).0)
            (same_trans (acknowledge-Same id c) (mark_message-Same id _ _)) (acknowledge-Same id c))
          (mark_message-Same id _ c)

    pub to_receiver-Same :
        (key : String) (f : AppFrame) (c : Client orp) → Same c (to_receiver orp out key f c)
    unfolding to_receiver
    to_receiver-Same key f c = elim (Option-cases (get_connection key c.conns)) [
      | inl missing ↦ rw (to_receiver, missing) (same c)
      | inr (conn, found) ↦
          rw (to_receiver, found)
            (same_if conn.receives_files (same_by refl refl refl refl) (same c))
    ]

    pub report_incoming-Same : (c : Client orp) → Same c (report_incoming orp out c)
    unfolding report_incoming
    report_incoming-Same c = elim (Option-cases c.migration) [
      | inl missing ↦ simp (report_incoming, missing) (same c)
      | inr (m, found) ↦ elim (Option-cases (latest m.pending_incoming)) [
        | inl empty ↦ simp (report_incoming, found, empty) (same c)
        | inr (p, last) ↦ simp (report_incoming, found, last) (same_by refl refl refl refl)
      ]
    ]

    pub send_challenges-Same :
        (key : String) (challenges : List OutboundChallenge) (c : Client orp)
        → Same c (send_challenges orp out key challenges c)
    unfolding send_challenges
    send_challenges-Same key [] c = same c
    send_challenges-Same key (f ∷ challenges) c =
        same_trans (send-Same key _ c) (send_challenges-Same key challenges _)
