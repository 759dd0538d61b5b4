-- ===== src/Client/Texts.antt =====
-- A text over the wire and its acknowledgement: a text that comes in twice, and one that goes out and is
-- acknowledged.
use orpal.Client.Sending.{pending_text, dispatch_text, send_text}
use orpal.Base.{
  ◌⊎◌, none, false, true, ℕ, String, some, ◌==◌, if◌then◌else◌, ◌≡◌, refl, ◌∙◌, ap, inl, inr,
  Bool-cases, Option-cases, eq_refl,
}
use orpal.Dict.Laws.{get-set}
use orpal.ConversationStore.{
  delivered, text_message, incoming, queued, acknowledged, Store, StoredMessage, MessagePatch,
  assign_message, get_message, append_message, update_message,
}
use orpal.ConnectionManager.{is_connected, get_connection}
use orpal.Frames.{awk, AppFrame, TextFrame, text_frame}
use orpal.PendingQueue
use orpal.PendingQueue.Store.{get-enqueue, get-remove}
use orpal.ContactRegistry
use orpal.Keys.{Orp, Bytes}
use orpal.Client.{Outside, PendingMessage, Rows, Client}
use orpal.Client.Messages.{
  outgoing_text, only_state, acknowledge, enqueue, mark_message, report_message, incoming_text,
  store_message, send_over, send_if_connected, send_awk,
}
use orpal.Client.Incoming.{on_awk, Moment, on_text, process_frame}

get-append :
    (m : StoredMessage) (j : String) (s : Store)
    → get_message j (append_message m s) ≡ (if m.id == j then some m else get_message j s)
unfolding get_message append_message
get-append m j s = get-set m.id j m s.messages

get-update :
    (id : String) (patch : MessagePatch) (s : Store) (m : StoredMessage)
    → get_message id s ≡ some m
    → get_message id (update_message id patch s) ≡ some (assign_message m patch)
unfolding get_message update_message
get-update id patch s m found =
    rw (update_message, found)
      (get-set id id (assign_message m patch) s.messages ∙ rw (eq_refl id) refl)

module _ (orp : Orp) where
  -- A frame that goes out leaves the store and the queue.
  send-store :
      (key : String) (f : AppFrame) (c : Client orp)
      → (send_if_connected orp key f c).store ≡ c.store
  unfolding send_if_connected send_over
  send-store key f c = elim (Option-cases (get_connection key c.conns)) [
    | inl missing ↦ rw (missing) refl
    | inr (conn, found) ↦ elim (Bool-cases (is_connected (some conn))) [
      | inl up ↦ rw (found, up) refl
      | inr down ↦ rw (found, down) refl
    ]
  ]

  report-fields :
      (id : String) (c : Client orp)
      → ((report_message orp id c).store ≡ c.store) × ((report_message orp id c).queue ≡ c.queue)
  unfolding report_message
  report-fields id c = elim (Option-cases (get_message id c.store)) [
    | inl missing ↦ rw (report_message, missing) (refl, refl)
    | inr (m, found) ↦ rw (report_message, found) (refl, refl)
  ]

  module _ (out : Outside) where
    text_fresh :
        (key : String) (f : TextFrame) (t : Moment) (c : Client orp)
        → get_message f.id c.store ≡ none
        → (process_frame orp out key (text_frame f) t c).store
          ≡ append_message (incoming_text key f.id f.body f.ts) c.store
    unfolding process_frame on_text send_awk store_message
    text_fresh key f t c fresh = rw (process_frame, on_text, fresh) (send-store key _ _)

    text_known :
        (key : String) (f : TextFrame) (t : Moment) (c : Client orp) (m : StoredMessage)
        → get_message f.id c.store ≡ some m
        → (process_frame orp out key (text_frame f) t c).store ≡ c.store
    unfolding process_frame on_text send_awk
    text_known key f t c m found = rw (process_frame, on_text, found) (send-store key _ c)

    repeated :
        (key : String) (f : TextFrame) (u : Moment) (c : Client orp) (m : StoredMessage)
        → get_message f.id c.store ≡ some m
        → process_frame orp out key (text_frame f) u c ≡ send_awk orp key f.id u.now c
    unfolding process_frame on_text
    repeated key f u c m found = rw (process_frame, on_text, found) refl

    -- What an incoming text does to the store. One whose id is not there yet is stored under its id, as a
    -- delivered message of the sender with the text and the time of the frame; one whose id is there
    -- already, whosever message has it, leaves the store as it is. Then the same text again, from whomever
    -- it comes, is acknowledged and does nothing else: the store stays as it is.
    pub text_again :
        (key sender : String) (f : TextFrame) (t u : Moment) (c : Client orp)
        → let once = process_frame orp out key (text_frame f) t c in
          let twice = process_frame orp out sender (text_frame f) u once in
          let row : StoredMessage = record {
            id = f.id;
            contact_key = key;
            direction = incoming;
            kind = text_message;
            ts = f.ts;
            body = some f.body;
            file = none;
            state = delivered;
          } in
          ((get_message f.id c.store ≡ none
              × (once.store ≡ append_message row c.store)
              × (get_message f.id once.store ≡ some row))
            ⊎ ((m : StoredMessage) × (get_message f.id c.store ≡ some m) × (once.store ≡ c.store)))
          × (twice ≡ send_awk orp sender f.id u.now once)
          × (twice.store ≡ once.store)
    text_again key sender f t u c = elim (Option-cases (get_message f.id c.store)) [
      | inl fresh ↦
          let stored = text_fresh key f t c fresh in
          let there =
            ap (get_message f.id) stored
            ∙ get-append (incoming_text key f.id f.body f.ts) f.id c.store
            ∙ rw (eq_refl f.id) refl in
          let (awked, left) = again _ there in (inl (fresh, stored, there), awked, left)
      | inr (m, found) ↦
          let kept = text_known key f t c m found in
          let (awked, left) = again m (ap (get_message f.id) kept ∙ found) in
          (inr (m, found, kept), awked, left)
    ]
      where
        once : Client orp
        once = process_frame orp out key (text_frame f) t c

        again :
            (m : StoredMessage)
            → get_message f.id once.store ≡ some m
            → (process_frame orp out sender (text_frame f) u once
                ≡ send_awk orp sender f.id u.now once)
              × ((process_frame orp out sender (text_frame f) u once).store ≡ once.store)
        again m there = (repeated sender f u once m there, text_known sender f u once m there)

    abbrev Sends : (key body id transport_key : String) (ts : ℕ) (rows : Rows) → Client orp → Type 0
    Sends key body id transport_key ts rows c =
        (c.queue
          ≡ some (PendingQueue.enqueue (pending_text orp out key transport_key id body ts) rows))
        × (get_message id c.store ≡ some (outgoing_text key id body ts queued))
        × (c.has_worker ≡ true)

    send-queued :
        (key body id transport_key : String) (ts : ℕ) (randomness : Bytes) (rows : Rows)
        (c : Client orp)
        → c.has_worker ≡ true
        → c.queue ≡ some rows
        → ContactRegistry.transport_key key c.contacts ≡ some transport_key
        → (transport_key == "") ≡ false
        → Sends key body id transport_key ts rows
            ((send_text orp out key body id ts randomness c).1)
    unfolding send_text dispatch_text store_message enqueue
    send-queued key body id transport_key ts randomness rows c works has pinned usable = (
      simp (send_text, works, pinned, usable, dispatch_text, enqueue, has) refl,
      simp (send_text, works, pinned, usable, dispatch_text, enqueue, has)
          (get-append (outgoing_text key id body ts queued) id c.store ∙ rw (eq_refl id) refl),
      simp (send_text, works, pinned, usable, dispatch_text, enqueue, has) refl,
    )

    acknowledged-eq :
        (sender id : String) (ts : ℕ) (t : Moment) (rows : Rows) (p : PendingMessage)
        (c : Client orp)
        → c.has_worker ≡ true
        → c.queue ≡ some rows
        → PendingQueue.get id rows ≡ some p
        → process_frame orp out sender (awk (record { id = id; ts = ts })) t c
          ≡ mark_message orp id
              (only_state acknowledged)
              (record c { queue = some (PendingQueue.remove id rows) })
    unfolding process_frame on_awk acknowledge
    acknowledged-eq sender id ts t rows p c works has queue_has =
        simp (process_frame, on_awk, works, acknowledge, has, queue_has) refl

    marked :
        (id : String) (m : StoredMessage) (c : Client orp)
        → get_message id c.store ≡ some m
        → ((mark_message orp id (only_state acknowledged) c).queue ≡ c.queue)
          × (get_message id ((mark_message orp id (only_state acknowledged) c).store)
              ≡ some (record m { state = acknowledged }))
    unfolding mark_message
    marked id m c found =
        let next : Client orp = record c {
          store = update_message id (only_state acknowledged) c.store;
        } in
        let both = report-fields id next in
        (
          both.1,
          ap (get_message id) (both.0) ∙ get-update id (only_state acknowledged) c.store m found,
        )

    -- A client with a worker sends a text to a contact whose transport key it has. The text is in the store
    -- as queued, and in the queue for that key. When it is acknowledged, the text is in the store as
    -- acknowledged and is gone from the queue.
    pub send_then_awk :
        (key body id transport_key : String) (ts : ℕ) (randomness : Bytes) (rows : Rows)
        (t : Moment) (c : Client orp)
        → c.has_worker ≡ true
        → c.queue ≡ some rows
        → ContactRegistry.transport_key key c.contacts ≡ some transport_key
        → (transport_key == "") ≡ false
        → let sent = (send_text orp out key body id ts randomness c).1 in
          let queue =
            PendingQueue.enqueue (pending_text orp out key transport_key id body ts) rows in
          let done = process_frame orp out key (awk (record { id = id; ts = ts })) t sent in
          (sent.queue ≡ some queue)
          × (get_message id sent.store ≡ some (outgoing_text key id body ts queued))
          × (done.queue ≡ some (PendingQueue.remove id queue))
          × (PendingQueue.get id (PendingQueue.remove id queue) ≡ none)
          × (get_message id done.store ≡ some (outgoing_text key id body ts acknowledged))
    send_then_awk key body id transport_key ts randomness rows t c works has pinned usable =
        let sent : Client orp = (send_text orp out key body id ts randomness c).1 in
        let p : PendingMessage = pending_text orp out key transport_key id body ts in
        let queue : Rows = PendingQueue.enqueue p rows in
        let (queue_is, stored, working) =
          send-queued key body id transport_key ts randomness rows c works has pinned usable in
        let is =
          acknowledged-eq key id ts t queue p sent working queue_is
            (get-enqueue p rows id ∙ rw (eq_refl id) refl) in
        let (queue_after, store_after) =
          marked id (outgoing_text key id body ts queued)
            (record sent { queue = some (PendingQueue.remove id queue) }) stored in
        (
          queue_is,
          stored,
          ap (λ d. d.queue) is ∙ queue_after,
          get-remove id queue id ∙ rw (eq_refl id) refl,
          ap (λ d. get_message id d.store) is ∙ store_after,
        )
