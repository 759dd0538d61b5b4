-- ===== src/Client/Messages.antt =====
-- The client's messages: the store's copy as a message goes out or comes in, and what is sent for it.
use orpal.Base.{ℕ, String, Bool, true, false, List, [], Option, none, some, ◌==◌, if◌then◌else◌}
use orpal.ConversationStore.{
  StoredMessage, MessagePatch, FileMeta, OutboundState, delivered, TransferState, transferring,
  complete, failed_transfer, integrity_failed, text_message, file_message, outgoing, incoming,
  append_message, get_message, update_message, list_messages, ListMessagesOptions,
}
use orpal.PendingQueue
use orpal.PendingQueue.{PendingMessage, PendingMetrics, compute_pending_metrics}
use orpal.ConnectionManager.{ContactConn, is_connected, get_connection}
use orpal.Frames.{AppFrame, awk, FileOfferFrame}
use orpal.Keys.{Orp}
use orpal.Client.{Client, message_stored, message_updated, frame_sent, emit}

abbrev pub only_state : OutboundState → MessagePatch
only_state s = record { state = some s; body = none; file = none }

-- The fields of a file that a patch sets.
pub record FilePatch : Type 0 where
  pub state : Option TransferState
  pub transferred : Option ℕ
  pub sha256 : Option String
  pub path : Option String

abbrev pub keep_or {ℓ} : {A : Type ℓ} → Option A → A → A
keep_or none old = old
keep_or (some new) old = new

abbrev pub patch_file : FilePatch → FileMeta → FileMeta
patch_file p f = record f {
  state = keep_or p.state f.state;
  transferred = keep_or p.transferred f.transferred;
  sha256 = keep_or p.sha256 f.sha256;
  path = elim p.path [ none ↦ f.path | some path ↦ some path ];
}

abbrev pub no_file_patch : FilePatch
no_file_patch = record { state = none; transferred = none; sha256 = none; path = none }

abbrev pub incoming_text : (contact_key id body : String) (ts : ℕ) → StoredMessage
incoming_text contact_key id body ts = record {
  id = id;
  contact_key = contact_key;
  direction = incoming;
  kind = text_message;
  ts = ts;
  body = some body;
  file = none;
  state = delivered;
}

abbrev pub outgoing_text :
    (contact_key id body : String) (ts : ℕ) (state : OutboundState) → StoredMessage
outgoing_text contact_key id body ts state = record {
  id = id;
  contact_key = contact_key;
  direction = outgoing;
  kind = text_message;
  ts = ts;
  body = some body;
  file = none;
  state = state;
}

abbrev pub offered_file : (contact_key : String) → FileOfferFrame → StoredMessage
offered_file contact_key offer = record {
  id = offer.file_id;
  contact_key = contact_key;
  direction = incoming;
  kind = file_message;
  ts = offer.ts;
  body = none;
  file = some (record {
    file_id = offer.file_id;
    name = offer.name;
    size = offer.size;
    mime = offer.mime;
    sha256 = offer.sha256;
    chunk_size = offer.chunk_size;
    chunks = offer.chunks;
    path = none;
    state = transferring;
    transferred = 0;
  });
  state = delivered;
}

module _ (orp : Orp) where
  -- The message as it is in the store, if it is there.
  unfoldable pub report_message : String → Client orp → Client orp
  report_message id c = elim (get_message id c.store) [
    | none ↦ c
    | some m ↦ emit orp (message_updated id m) c
  ]

  unfoldable pub mark_message : String → MessagePatch → Client orp → Client orp
  unfolding report_message
  mark_message id patch c = report_message id (record c { store = update_message id patch c.store })

  unfoldable pub rewrite_file :
      String → FilePatch → Option OutboundState → FileMeta → Client orp → Client orp
  unfolding mark_message
  rewrite_file file_id patch state f c =
      mark_message file_id
        (record { state = state; body = none; file = some (some (patch_file patch f)) }) c

  unfoldable pub mark_file : String → FilePatch → Option OutboundState → Client orp → Client orp
  unfolding rewrite_file
  mark_file file_id patch state c = elim (get_message file_id c.store) [
    | none ↦ c
    | some m ↦ elim m.file [ none ↦ c | some f ↦ rewrite_file file_id patch state f c ]
  ]

  unfoldable pub store_message : StoredMessage → Client orp → Client orp
  store_message m c = emit orp (message_stored m) (record c { store = append_message m c.store })

  -- A frame over the contact's connection, if that is up.
  unfoldable pub send_over : Option ContactConn → AppFrame → Client orp → Client orp
  send_over none f c = c
  send_over (some conn) f c =
      if is_connected (some conn) then emit orp (frame_sent conn.channel f) c else c

  unfoldable pub send_if_connected : String → AppFrame → Client orp → Client orp
  unfolding send_over
  send_if_connected contact_key f c = send_over (get_connection contact_key c.conns) f c

  unfoldable pub send_awk : (contact_key message_id : String) (now : ℕ) → Client orp → Client orp
  unfolding send_if_connected
  send_awk contact_key message_id now c =
      send_if_connected contact_key (awk (record { id = message_id; ts = now })) c

  -- `acknowledge` of the worker: whether the message was in its queue, from which it is gone.
  unfoldable pub acknowledge : String → Client orp → Bool × Client orp
  acknowledge id c = elim c.queue [
    | none ↦ (false, c)
    | some rows ↦ elim (PendingQueue.get id rows) [
      | none ↦ (false, c)
      | some m ↦ (true, record c { queue = some (PendingQueue.remove id rows) })
    ]
  ]

  unfoldable pub enqueue : PendingMessage → Client orp → Client orp
  enqueue m c = elim c.queue [
    | none ↦ c
    | some rows ↦ record c { queue = some (PendingQueue.enqueue m rows) }
  ]

  -- The callbacks of `buildFileReceiver`. `path` is the incoming sink's.
  unfoldable pub create_sink :
      (contact_key : String) → FileOfferFrame → (path : Option String) → Client orp → Client orp
  unfolding store_message mark_file
  create_sink contact_key offer path c =
      let stored = store_message (offered_file contact_key offer) c in
      let placed : String → Client orp =
        λ p. mark_file offer.file_id (record no_file_patch { path = some p }) none stored in
      elim path [ none ↦ stored | some p ↦ if p == "" then stored else placed p ]

  unfoldable pub on_progress : (file_id : String) (transferred : ℕ) → Client orp → Client orp
  unfolding mark_file
  on_progress file_id n c =
      mark_file file_id (record no_file_patch { transferred = some n; state = some transferring })
        none c

  -- The reason of an outcome is `none` where the file is complete.
  unfoldable pub on_complete : (file_id : String) (reason : Option String) → Client orp → Client orp
  unfolding mark_file
  on_complete file_id reason c =
      let state : TransferState = elim reason [
        | none ↦ complete
        | some r ↦ if r == "integrity-failed" then integrity_failed else failed_transfer
      ] in
      mark_file file_id (record no_file_patch { state = some state }) none c

  unfoldable pub history : String → ListMessagesOptions → Client orp → List StoredMessage
  history contact_key opts c = list_messages contact_key opts c.store

  unfoldable pub pending_metrics : Client orp → PendingMetrics
  pending_metrics c = elim c.queue [
    | none ↦ compute_pending_metrics []
    | some rows ↦
        if c.has_worker
        then compute_pending_metrics (PendingQueue.list rows)
        else compute_pending_metrics []
  ]
