-- ===== src/Client/Sending.antt =====
-- The client's texts on their way out: over a connection that is there or is waited for, or through the
-- worker's queue. What a method does after its wait is a function of its own.
use orpal.Base.{ℕ, String, Bool, Option, none, some, ◌==◌, eqb, if◌then◌else◌}
use orpal.ContactRegistry
use orpal.ConversationStore.{
  StoredMessage, OutboundState, queued, sending, delivered, get_message, text_message, outgoing,
}
use orpal.ConversationStore as Conversations
use orpal.PendingQueue
use orpal.PendingQueue.{PendingMessage}
use orpal.ConnectionManager.{ContactConn, Connecting, ready, waits, ensure_connection}
use orpal.Frames.{AppFrame, text_frame}
use orpal.Keys.{Orp, Bytes}
use orpal.Sealed.{seal_app_frame}
use orpal.Client.{Outside, Client, failed, frame_sent, emit}
use orpal.Client.Boards.{request_intents}
use orpal.Client.Messages.{mark_message, only_state, outgoing_text, store_message, enqueue}

pub data Sent : Type 0 where
  over : Sent
  throws : Sent
  waits_for : (promise : ℕ) → Sent

abbrev pub text_of : (id body : String) (ts : ℕ) → AppFrame
text_of id body ts = text_frame (record { id = id; body = body; ts = ts })

-- A text that the user may have sent again.
abbrev pub own_text : StoredMessage → Option String
own_text m = elim m.kind [
  | text_message ↦ elim m.direction [ outgoing ↦ m.body | _ ↦ none ]
  | _ ↦ none
]

module _ (orp : Orp) (out : Outside) where
  abbrev pub fail : String → (context : String) → Client orp → Client orp
  fail id context c =
      emit orp (failed context) (mark_message orp id (only_state Conversations.failed) c)

  -- A new promise is the next one, and its intents go out as it is made.
  unfoldable pub ensure : String → Client orp → Connecting × Client orp
  ensure contact_key c =
      let (connecting, m) = ensure_connection contact_key c.conns in
      elim connecting [
        | ready conn ↦ (ready conn, record c { conns = m })
        | waits promise ↦ (
          waits promise,
          if eqb promise c.conns.next_promise
              then request_intents orp contact_key (record c { conns = m })
              else record c { conns = m },
        )
      ]

  -- `conn.channel.send(this.encodeSealed(...))`
  unfoldable pub send_sealed :
      (transport_key : String)
      → AppFrame
      → (randomness : Bytes) → ContactConn
      → Client orp
      → Sent × Client orp
  send_sealed transport_key frame randomness conn c =
      elim (seal_app_frame orp out.to_bytes out.of_bytes frame transport_key randomness) [
        | none ↦ (throws, c)
        | some outer ↦ (over, emit orp (frame_sent conn.channel outer) c)
      ]

  abbrev pub pending_text : (contact_key transport_key id body : String) (ts : ℕ) → PendingMessage
  pending_text contact_key transport_key id body ts = record {
    recipient_id = contact_key;
    recipient_transport_key = transport_key;
    message_id = id;
    timestamp = ts;
    attempt_count = 0;
    last_attempt_at = none;
    payload = PendingQueue.text body;
  }

  unfoldable pub dispatch_text :
      (contact_key transport_key id body : String) (ts : ℕ) (randomness : Bytes)
      → Client orp
      → Sent × Client orp
  unfolding ensure send_sealed
  dispatch_text contact_key transport_key id body ts randomness c =
      if c.has_worker
      then (over, enqueue orp (pending_text contact_key transport_key id body ts) c)
      else let (connecting, d) = ensure contact_key c in
        elim connecting [
          | ready conn ↦ send_sealed transport_key (text_of id body ts) randomness conn d
          | waits promise ↦ (waits_for promise, d)
        ]

  unfoldable pub send_text :
      (contact_key body id : String) (ts : ℕ) (randomness : Bytes) → Client orp → Sent × Client orp
  unfolding dispatch_text
  send_text contact_key body id ts randomness c =
      let state : OutboundState = if c.has_worker then queued else sending in
      let stored = store_message orp (outgoing_text contact_key id body ts state) c in
      elim (ContactRegistry.transport_key contact_key c.contacts) [
        | none ↦ (over, fail id "sendText:seal" stored)
        | some transport_key ↦
            if transport_key == ""
            then (over, fail id "sendText:seal" stored)
            else dispatch_text contact_key transport_key id body ts randomness stored
      ]

  -- The wait of `sendText` ends without a connection.
  unfoldable pub text_offline : String → Client orp → Client orp
  text_offline id c = mark_message orp id (only_state Conversations.failed) c

  -- The channel has the peer's word that the frame is there, or gives it up.
  unfoldable pub text_settled : String → (arrived : Bool) → Client orp → Client orp
  text_settled id arrived c =
      mark_message orp id (only_state (if arrived then delivered else Conversations.failed)) c

  abbrev body_of : PendingMessage → String
  body_of m = elim m.payload [ PendingQueue.text body ↦ body ]

  -- `attemptDelivery` once there is a connection.
  unfoldable pub attempt_on :
      PendingMessage → (randomness : Bytes) → ContactConn → Client orp → Sent × Client orp
  unfolding send_sealed
  attempt_on m randomness conn c =
      send_sealed m.recipient_transport_key (text_of m.message_id (body_of m) m.timestamp)
        randomness conn (mark_message orp m.message_id (only_state sending) c)

  unfoldable pub attempt_delivery :
      PendingMessage → (randomness : Bytes) → Client orp → Sent × Client orp
  unfolding ensure attempt_on
  attempt_delivery m randomness c =
      let (connecting, d) = ensure m.recipient_id c in
      elim connecting [
        | ready conn ↦ attempt_on m randomness conn d
        | waits promise ↦ (waits_for promise, d)
      ]

  -- The promise of the attempt's `send` is kept.
  unfoldable pub attempt_arrived : PendingMessage → Client orp → Client orp
  attempt_arrived m c = mark_message orp m.message_id (only_state delivered) c

  -- In `retryText` a frame that cannot be sealed fails the message.
  unfoldable pub caught : String → Sent × Client orp → Sent × Client orp
  caught id (over, c) = (over, c)
  caught id (throws, c) = (over, mark_message orp id (only_state Conversations.failed) c)
  caught id (waits_for promise, c) = (waits_for promise, c)

  unfoldable pub resend :
      (contact_key transport_key id body : String) (ts : ℕ) (randomness : Bytes)
      → Client orp
      → Sent × Client orp
  unfolding ensure send_sealed caught
  resend contact_key transport_key id body ts randomness c =
      let (connecting, d) = ensure contact_key (mark_message orp id (only_state sending) c) in
      elim connecting [
        | ready conn ↦ caught id (send_sealed transport_key (text_of id body ts) randomness conn d)
        | waits promise ↦ (waits_for promise, d)
      ]

  unfoldable pub retry_body :
      (contact_key id body : String) (ts : ℕ) (randomness : Bytes) → Client orp → Sent × Client orp
  unfolding resend
  retry_body contact_key id body ts randomness c =
      elim (ContactRegistry.transport_key contact_key c.contacts) [
        | none ↦ (over, fail id "retryText:seal" c)
        | some transport_key ↦
            if transport_key == ""
            then (over, fail id "retryText:seal" c)
            else resend contact_key transport_key id body ts randomness c
      ]

  unfoldable pub retry_text :
      (message_id contact_key : String) (randomness : Bytes) → Client orp → Sent × Client orp
  unfolding retry_body
  retry_text message_id contact_key randomness c = elim (get_message message_id c.store) [
    | none ↦ (over, c)
    | some m ↦ elim (own_text m) [
      | none ↦ (over, c)
      | some body ↦ retry_body contact_key message_id body m.ts randomness c
    ]
  ]
