-- ===== src/Client/Links.antt =====
-- orpal-client.ts, `handleConnected`: a connection that a board has made is taken, or closed where the peer is
-- blocked or is connected already. `own_card` is the text of the device's card.
use orpal.Base.{String, Bool, false, Option, none, some, ◌==◌, ◌||◌, if◌then◌else◌, ℕ}
use orpal.Base.KeySet
use orpal.ContactRegistry
use orpal.ConnectionManager
use orpal.ConnectionManager.{
  ContactConn, ContactState, connected, is_connected, get_connection, get_endpoint, close_endpoint,
  set_connection, resolve_connect_waiters, match_key_of, state_changed, record_match,
  counterparty_for, store_endpoint, close_all,
}
use orpal.Frames.{hello}
use orpal.Keys.{Orp}
use orpal.Client.{Client, frame_sent, recipient_flushed, emit}

-- A match that a board reports on its connection.
pub record ConnectedInfo : Type 0 where
  pub match_id : String
  pub counterparty_key : String
  pub channel : ℕ

module _ (orp : Orp) where
  abbrev with_conns : ConnectionManager.Manager → Client orp → Client orp
  with_conns m c = record c { conns = m }

  unfoldable pub close_match : (match_key : String) → Client orp → Client orp
  close_match match_key c = record c {
    conns = close_endpoint (get_endpoint match_key c.conns) c.conns;
  }

  -- The connection of another match, that is not up.
  unfoldable pub close_old : (match_key : String) → Option ContactConn → Client orp → Client orp
  close_old match_key none c = c
  close_old match_key (some existing) c =
      if existing.match_key == match_key
      then c
      else record c { conns = close_endpoint existing.endpoint c.conns }

  unfoldable pub is_duplicate : (match_key : String) → Option ContactConn → Bool
  is_duplicate match_key none = false
  is_duplicate match_key (some existing) =
      if existing.match_key == match_key then false else is_connected (some existing)

  -- `receives_files` is whether the client can create a file sink.
  unfoldable pub take_connection :
      (board_id own_card : String) (receives_files : Bool) → ConnectedInfo → Client orp → Client orp
  take_connection board_id own_card receives_files info c =
      let match_key = match_key_of board_id info.match_id in
      let conn : ContactConn = record {
        contact_key = info.counterparty_key;
        match_key = match_key;
        board_id = board_id;
        channel = info.channel;
        endpoint = get_endpoint match_key c.conns;
        state = connected;
        receives_files = receives_files;
      } in
      let up =
        ConnectionManager.emit (state_changed info.counterparty_key connected)
          (set_connection info.counterparty_key conn c.conns) in
      let greeted =
        emit orp (frame_sent info.channel (hello own_card))
          (record c { conns = resolve_connect_waiters info.counterparty_key conn up }) in
      if c.has_worker then emit orp (recipient_flushed info.counterparty_key) greeted else greeted

  unfoldable pub handle_connected :
      (board_id own_card : String) (receives_files : Bool) → ConnectedInfo → Client orp → Client orp
  unfolding close_match close_old is_duplicate take_connection
  handle_connected board_id own_card receives_files info c =
      let match_key = match_key_of board_id info.match_id in
      let existing = get_connection info.counterparty_key c.conns in
      if KeySet.contains info.counterparty_key c.blocked_keys || is_duplicate match_key existing
      then close_match match_key c
      else take_connection board_id own_card receives_files info (close_old match_key existing c)

  -- `observeOutbound`, for a match.
  unfoldable pub observe_match :
      (board_id match_id counterparty_key : String) → Client orp → Client orp
  observe_match board_id match_id counterparty_key c = record c {
    conns = record_match (match_key_of board_id match_id) counterparty_key c.conns;
  }

  -- Whether a new endpoint is to go over a relay only.
  unfoldable pub wants_relay : (by_default : Bool) (board_id match_id : String) → Client orp → Bool
  wants_relay by_default board_id match_id c =
      elim (counterparty_for (match_key_of board_id match_id) c.conns) [
        | none ↦ by_default
        | some key ↦
            if key == ""
            then by_default
            else ContactRegistry.relay_only key c.contacts || by_default
      ]

  unfoldable pub build_endpoint :
      (endpoint : ℕ) (board_id match_id : String) → Client orp → Client orp
  build_endpoint endpoint board_id match_id c = record c {
    conns = store_endpoint (match_key_of board_id match_id) endpoint c.conns;
  }

  unfoldable pub contact_state : String → Client orp → ContactState
  contact_state contact_key c = ConnectionManager.contact_state contact_key c.conns
