-- ===== src/Client/Boards.antt =====
-- The boards of the client: which of them a contact is reached over, their states, and the presence that
-- is announced on them.
pub mod Choice
use orpal.Base.{
  ℕ, String, Bool, true, false, List, [], ◌∷◌, ◌++◌, Option, none, some, ◌==◌, ◌&&◌, ◌||◌, not,
  if◌then◌else◌,
}
use orpal.Base.KeySet
use orpal.Dict
use orpal.ContactRegistry
use orpal.ConnectionManager.{is_connected}
use orpal.Keys.{Orp}
use orpal.Client.{
  Client, BoardEntry, BrokerState, connecting, open_state, closed_state, error_state, Effect,
  broker_changed, presence_announced, intent_sent, all_flushed, failed, emit,
}

-- `boards.find((b) => b.id === id)`
unfoldable pub find_board : String → List BoardEntry → Option BoardEntry
find_board id [] = none
find_board id (b ∷ boards) = let rest = find_board id boards in if b.id == id then some b else rest

-- The loop of `boardsForContact`, with the ids that have been seen.
unfoldable pub choose_boards : List BoardEntry → (seen ids : List String) → List BoardEntry
choose_boards boards seen [] = []
choose_boards boards seen (id ∷ ids) =
    let skipped = choose_boards boards seen ids in
    let rest = choose_boards boards (KeySet.add id seen) ids in
    if KeySet.contains id seen
    then skipped
    else elim (find_board id boards) [ none ↦ rest | some b ↦ b ∷ rest ]

abbrev pub is_nil : List String → Bool
is_nil [] = true
is_nil (id ∷ ids) = false

unfoldable pub board_choice : ContactRegistry.Boards → List BoardEntry → List BoardEntry
unfolding choose_boards
board_choice cfg boards =
    if is_nil cfg.preferred && is_nil cfg.fallback
    then boards
    else choose_boards boards [] (cfg.preferred ++ cfg.fallback)

-- `states.includes(state)`
abbrev pub is_open : BrokerState → Bool
is_open open_state = true
is_open _ = false

abbrev pub is_connecting : BrokerState → Bool
is_connecting connecting = true
is_connecting _ = false

abbrev pub is_error : BrokerState → Bool
is_error error_state = true
is_error _ = false

abbrev pub some_state : (BrokerState → Bool) → List BoardEntry → Bool
some_state test [] = false
some_state test (b ∷ boards) = test b.state || some_state test boards

unfoldable pub aggregate : List BoardEntry → BrokerState
aggregate boards =
    if some_state is_open boards
    then open_state
    else if some_state is_connecting boards
    then connecting
    else if some_state is_error boards
    then error_state
    else closed_state

-- A write to the state of the first board with the id, which `find` gives.
unfoldable pub write_state : String → BrokerState → List BoardEntry → List BoardEntry
write_state id state [] = []
write_state id state (b ∷ boards) =
    let rest = write_state id state boards in
    if b.id == id then record b { state = state } ∷ boards else b ∷ rest

-- A board id that is missing or empty names the only board, if there is one only.
unfoldable pub resolve_board : Option String → List BoardEntry → Option BoardEntry
unfolding find_board
resolve_board none (b ∷ []) = some b
resolve_board none [] = none
resolve_board none (b ∷ d ∷ boards) = none
resolve_board (some id) boards =
    if id == ""
    then elim boards [ [] ↦ none | b ∷ rest ↦ elim rest [ [] ↦ some b | d ∷ more ↦ none ] ]
    else find_board id boards

abbrev pub with_tokens : Option String → List BoardEntry → List BoardEntry
with_tokens token [] = []
with_tokens token (b ∷ boards) = record b { push_token = token } ∷ with_tokens token boards

module _ (orp : Orp) where
  unfoldable pub boards_for_contact : String → Client orp → List BoardEntry
  unfolding board_choice
  boards_for_contact contact_key c =
      board_choice (ContactRegistry.boards contact_key c.contacts) c.boards

  -- Each board's client announces the presence with the token of its options; none throws.
  unfoldable pub announce_presence : List BoardEntry → Client orp → Client orp
  announce_presence [] c = c
  announce_presence (b ∷ boards) c =
      announce_presence boards (emit orp (presence_announced b.id b.push_token) c)

  unfoldable pub recompute_broker_state : Option String → Client orp → Client orp
  unfolding aggregate
  recompute_broker_state detail c =
      emit orp (broker_changed (aggregate c.boards) detail)
        (record c { broker_state = aggregate c.boards })

  unfoldable pub set_board_state : Option String → BrokerState → Client orp → Client orp
  unfolding resolve_board write_state
  set_board_state board_id state c = elim (resolve_board board_id c.boards) [
    | none ↦ c
    | some b ↦ record c { boards = write_state b.id state c.boards }
  ]

  unfoldable pub reaches : String → String → Client orp → Bool
  reaches board_id contact_key c = elim (find_board board_id (boards_for_contact contact_key c)) [
    | none ↦ false
    | some b ↦ true
  ]

  -- The loop over the desired contacts: an intent for each that is not connected and is reached over the board.
  unfoldable pub resend_intents : String → List String → Client orp → Client orp
  unfolding reaches
  resend_intents board_id [] c = c
  resend_intents board_id (key ∷ keys) c = resend_intents board_id keys (
      if is_connected (Dict.get key c.conns.connections)
      then c
      else if reaches board_id key c
      then emit orp (intent_sent board_id key) c
      else c)

  unfoldable pub reach_out : Option BoardEntry → Client orp → Client orp
  unfolding announce_presence resend_intents
  reach_out none c = c
  reach_out (some b) c = resend_intents b.id c.conns.desired_contacts (announce_presence (b ∷ []) c)

  unfoldable pub on_broker_open : Option String → Client orp → Client orp
  unfolding recompute_broker_state set_board_state reach_out
  on_broker_open board_id c =
      let opened = recompute_broker_state none (set_board_state board_id open_state c) in
      let told = reach_out (resolve_board board_id c.boards) opened in
      if c.started then (if c.has_worker then emit orp all_flushed told else told) else opened

  unfoldable pub on_broker_close :
      Option String → (detail : Option String) → Client orp → Client orp
  unfolding recompute_broker_state set_board_state
  on_broker_close board_id detail c =
      recompute_broker_state detail (set_board_state board_id closed_state c)

  unfoldable pub on_broker_error :
      Option String → (detail : Option String) → Client orp → Client orp
  unfolding recompute_broker_state set_board_state
  on_broker_error board_id detail c =
      recompute_broker_state detail (set_board_state board_id error_state c)

  abbrev pub same_token : Option String → Option String → Bool
  same_token none none = true
  same_token none (some t) = false
  same_token (some s) none = false
  same_token (some s) (some t) = s == t

  unfoldable pub set_push_token : Option String → Client orp → Client orp
  unfolding announce_presence
  set_push_token token c =
      let written = record c { push_token = token; boards = with_tokens token c.boards } in
      if same_token token c.push_token
      then c
      else if c.started
      then announce_presence written.boards written
      else written

  unfoldable pub reannounce : Client orp → Client orp
  unfolding announce_presence
  reannounce c = if c.started then announce_presence c.boards c else c

  -- `sendIntents` of `ensureConnection`.
  unfoldable pub send_intents : String → List BoardEntry → Client orp → Client orp
  send_intents contact_key [] c = c
  send_intents contact_key (b ∷ boards) c =
      send_intents contact_key boards (emit orp (intent_sent b.id contact_key) c)

  unfoldable pub request_intents : String → Client orp → Client orp
  unfolding boards_for_contact send_intents
  request_intents contact_key c = elim (boards_for_contact contact_key c) [
    | [] ↦ emit orp (failed "ensureConnection:no-board") c
    | b ∷ boards ↦ send_intents contact_key (b ∷ boards) c
  ]
