-- ===== src/ConnectionManager.antt =====
-- packages/orpal-core/src/messaging/connection-manager.ts: the live connection of each contact, and
-- the promises of those who wait for one. A channel and an endpoint are known by a number; so is a
-- promise, which is settled by its waiter or by its timer. The calls out are recorded in `events`.
pub mod Promises
pub mod Settling
pub mod Starting
pub mod Runs
pub mod Outcomes
mod Examples
use orpal.Base.{
  ℕ, suc, ◌+◌, String, Bool, true, false, List, [], ◌∷◌, ◌++◌, Option, none, some, ◌==◌, ◌||◌, eqb,
  if◌then◌else◌,
}
use orpal.Base.KeySet
use orpal.Dict
use orpal.Dict.{Dict}
use orpal.NumberMap
use orpal.NumberMap.{NumberMap}
use Prim.Native.String

pub data ContactState : Type 0 where
  connected connecting down unknown : ContactState

pub record ContactConn : Type 0 where
  pub contact_key : String
  pub match_key : String
  pub board_id : String
  pub channel : ℕ
  pub endpoint : Option ℕ
  pub state : ContactState
  pub receives_files : Bool

pub data Event : Type 0 where
  state_changed : (contact_key : String) → ContactState → Event
  intents_sent : (contact_key : String) → Event
  endpoint_closed : ℕ → Event
  resolved : (promise : ℕ) → ContactConn → Event
  rejected : (promise : ℕ) (contact_key : String) → Event

pub record Manager : Type 0 where
  pub connections : Dict ContactConn
  pub match_to_counterparty : Dict String
  pub endpoints_by_match : Dict ℕ
  pub connect_waiters : Dict (List ℕ)
  pub pending_connects : Dict ℕ
  pub desired_contacts : List String
  -- The timers that are armed, by their promise, with the contact.
  pub timers : NumberMap String
  pub next_promise : ℕ
  pub events : List Event

unfoldable pub new_manager : Manager
new_manager = record {
  connections = [];
  match_to_counterparty = [];
  endpoints_by_match = [];
  connect_waiters = [];
  pending_connects = [];
  desired_contacts = [];
  timers = [];
  next_promise = 0;
  events = [];
}

unfoldable pub match_key_of : (board_id match_id : String) → String
match_key_of board_id match_id = String.◌++◌ board_id (String.◌++◌ " " match_id)

unfoldable pub emit : Event → Manager → Manager
emit e m = record m { events = m.events ++ (e ∷ []) }

unfoldable pub get_connection : String → Manager → Option ContactConn
get_connection contact_key m = Dict.get contact_key m.connections

unfoldable pub set_connection : String → ContactConn → Manager → Manager
set_connection contact_key conn m = record m {
  connections = Dict.set contact_key conn m.connections;
}

unfoldable pub record_match : (match_key counterparty_key : String) → Manager → Manager
record_match match_key counterparty_key m = record m {
  match_to_counterparty = Dict.set match_key counterparty_key m.match_to_counterparty;
}

unfoldable pub counterparty_for : String → Manager → Option String
counterparty_for match_key m = Dict.get match_key m.match_to_counterparty

unfoldable pub store_endpoint : String → ℕ → Manager → Manager
store_endpoint match_key endpoint m = record m {
  endpoints_by_match = Dict.set match_key endpoint m.endpoints_by_match;
}

unfoldable pub get_endpoint : String → Manager → Option ℕ
get_endpoint match_key m = Dict.get match_key m.endpoints_by_match

abbrev pub is_connected : Option ContactConn → Bool
is_connected none = false
is_connected (some conn) = elim conn.state [ connected ↦ true | _ ↦ false ]

unfoldable pub contact_state : String → Manager → ContactState
contact_state contact_key m = elim (Dict.get contact_key m.connections) [
  | none ↦ unknown
  | some conn ↦ conn.state
]

abbrev pub waiters_of : Option (List ℕ) → List ℕ
waiters_of none = []
waiters_of (some set) = set

unfoldable pub add_connect_waiter : String → ℕ → Manager → Manager
add_connect_waiter contact_key waiter m = record m {
  connect_waiters =
      Dict.set contact_key
        (NumberMap.add waiter (waiters_of (Dict.get contact_key m.connect_waiters)))
        m.connect_waiters;
}

-- `set.delete(waiter)`
unfoldable pub discard : ℕ → List ℕ → List ℕ
discard k [] = []
discard k (j ∷ s) = let rest = discard k s in if eqb j k then rest else j ∷ rest

unfoldable pub remove_connect_waiter : String → ℕ → Manager → Manager
remove_connect_waiter contact_key waiter m = elim (Dict.get contact_key m.connect_waiters) [
  | none ↦ m
  | some set ↦ record m {
    connect_waiters = Dict.set contact_key (discard waiter set) m.connect_waiters;
  }
]

pub data Connecting : Type 0 where
  ready : ContactConn → Connecting
  waits : (promise : ℕ) → Connecting

-- The executor of a new promise, and its place among the pending ones.
unfoldable pub begin_connecting : String → Manager → Manager
unfolding add_connect_waiter emit
begin_connecting contact_key m =
    let waiting = add_connect_waiter contact_key m.next_promise (record m {
      timers = NumberMap.set m.next_promise contact_key m.timers;
      next_promise = m.next_promise + 1;
    }) in
    let desired = record waiting {
      desired_contacts = KeySet.add contact_key waiting.desired_contacts;
    } in
    let started =
      emit (intents_sent contact_key) (emit (state_changed contact_key connecting) desired) in
    record started {
      pending_connects = Dict.set contact_key m.next_promise started.pending_connects;
    }

unfoldable pub join_or_begin : String → Manager → Connecting × Manager
unfolding begin_connecting
join_or_begin contact_key m = elim (Dict.get contact_key m.pending_connects) [
  | some inflight ↦ (waits inflight, m)
  | none ↦ (waits m.next_promise, begin_connecting contact_key m)
]

unfoldable pub ensure_connection : String → Manager → Connecting × Manager
unfolding join_or_begin
ensure_connection contact_key m = elim (Dict.get contact_key m.connections) [
  | none ↦ join_or_begin contact_key m
  | some existing ↦
      if is_connected (some existing) then (ready existing, m) else join_or_begin contact_key m
]

-- A waiter that is called.
unfoldable pub waiter_called : String → ContactConn → ℕ → Manager → Manager
unfolding remove_connect_waiter emit
waiter_called contact_key conn promise m =
    let disarmed = record m { timers = NumberMap.delete promise m.timers } in
    let removed = remove_connect_waiter contact_key promise disarmed in
    emit (resolved promise conn)
      (record removed { pending_connects = Dict.delete contact_key removed.pending_connects })

unfoldable pub call_waiters : String → ContactConn → List ℕ → Manager → Manager
unfolding waiter_called
call_waiters contact_key conn [] m = m
call_waiters contact_key conn (w ∷ set) m =
    call_waiters contact_key conn set (waiter_called contact_key conn w m)

unfoldable pub resolve_connect_waiters : String → ContactConn → Manager → Manager
unfolding call_waiters
resolve_connect_waiters contact_key conn m = elim (Dict.get contact_key m.connect_waiters) [
  | none ↦ m
  | some set ↦
      call_waiters contact_key conn set
        (record m { connect_waiters = Dict.delete contact_key m.connect_waiters })
]

-- The timer of a promise fires, if it is armed.
unfoldable pub timed_out : ℕ → Manager → Manager
unfolding remove_connect_waiter emit
timed_out promise m = elim (NumberMap.get promise m.timers) [
  | none ↦ m
  | some contact_key ↦
      let fired = record m { timers = NumberMap.delete promise m.timers } in
      let removed = remove_connect_waiter contact_key promise fired in
      let dropped = record removed {
        pending_connects = Dict.delete contact_key removed.pending_connects;
      } in
      let told =
        if is_connected (Dict.get contact_key dropped.connections)
        then dropped
        else emit (state_changed contact_key down) dropped in
      emit (rejected promise contact_key) told
]

unfoldable pub is_lost : String → Bool
is_lost state = state == "disconnected" || state == "failed" || state == "closed"

unfoldable pub endpoint_state : String → String → ContactConn → Manager → Manager
unfolding emit is_lost
endpoint_state state contact_key conn m =
    if state == "connected"
    then emit (state_changed contact_key connected) m
    else if is_lost state
    then emit (state_changed contact_key down) (record m {
      connections = Dict.set contact_key (record conn { state = down }) m.connections;
    })
    else m

unfoldable pub handle_endpoint_state : (match_key state : String) → Manager → Manager
unfolding endpoint_state
handle_endpoint_state match_key state m = elim (Dict.get match_key m.match_to_counterparty) [
  | none ↦ m
  | some contact_key ↦ if contact_key == "" then m else elim (Dict.get contact_key m.connections) [
    | none ↦ m
    | some conn ↦ if conn.match_key == match_key then endpoint_state state contact_key conn m else m
  ]
]

abbrev pub close_endpoint : Option ℕ → Manager → Manager
close_endpoint none m = m
close_endpoint (some e) m = emit (endpoint_closed e) m

unfoldable pub drop_connection : String → Manager → Manager
unfolding emit
drop_connection contact_key m = elim (Dict.get contact_key m.connections) [
  | none ↦ m
  | some conn ↦
      let closed = close_endpoint conn.endpoint m in
      record closed { connections = Dict.delete contact_key closed.connections }
]

unfoldable pub close_endpoints : List ContactConn → Manager → Manager
unfolding emit
close_endpoints [] m = m
close_endpoints (conn ∷ conns) m = close_endpoints conns (close_endpoint conn.endpoint m)

unfoldable pub close_all : Manager → Manager
unfolding close_endpoints
close_all m =
    let closed = close_endpoints (Dict.values m.connections) m in record closed { connections = [] }
