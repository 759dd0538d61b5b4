-- ===== src/ConnectionManager/Runs.antt =====
-- Every run of calls of the manager.
use orpal.Base.{
  ℕ, refl, String, [], ◌∷◌, List, none, some, Option, ◌≡◌, inl, inr, Bool-cases, Option-cases,
  arith, ◌==◌,
}
use orpal.Dict
use orpal.Dict.{Dict}
use orpal.NumberMap
use orpal.ConnectionManager.Promises.{
  IsSound, Keeps, Keeps-refl, Keeps-trans, Keeps-IsSound, settles, settlements-append,
}
use orpal.ConnectionManager.Starting.{ensure_connection-IsSound}
use orpal.ConnectionManager.Settling.{resolve-IsSound, timed_out-IsSound}
use orpal.ConnectionManager.{
  Manager, Event, ContactConn, state_changed, endpoint_closed, connected, down, new_manager, emit,
  ensure_connection, resolve_connect_waiters, timed_out, set_connection, record_match,
  store_endpoint, handle_endpoint_state, endpoint_state, is_lost, drop_connection, close_endpoint,
  close_endpoints, close_all,
}

-- A connection that comes up, the way the client wires it.
unfoldable pub connection_made : String → ContactConn → Manager → Manager
connection_made key conn m =
    resolve_connect_waiters key conn
      (emit (state_changed key connected) (set_connection key conn m))

pub data Call : Type 0 where
  ensures drops : (contact_key : String) → Call
  connects : (contact_key : String) → ContactConn → Call
  times_out : (promise : ℕ) → Call
  records : (match_key counterparty_key : String) → Call
  stores : (match_key : String) (endpoint : ℕ) → Call
  endpoint_reports : (match_key state : String) → Call
  closes_all : Call

unfoldable pub call : Call → Manager → Manager
unfolding connection_made
call (ensures key) m = (ensure_connection key m).1
call (drops key) m = drop_connection key m
call (connects key conn) m = connection_made key conn m
call (times_out n) m = timed_out n m
call (records match_key key) m = record_match match_key key m
call (stores match_key e) m = store_endpoint match_key e m
call (endpoint_reports match_key state) m = handle_endpoint_state match_key state m
call closes_all m = close_all m

unfoldable pub run : List Call → Manager → Manager
run [] m = m
run (c ∷ cs) m = run cs (call c m)

pub emit-Keeps : (e : Event) (m : Manager) → ((n : ℕ) → settles n e ≡ 0) → Keeps m (emit e m)
unfolding emit
emit-Keeps e m silent = record {
  waiters = λ k. refl;
  pending = refl;
  timers = refl;
  next = refl;
  settlements_kept = λ n. omega (arith, settlements-append, silent n);
}

close_endpoint-Keeps : (e : Option ℕ) (m : Manager) → Keeps m (close_endpoint e m)
close_endpoint-Keeps none m = Keeps-refl m
close_endpoint-Keeps (some e) m = emit-Keeps (endpoint_closed e) m (λ n. refl)

close_endpoints-Keeps : (conns : List ContactConn) (m : Manager) → Keeps m (close_endpoints conns m)
unfolding close_endpoints
close_endpoints-Keeps [] m = Keeps-refl m
close_endpoints-Keeps (conn ∷ conns) m =
    Keeps-trans (close_endpoint-Keeps conn.endpoint m) (close_endpoints-Keeps conns _)

-- Only the connections change.
pub connections-Keeps :
    (c : Dict ContactConn) (m : Manager) → Keeps m (record m { connections = c })
connections-Keeps c m = record {
  waiters = λ k. refl;
  pending = refl;
  timers = refl;
  next = refl;
  settlements_kept = λ n. refl;
}

drop_connection-Keeps : (key : String) (m : Manager) → Keeps m (drop_connection key m)
unfolding drop_connection
drop_connection-Keeps key m = elim (Option-cases (Dict.get key m.connections)) [
  | inl absent ↦ rw (absent, drop_connection) (Keeps-refl m)
  | inr (conn, found) ↦
      rw (found, drop_connection)
        (Keeps-trans (close_endpoint-Keeps conn.endpoint m) (connections-Keeps _ _))
]

endpoint_state-Keeps :
    (state key : String) (conn : ContactConn) (m : Manager)
    → Keeps m (endpoint_state state key conn m)
unfolding endpoint_state
endpoint_state-Keeps state key conn m = elim (Bool-cases (state == "connected")) [
  | inl up ↦ rw (up) (emit-Keeps (state_changed key connected) m (λ n. refl))
  | inr other ↦ elim (Bool-cases (is_lost state)) [
    | inl lost ↦
        rw (other, lost)
          (Keeps-trans
            (connections-Keeps (Dict.set key (record conn { state = down }) m.connections) m)
            (emit-Keeps (state_changed key down) _ (λ n. refl)))
    | inr calm ↦ rw (other, calm) (Keeps-refl m)
  ]
]

handle_endpoint_state-Keeps :
    (match_key state : String) (m : Manager) → Keeps m (handle_endpoint_state match_key state m)
unfolding handle_endpoint_state
handle_endpoint_state-Keeps match_key state m =
    elim (Option-cases (Dict.get match_key m.match_to_counterparty)) [
      | inl absent ↦ rw (absent, handle_endpoint_state) (Keeps-refl m)
      | inr (key, found) ↦ elim (Bool-cases (key == "")) [
        | inl nobody ↦ rw (found, nobody, handle_endpoint_state) (Keeps-refl m)
        | inr named ↦ elim (Option-cases (Dict.get key m.connections)) [
          | inl absent ↦ rw (found, named, absent, handle_endpoint_state) (Keeps-refl m)
          | inr (conn, present) ↦ elim (Bool-cases (conn.match_key == match_key)) [
            | inl current ↦
                rw (found, named, present, current, handle_endpoint_state)
                  (endpoint_state-Keeps state key conn m)
            | inr stale ↦ rw (found, named, present, stale, handle_endpoint_state) (Keeps-refl m)
          ]
        ]
      ]
    ]

pub call-IsSound : (c : Call) (m : Manager) → IsSound m → IsSound (call c m)
unfolding call
call-IsSound (ensures key) m s = ensure_connection-IsSound key m s
call-IsSound (drops key) m s = Keeps-IsSound (drop_connection-Keeps key m) s
call-IsSound (connects key conn) m s =
    unfold connection_made set_connection in
    resolve-IsSound key conn _ (
      Keeps-IsSound
        (Keeps-trans (connections-Keeps (Dict.set key conn m.connections) m)
          (emit-Keeps (state_changed key connected) _ (λ n. refl)))
        s)
call-IsSound (times_out n) m s = timed_out-IsSound n m s
call-IsSound (records match_key key) m s =
    unfold record_match in
    record { linked = s.linked; timed = s.timed; pended = s.pended; settled = s.settled }
call-IsSound (stores match_key e) m s =
    unfold store_endpoint in
    record { linked = s.linked; timed = s.timed; pended = s.pended; settled = s.settled }
call-IsSound (endpoint_reports match_key state) m s =
    Keeps-IsSound (handle_endpoint_state-Keeps match_key state m) s
call-IsSound closes_all m s =
    unfold close_all in
    Keeps-IsSound
      (Keeps-trans (close_endpoints-Keeps (Dict.values m.connections) m) (connections-Keeps _ _)) s

new_manager-IsSound : IsSound new_manager
unfolding new_manager Dict.get NumberMap.get
new_manager-IsSound = record {
  linked = λ k. refl;
  timed = λ k n h. cc;
  pended = λ n k h. cc;
  settled = λ n. ground arith;
}

run_from-IsSound : (cs : List Call) (m : Manager) → IsSound m → IsSound (run cs m)
unfolding run
run_from-IsSound [] m s = s
run_from-IsSound (c ∷ cs) m s = run_from-IsSound cs (call c m) (call-IsSound c m s)

-- After any calls of a new manager: a contact's waiters are those of its one pending promise, a
-- promise has its timer exactly as long as it is that of its contact, and every promise that was
-- handed out either has its timer or has been settled, once.
pub run-IsSound : (cs : List Call) → IsSound (run cs new_manager)
run-IsSound cs = run_from-IsSound cs new_manager new_manager-IsSound
