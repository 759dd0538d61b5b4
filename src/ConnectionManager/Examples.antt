-- ===== src/ConnectionManager/Examples.antt =====
-- One contact that is asked for twice, and comes up before the timer.
use orpal.Base.{if◌then◌else◌, true, [], ◌∷◌, ◌++◌, List, none, some, ◌≡◌, refl}
use orpal.Dict
use orpal.NumberMap
use orpal.ConnectionManager.{
  record_match, set_connection, resolve_connect_waiters, handle_endpoint_state, ensure_connection,
  ContactConn, connected, down, new_manager, state_changed, resolved, rejected, contact_state,
  is_connected,
}
use orpal.ConnectionManager.Promises.{IsSound}
use orpal.ConnectionManager.Runs.{
  Call, ensures, connects, times_out, records, endpoint_reports, run, call, run-IsSound,
}
use orpal.ConnectionManager.Outcomes.{connects-resolves, times_out-rejects}

abbrev conn : ContactConn
conn = record {
  contact_key = "bob";
  match_key = "b1 m1";
  board_id = "b1";
  channel = 7;
  endpoint = some 4;
  state = connected;
  receives_files = true;
}

abbrev asked : List Call
asked = ensures "bob" ∷ ensures "bob" ∷ ensures "carol" ∷ []

waiting : Dict.get "bob" (run asked new_manager).pending_connects ≡ some 0
unfolding run Dict.get call ensure_connection new_manager Dict.set
waiting = refl

run-IsSound_example :
    IsSound (run (asked ++ (connects "bob" conn ∷ times_out 0 ∷ times_out 1 ∷ [])) new_manager)
run-IsSound_example = run-IsSound (asked ++ (connects "bob" conn ∷ times_out 0 ∷ times_out 1 ∷ []))

connects-resolves_example :
    let after = call (connects "bob" conn) (run asked new_manager) in
    (after.events
      ≡ ((run asked new_manager).events ++ (state_changed "bob" connected ∷ []))
        ++ (resolved 0 conn ∷ []))
    × (Dict.get "bob" after.pending_connects ≡ none)
    × (NumberMap.get 0 after.timers ≡ none)
    × (Dict.get "bob" after.connections ≡ some conn)
connects-resolves_example = connects-resolves asked "bob" conn 0 waiting

times_out-rejects_example :
    let before = run asked new_manager in
    let after = call (times_out 0) before in
    (after.events
      ≡ (if is_connected (Dict.get "bob" before.connections)
          then before.events
          else before.events ++ (state_changed "bob" down ∷ []))
        ++ (rejected 0 "bob" ∷ []))
    × (Dict.get "bob" after.pending_connects ≡ none)
    × (NumberMap.get 0 after.timers ≡ none)
    × (after.connections ≡ before.connections)
times_out-rejects_example = times_out-rejects asked "bob" 0 waiting

-- The endpoint of an earlier match says nothing about the connection.
stale :
    contact_state "bob" (
      run
        (records "b1 m1" "bob"
          ∷ records "b1 m0" "bob"
          ∷ connects "bob" conn
          ∷ endpoint_reports "b1 m0" "closed"
          ∷ [])
        new_manager)
    ≡ connected
unfolding run contact_state Dict.get call handle_endpoint_state resolve_connect_waiters
    set_connection record_match new_manager Dict.set
stale = refl
