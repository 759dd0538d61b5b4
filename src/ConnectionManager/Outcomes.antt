-- ===== src/ConnectionManager/Outcomes.antt =====
-- What a connection that comes up does to who waits for it, and what a timer does.
use orpal.Base.{
  ℕ, refl, ◌∙◌, String, [], ◌∷◌, ◌++◌, List, none, some, ◌≡◌, inl, inr, Bool-cases, arith,
  if◌then◌else◌, eq_refl,
}
use orpal.Dict
use orpal.Dict.{Dict}
use orpal.Dict.Laws.{get-set, get-delete}
use orpal.NumberMap
use orpal.NumberMap.Laws as NumberLaws
use orpal.ConnectionManager.Promises.{IsSound, Keeps-trans, Keeps-IsSound}
use orpal.ConnectionManager.Settling.{
  resolve-pending, resolved_manager, timed_out-armed, rejected_manager,
}
use orpal.ConnectionManager.{
  resolved, rejected, Manager, ContactConn, state_changed, connected, down, new_manager, emit,
  set_connection, is_connected,
}
use orpal.ConnectionManager.Runs.{
  Call, connects, times_out, call, connection_made, run, run-IsSound, connections-Keeps, emit-Keeps,
}

-- The manager with the connection, before the waiters are called.
wired : String → ContactConn → Manager → Manager
wired key conn m = emit (state_changed key connected) (set_connection key conn m)

wired-IsSound :
    (key : String) (conn : ContactConn) (m : Manager) → IsSound m → IsSound (wired key conn m)
unfolding wired set_connection
wired-IsSound key conn m s =
    Keeps-IsSound
      (Keeps-trans (connections-Keeps (Dict.set key conn m.connections) m)
        (emit-Keeps (state_changed key connected) _ (λ n. refl)))
      s

connects-resolved :
    (key : String) (conn : ContactConn) (n : ℕ) (m : Manager)
    → IsSound m
    → Dict.get key m.pending_connects ≡ some n
    → call (connects key conn) m ≡ resolved_manager key conn n (wired key conn m)
unfolding call connection_made wired
connects-resolved key conn n m s h =
    resolve-pending key conn n (wired key conn m) (wired-IsSound key conn m s)
      (unfold wired emit set_connection in h)

resolved_view :
    (key : String) (conn : ContactConn) (n : ℕ) (m : Manager)
    → let after = resolved_manager key conn n (wired key conn m) in
      (after.events ≡ (m.events ++ (state_changed key connected ∷ [])) ++ (resolved n conn ∷ []))
      × (Dict.get key after.pending_connects ≡ none)
      × (NumberMap.get n after.timers ≡ none)
      × (Dict.get key after.connections ≡ some conn)
unfolding resolved_manager wired emit set_connection
resolved_view key conn n m = (
  refl,
  rw (get-delete key key m.pending_connects, eq_refl key) refl,
  NumberLaws.get-delete n n m.timers ∙ ground arith,
  rw (get-set key key conn m.connections, eq_refl key) refl,
)

-- After any calls, a connection that comes up resolves the pending promise of its contact with that
-- connection, and settles no other; then no promise of the contact is pending, its timer is gone, and
-- the connection is the contact's.
pub connects-resolves :
    (cs : List Call) (key : String) (conn : ContactConn) (n : ℕ)
    → Dict.get key (run cs new_manager).pending_connects ≡ some n
    → let after = call (connects key conn) (run cs new_manager) in
      (after.events
        ≡ ((run cs new_manager).events ++ (state_changed key connected ∷ []))
          ++ (resolved n conn ∷ []))
      × (Dict.get key after.pending_connects ≡ none)
      × (NumberMap.get n after.timers ≡ none)
      × (Dict.get key after.connections ≡ some conn)
connects-resolves cs key conn n h =
    rw (connects-resolved key conn n (run cs new_manager) (run-IsSound cs) h)
      (resolved_view key conn n (run cs new_manager))

rejected_view :
    (key : String) (n : ℕ) (m : Manager)
    → let after = rejected_manager key n m in
      (after.events
        ≡ (if is_connected (Dict.get key m.connections)
            then m.events
            else m.events ++ (state_changed key down ∷ []))
          ++ (rejected n key ∷ []))
      × (Dict.get key after.pending_connects ≡ none)
      × (NumberMap.get n after.timers ≡ none)
      × (after.connections ≡ m.connections)
unfolding rejected_manager emit
rejected_view key n m =
    let gone : Dict.get key (Dict.delete key m.pending_connects) ≡ none =
      rw (get-delete key key m.pending_connects, eq_refl key) refl in
    let disarmed : NumberMap.get n (NumberMap.delete n m.timers) ≡ none =
      NumberLaws.get-delete n n m.timers ∙ ground arith in
    elim (Bool-cases (is_connected (Dict.get key m.connections))) [
      | inl up ↦ rw (up) (refl, gone, disarmed, refl)
      | inr lost ↦ rw (lost) (refl, gone, disarmed, refl)
    ]

-- After any calls, the timer of a promise that a contact still waits for rejects the promise and
-- settles no other, reports the contact as down unless it is connected, and leaves no promise of the
-- contact pending and every connection as it is.
pub times_out-rejects :
    (cs : List Call) (key : String) (n : ℕ)
    → Dict.get key (run cs new_manager).pending_connects ≡ some n
    → let before = run cs new_manager in
      let after = call (times_out n) before in
      (after.events
        ≡ (if is_connected (Dict.get key before.connections)
            then before.events
            else before.events ++ (state_changed key down ∷ []))
          ++ (rejected n key ∷ []))
      × (Dict.get key after.pending_connects ≡ none)
      × (NumberMap.get n after.timers ≡ none)
      × (after.connections ≡ before.connections)
unfolding call
times_out-rejects cs key n h =
    let s = run-IsSound cs in
    rw (timed_out-armed key n (run cs new_manager) s (s.timed key n h))
      (rejected_view key n (run cs new_manager))
