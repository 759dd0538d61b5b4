-- ===== src/ConnectionManager/Settling.antt =====
-- The connection that resolves who waits for it, the timer that rejects, and every run of calls.
use orpal.Base.{
  ℕ, String, List, [], ◌∷◌, ◌++◌, Option, none, some, ◌≡◌, refl, ap, if◌then◌else◌, inl, inr,
  Bool-cases, Option-cases, arith, eq_iff, eq_refl,
}
use orpal.Dict
use orpal.Dict.Laws.{get-set, get-delete}
use orpal.NumberMap
use orpal.ConnectionManager.{
  Manager, waiters_of, resolve_connect_waiters, call_waiters, waiter_called, timed_out,
  remove_connect_waiter, discard, emit, is_connected, ContactConn, state_changed, down, rejected,
  resolved,
}
use orpal.ConnectionManager.Promises.{
  Keeps-refl, IsSound, settlements-append, Settles, Settles-IsSound, Keeps, Keeps-IsSound,
}

waiters_none : (w : Option (List ℕ)) (n : ℕ) → waiters_of w ≡ n ∷ [] → w ≡ some (n ∷ [])
waiters_none none n h = cc
waiters_none (some set) n h = ap some h

-- The contact's waiters, once they are called.
unfoldable pub resolved_manager : String → ContactConn → ℕ → Manager → Manager
resolved_manager key conn n m = record m {
  connect_waiters = Dict.delete key m.connect_waiters;
  pending_connects = Dict.delete key m.pending_connects;
  timers = NumberMap.delete n m.timers;
  events = m.events ++ (resolved n conn ∷ []);
}

waiter_called-alone :
    (key : String) (conn : ContactConn) (n : ℕ) (m : Manager)
    → waiter_called key conn n (record m { connect_waiters = Dict.delete key m.connect_waiters })
      ≡ resolved_manager key conn n m
unfolding waiter_called resolved_manager
waiter_called-alone key conn n m =
    rw (remove_connect_waiter, get-delete key key m.connect_waiters, eq_refl key) refl

pub resolve-pending :
    (key : String) (conn : ContactConn) (n : ℕ) (m : Manager)
    → IsSound m
    → Dict.get key m.pending_connects ≡ some n
    → resolve_connect_waiters key conn m ≡ resolved_manager key conn n m
unfolding resolve_connect_waiters call_waiters
resolve-pending key conn n m s h =
    let alone = waiters_none (Dict.get key m.connect_waiters) n (rw h at (s.linked key)) in
    rw (resolve_connect_waiters, alone) (waiter_called-alone key conn n m)

resolved-Settles :
    (key : String) (conn : ContactConn) (n : ℕ) (m : Manager)
    → Settles key n m (resolved_manager key conn n m)
unfolding resolved_manager
resolved-Settles key conn n m = record {
  own = rw (get-delete key key m.connect_waiters, eq_refl key) refl;
  others = λ k apart. rw (get-delete key k m.connect_waiters, apart) refl;
  pending = refl;
  timers = refl;
  next = refl;
  once = λ j. settlements-append j m.events (resolved n conn);
}

resolve-idle :
    (key : String) (conn : ContactConn) (m : Manager)
    → IsSound m
    → Dict.get key m.pending_connects ≡ none
    → Keeps m (resolve_connect_waiters key conn m)
unfolding resolve_connect_waiters
resolve-idle key conn m s h = elim (Option-cases (Dict.get key m.connect_waiters)) [
  | inl absent ↦ rw (absent, resolve_connect_waiters) (Keeps-refl m)
  | inr (set, found) ↦
      let empty : set ≡ [] = rw (h, found) at (s.linked key) in
      rw (found, empty, resolve_connect_waiters, call_waiters)
        (record {
          waiters =
              λ k. ground (arith, get-delete key k m.connect_waiters, eq_iff key k, found, empty);
          pending = refl;
          timers = refl;
          next = refl;
          settlements_kept = λ n. refl;
        })
]

pub resolve-IsSound :
    (key : String) (conn : ContactConn) (m : Manager)
    → IsSound m
    → IsSound (resolve_connect_waiters key conn m)
resolve-IsSound key conn m s = elim (Option-cases (Dict.get key m.pending_connects)) [
  | inl idle ↦ Keeps-IsSound (resolve-idle key conn m s idle) s
  | inr (n, waiting) ↦
      rw (resolve-pending key conn n m s waiting)
        (Settles-IsSound key n m _ (resolved-Settles key conn n m) s (s.timed key n waiting))
]

-- The promise's contact, once its timer has fired.
unfoldable pub rejected_manager : String → ℕ → Manager → Manager
unfolding emit
rejected_manager key n m =
    let dropped = record m {
      timers = NumberMap.delete n m.timers;
      connect_waiters = Dict.set key [] m.connect_waiters;
      pending_connects = Dict.delete key m.pending_connects;
    } in
    emit (rejected n key) (
      if is_connected (Dict.get key m.connections)
      then dropped
      else emit (state_changed key down) dropped)

remove-alone :
    (key : String) (n : ℕ) (m : Manager)
    → Dict.get key m.connect_waiters ≡ some (n ∷ [])
    → remove_connect_waiter key n m
      ≡ record m { connect_waiters = Dict.set key [] m.connect_waiters }
unfolding remove_connect_waiter discard
remove-alone key n m h = rw (remove_connect_waiter, h, discard) (ground arith)

pub timed_out-armed :
    (key : String) (n : ℕ) (m : Manager)
    → IsSound m
    → NumberMap.get n m.timers ≡ some key
    → timed_out n m ≡ rejected_manager key n m
unfolding timed_out rejected_manager
timed_out-armed key n m s h =
    let alone =
      waiters_none (Dict.get key m.connect_waiters) n (rw (s.pended n key h) at (s.linked key)) in
    rw (timed_out, h, remove-alone key n (record m { timers = NumberMap.delete n m.timers }) alone)
      refl

rejected-Settles : (key : String) (n : ℕ) (m : Manager) → Settles key n m (rejected_manager key n m)
unfolding rejected_manager
rejected-Settles key n m = elim (Bool-cases (is_connected (Dict.get key m.connections))) [
  | inl up ↦ rw (up) (record {
    own = rw (get-set key key [] m.connect_waiters, eq_refl key) refl;
    others = λ k apart. rw (get-set key k [] m.connect_waiters, apart) refl;
    pending = refl;
    timers = refl;
    next = refl;
    once = λ j. settlements-append j m.events (rejected n key);
  })
  | inr lost ↦ rw (lost) (record {
    own = rw (get-set key key [] m.connect_waiters, eq_refl key) refl;
    others = λ k apart. rw (get-set key k [] m.connect_waiters, apart) refl;
    pending = refl;
    timers = refl;
    next = refl;
    once = λ j. omega (arith, settlements-append);
  })
]

pub timed_out-IsSound : (n : ℕ) (m : Manager) → IsSound m → IsSound (timed_out n m)
unfolding timed_out
timed_out-IsSound n m s = elim (Option-cases (NumberMap.get n m.timers)) [
  | inl disarmed ↦ rw (disarmed, timed_out) s
  | inr (key, armed) ↦
      rw (timed_out-armed key n m s armed)
        (Settles-IsSound key n m _ (rejected-Settles key n m) s armed)
]
