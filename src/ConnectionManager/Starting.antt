-- ===== src/ConnectionManager/Starting.antt =====
-- A connection that is asked for: the promise of the one who asks.
use orpal.Base.{
  ℕ, ◌+◌, ltb, eqb, String, [], ◌∷◌, none, some, ◌≡◌, refl, ◌==◌, if◌then◌else◌, inl, inr,
  Bool-cases, Option-cases, arith, eq_iff,
}
use orpal.Dict
use orpal.Dict.Laws.{get-set}
use orpal.NumberMap
use orpal.NumberMap.Laws as NumberLaws
use orpal.ConnectionManager.{
  Manager, waiters_of, ensure_connection, join_or_begin, begin_connecting, is_connected,
}
use orpal.ConnectionManager.Promises.{
  IsSound, Linked, settlements, settlements-append, open_promises,
}

module _ (key : String) (m : Manager) (s : IsSound m)
    (idle : Dict.get key m.pending_connects ≡ none) where
  none_waits : waiters_of (Dict.get key m.connect_waiters) ≡ []
  none_waits = rw idle at (s.linked key)

  waiters_after :
      (k : String)
      → Dict.get k (begin_connecting key m).connect_waiters
        ≡ (if key == k then some (m.next_promise ∷ []) else Dict.get k m.connect_waiters)
  unfolding begin_connecting NumberMap.add
  waiters_after k = rw (none_waits) (get-set key k _ m.connect_waiters)

  pending_after :
      (k : String)
      → Dict.get k (begin_connecting key m).pending_connects
        ≡ (if key == k then some m.next_promise else Dict.get k m.pending_connects)
  unfolding begin_connecting
  pending_after k = get-set key k m.next_promise m.pending_connects

  timers_after :
      (n : ℕ)
      → NumberMap.get n (begin_connecting key m).timers
        ≡ (if eqb m.next_promise n then some key else NumberMap.get n m.timers)
  unfolding begin_connecting
  timers_after n = NumberLaws.get-set m.next_promise n key m.timers

  fresh_promise : NumberMap.get m.next_promise m.timers ≡ none
  fresh_promise = ground (arith, s.settled m.next_promise)

  settlements_after :
      (n : ℕ) → settlements n (begin_connecting key m).events ≡ settlements n m.events
  unfolding begin_connecting
  settlements_after n = omega (arith, settlements-append)

  next_after : (begin_connecting key m).next_promise ≡ m.next_promise + 1
  unfolding begin_connecting
  next_after = refl

  begin_connecting-Linked :
      (k : String)
      → Linked
          (Dict.get k (begin_connecting key m).pending_connects)
          (waiters_of (Dict.get k (begin_connecting key m).connect_waiters))
  begin_connecting-Linked k = elim (Bool-cases (key == k)) [
    | inl same ↦ rw (pending_after k, waiters_after k, same) refl
    | inr apart ↦ rw (pending_after k, waiters_after k, apart) (s.linked k)
  ]

  timed_after :
      (k : String) (i : ℕ)
      → Dict.get k (begin_connecting key m).pending_connects ≡ some i
      → NumberMap.get i (begin_connecting key m).timers ≡ some k
  timed_after k i h =
      ground (arith, pending_after k, timers_after i, s.timed k i, eq_iff key k, fresh_promise)

  pended_after :
      (i : ℕ) (k : String)
      → NumberMap.get i (begin_connecting key m).timers ≡ some k
      → Dict.get k (begin_connecting key m).pending_connects ≡ some i
  pended_after i k h =
      ground (arith, pending_after k, timers_after i, s.pended i k, eq_iff key k, idle)

  settled_after :
      (i : ℕ)
      → settlements i (begin_connecting key m).events
          + open_promises (NumberMap.get i (begin_connecting key m).timers)
        ≡ (if ltb i (begin_connecting key m).next_promise then 1 else 0)
  settled_after i =
      ground (arith, settlements_after i, next_after, timers_after i, s.settled i, fresh_promise)

  pub begin_connecting-IsSound : IsSound (begin_connecting key m)
  begin_connecting-IsSound = record {
    linked = begin_connecting-Linked;
    timed = timed_after;
    pended = pended_after;
    settled = settled_after;
  }

join_or_begin-IsSound : (key : String) (m : Manager) → IsSound m → IsSound (join_or_begin key m).1
unfolding join_or_begin
join_or_begin-IsSound key m s = elim (Option-cases (Dict.get key m.pending_connects)) [
  | inl idle ↦ rw (join_or_begin, idle) (begin_connecting-IsSound key m s idle)
  | inr (n, inflight) ↦ rw (join_or_begin, inflight) s
]

pub ensure_connection-IsSound :
    (key : String) (m : Manager) → IsSound m → IsSound (ensure_connection key m).1
unfolding ensure_connection
ensure_connection-IsSound key m s = elim (Option-cases (Dict.get key m.connections)) [
  | inl absent ↦ rw (ensure_connection, absent) (join_or_begin-IsSound key m s)
  | inr (conn, found) ↦ elim (Bool-cases (is_connected (some conn))) [
    | inl up ↦ rw (ensure_connection, found, up) s
    | inr lost ↦ rw (ensure_connection, found, lost) (join_or_begin-IsSound key m s)
  ]
]
