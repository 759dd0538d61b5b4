-- ===== src/ConnectionManager/Promises.antt =====
-- The promises of the manager: which contact waits for which promise, and that each is settled once.
use orpal.Base.{
  ℕ, ◌+◌, ltb, eqb, String, false, List, [], ◌∷◌, ◌++◌, Option, none, some, ◌≡◌, refl, ap, ◌∙◌,
  ◌==◌, if◌then◌else◌, inl, inr, Bool-cases, arith, eq_iff, eq_refl, eq_of_test,
}
use orpal.Dict
use orpal.Dict.Laws.{get-delete}
use orpal.NumberMap
use orpal.NumberMap.Laws as NumberLaws
use orpal.ConnectionManager.{
  Manager, Event, state_changed, intents_sent, endpoint_closed, resolved, rejected, waiters_of,
}

-- How often an event settles a promise.
abbrev pub settles : ℕ → Event → ℕ
settles n (resolved p c) = if eqb p n then 1 else 0
settles n (rejected p c) = if eqb p n then 1 else 0
settles n (state_changed k s) = 0
settles n (intents_sent k) = 0
settles n (endpoint_closed e) = 0

abbrev pub settlements : ℕ → List Event → ℕ
settlements n [] = 0
settlements n (e ∷ es) = settles n e + settlements n es

pub settlements-append :
    (n : ℕ) (es : List Event) (e : Event)
    → settlements n (es ++ (e ∷ [])) ≡ settlements n es + settles n e
settlements-append n [] e = omega arith
settlements-append n (d ∷ es) e = omega (arith, settlements-append n es e)

abbrev pub open_promises : Option String → ℕ
open_promises none = 0
open_promises (some k) = 1

-- The waiters of a contact are those of its pending promise.
abbrev pub Linked : Option ℕ → List ℕ → Type 0
Linked none set = set ≡ []
Linked (some n) set = set ≡ n ∷ []

-- A promise has its timer exactly as long as it is the pending one of its contact, and each promise
-- that was handed out either has its timer or has been settled once.
pub record IsSound (m : Manager) : Type 0 where
  pub linked :
      (k : String)
      → Linked (Dict.get k m.pending_connects) (waiters_of (Dict.get k m.connect_waiters))
  pub timed :
      (k : String) (n : ℕ)
      → Dict.get k m.pending_connects ≡ some n
      → NumberMap.get n m.timers ≡ some k
  pub pended :
      (n : ℕ) (k : String)
      → NumberMap.get n m.timers ≡ some k
      → Dict.get k m.pending_connects ≡ some n
  pub settled :
      (n : ℕ)
      → settlements n m.events + open_promises (NumberMap.get n m.timers)
        ≡ (if ltb n m.next_promise then 1 else 0)

-- What a call leaves alone that settles no promise and starts none.
pub record Keeps (m m' : Manager) : Type 0 where
  pub waiters :
      (k : String)
      → waiters_of (Dict.get k m'.connect_waiters) ≡ waiters_of (Dict.get k m.connect_waiters)
  pub pending : m'.pending_connects ≡ m.pending_connects
  pub timers : m'.timers ≡ m.timers
  pub next : m'.next_promise ≡ m.next_promise
  pub settlements_kept : (n : ℕ) → settlements n m'.events ≡ settlements n m.events

pub Keeps-IsSound : {m m' : Manager} → Keeps m m' → IsSound m → IsSound m'
Keeps-IsSound {m} {m'} k s = record {
  linked = λ j. rw (k.pending, k.waiters j) (s.linked j);
  timed = λ j n. rw (k.pending, k.timers) (s.timed j n);
  pended = λ n j. rw (k.pending, k.timers) (s.pended n j);
  settled = λ n. rw (k.settlements_kept n, k.timers, k.next) (s.settled n);
}

pub Keeps-refl : (m : Manager) → Keeps m m
Keeps-refl m = record {
  waiters = λ k. refl;
  pending = refl;
  timers = refl;
  next = refl;
  settlements_kept = λ n. refl;
}

pub Keeps-trans : {a b c : Manager} → Keeps a b → Keeps b c → Keeps a c
Keeps-trans p q = record {
  waiters = λ k. q.waiters k ∙ p.waiters k;
  pending = q.pending ∙ p.pending;
  timers = q.timers ∙ p.timers;
  next = q.next ∙ p.next;
  settlements_kept = λ n. q.settlements_kept n ∙ p.settlements_kept n;
}

-- What a call does that settles the pending promise of a contact.
pub record Settles (key : String) (n : ℕ) (m m' : Manager) : Type 0 where
  pub own : waiters_of (Dict.get key m'.connect_waiters) ≡ []
  pub others :
      (k : String)
      → (key == k) ≡ false
      → Dict.get k m'.connect_waiters ≡ Dict.get k m.connect_waiters
  pub pending : m'.pending_connects ≡ Dict.delete key m.pending_connects
  pub timers : m'.timers ≡ NumberMap.delete n m.timers
  pub next : m'.next_promise ≡ m.next_promise
  pub once : (j : ℕ) → settlements j m'.events ≡ settlements j m.events + (if eqb n j then 1 else 0)

module _ (key : String) (n : ℕ) (m m' : Manager) (t : Settles key n m m') (s : IsSound m)
    (now : NumberMap.get n m.timers ≡ some key) where
  Settles-Linked :
      (k : String)
      → Linked (Dict.get k m'.pending_connects) (waiters_of (Dict.get k m'.connect_waiters))
  Settles-Linked k = elim (Bool-cases (key == k)) [
    | inl same ↦
        rw (← eq_of_test key k same, t.pending, get-delete key key m.pending_connects, eq_refl key)
          t.own
    | inr apart ↦
        rw (t.pending, t.others k apart, get-delete key k m.pending_connects, apart) (s.linked k)
  ]

  pending_after :
      (k : String)
      → Dict.get k m'.pending_connects ≡ (if key == k then none else Dict.get k m.pending_connects)
  pending_after k = ap (Dict.get k) t.pending ∙ get-delete key k m.pending_connects

  timers_after :
      (i : ℕ) → NumberMap.get i m'.timers ≡ (if eqb n i then none else NumberMap.get i m.timers)
  timers_after i = ap (NumberMap.get i) t.timers ∙ NumberLaws.get-delete n i m.timers

  Settles-timed :
      (k : String) (i : ℕ)
      → Dict.get k m'.pending_connects ≡ some i
      → NumberMap.get i m'.timers ≡ some k
  Settles-timed k i h = ground (arith, pending_after k, timers_after i, s.timed k i, eq_iff key k)

  Settles-pended :
      (i : ℕ) (k : String)
      → NumberMap.get i m'.timers ≡ some k
      → Dict.get k m'.pending_connects ≡ some i
  Settles-pended i k h =
      ground (arith, pending_after k, timers_after i, s.pended i k, s.pended n key, eq_iff key k)

  Settles-settled :
      (i : ℕ)
      → settlements i m'.events + open_promises (NumberMap.get i m'.timers)
        ≡ (if ltb i m'.next_promise then 1 else 0)
  Settles-settled i = ground (arith, t.once i, t.next, timers_after i, s.settled i, now)

  pub Settles-IsSound : IsSound m'
  Settles-IsSound = record {
    linked = Settles-Linked;
    timed = Settles-timed;
    pended = Settles-pended;
    settled = Settles-settled;
  }
