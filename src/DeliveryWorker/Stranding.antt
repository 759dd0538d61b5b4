-- ===== src/DeliveryWorker/Stranding.antt =====
-- The invariant of the worker over every schedule: the rows stand under their ids, what is marked in
-- flight is being attempted, and while the worker runs every queued message is covered.
use orpal.Dict.Laws.{has-delete}
use orpal.Base.Tasks.{Any-pick, pick}
use orpal.PendingQueue.Store.{Reachable-IsKeyed, Reachable, IsKeyed}
use orpal.DeliveryWorker.Extends.{Extends-run_attempt, Extends}
use orpal.DeliveryWorker.Steps.{
  answer-Covers, answer-has, resume-Flies, resume-rows, FliesHeld, Flies-Extends, answer-IsKeyed,
}
use orpal.Base.{
  ◌==◌, ap, if◌then◌else◌, ℕ, String, Bool, true, false, List, [], ◌∷◌, ◌≡◌, sym, subst, ◌∙◌, inl,
  inr, none, some, arith, eq_iff, Any, Any-append_left, Any-append_right, Option-cases,
  String-cases,
}
use orpal.Base.KeySet.{discard, contains, contains-discard}
use orpal.Dict
use orpal.DeliveryWorker.{
  flushes_all, stops, starts, recording, attempting, BackoffConfig, Rows, fresh, fires, settles,
  resumes, answers, acknowledge, acknowledges, flush_all, flush_recipient, run_attempt, flushes,
  cancel_timer, enqueue, start, Random, stop, fire, enqueues, Worker, Task, starting, spawn, answer,
  resume, settle, Move, step, run,
}
use orpal.DeliveryWorker.Coverage.{
  Covered-replace, Covered-run_attempt_self, Held, Covered-Extends, Covers, Covered, IsAttempt,
  Flies, resume-Covered,
}

pub record Inv (w : Worker) : Type 0 where
  pub keyed : IsKeyed w.rows
  pub flights : (id : String) → Flies id w
  pub covered : w.running ≡ true → (id : String) → Dict.has id w.rows ≡ true → Covered id w

Inv-if : (b : Bool) (u v : Worker) → Inv u → Inv v → Inv (if b then u else v)
Inv-if true u v a b = a
Inv-if false u v a b = b

start-Inv : (w : Worker) → Inv w → Inv (start w)
unfolding start spawn
start-Inv w v = Inv-if w.running w _ v (record {
  keyed = v.keyed;
  flights = λ id c. Any-append_left (IsAttempt id) w.tasks (starting none ∷ []) (v.flights id c);
  covered = λ on id h. inr (Any-append_right (Covers id) w.tasks (starting none ∷ []) (inl tt));
})

stop-Inv : (w : Worker) → Inv w → Inv (stop w)
unfolding stop
stop-Inv w v = record { keyed = v.keyed; flights = v.flights; covered = λ on. cc }

-- A timer that fires hands its cover to the method that it calls.
fire-Inv : (id : String) (w : Worker) → Inv w → Inv (fire id w)
unfolding fire
fire-Inv id w v =
    Inv-if (Dict.has id w.timers) _ w
      (record {
        keyed = subst IsKeyed (sym e.rows) v.keyed;
        flights = λ k. Flies-Extends k e (λ c. inr (v.flights k c));
        covered = λ on k h.
            let on' = sym e.running ∙ on in
            fired k on' (v.covered on' k (ap (Dict.has k) (sym e.rows) ∙ h));
      })
      v
  where
    u : Worker
    u = cancel_timer id w

    e : Extends u (run_attempt id u)
    e = Extends-run_attempt id u

    uncancelled : (k : String) → (id == k) ≡ false → Covered k w → Covered k u
    uncancelled k apart (inl h) =
        inl (unfold cancel_timer in (has-delete id k w.timers ∙ rw apart h))
    uncancelled k apart (inr h) = inr h

    fired : (k : String) → w.running ≡ true → Covered k w → Covered k (run_attempt id u)
    fired k on c = elim (String-cases id k) [
      | inl same ↦
          subst (λ j. Covered j (run_attempt id u)) same
            (Covered-run_attempt_self id u on (v.flights id))
      | inr apart ↦ Covered-Extends k e (uncancelled k apart c)
    ]

-- The invariant of a worker from whose tasks `t` has been picked.
record Picked (t : Task) (w : Worker) : Type 0 where
  keyed : IsKeyed w.rows
  flights : (id : String) → FliesHeld id t w
  covered : w.running ≡ true → (id : String) → Dict.has id w.rows ≡ true → Held id t w

resume-Inv :
    (now : ℕ) (random : Random) (t : Task) (w : Worker) → Picked t w → Inv (resume now random t w)
resume-Inv now random t w p = record {
  keyed = subst IsKeyed (sym (resume-rows now random t w).0) p.keyed;
  flights = λ id. resume-Flies now random id t w (p.flights id);
  covered = λ on id h.
      let on' = sym (resume-rows now random t w).1 ∙ on in
      let h' = ap (Dict.has id) (sym (resume-rows now random t w).0) ∙ h in
      resume-Covered now random id t w on' (p.flights id) (p.covered on' id h');
}

respawn-Inv : (t : Task) (w : Worker) → Picked t w → Inv (spawn t w)
unfolding spawn
respawn-Inv t w p = record {
  keyed = p.keyed;
  flights = λ id c. elim (p.flights id c) [
    | inl a ↦ Any-append_right (IsAttempt id) w.tasks (t ∷ []) (inl a)
    | inr a ↦ Any-append_left (IsAttempt id) w.tasks (t ∷ []) a
  ];
  covered = λ on id h. Covered-replace id t t w (λ c. c) (p.covered on id h);
}

spawn-Inv : (t : Task) (w : Worker) → Inv w → Inv (spawn t w)
spawn-Inv t w v = respawn-Inv t w (record {
  keyed = v.keyed;
  flights = λ id c. inr (v.flights id c);
  covered = λ on id h. inr (v.covered on id h);
})

-- Where the attempt of `k` ends, another one of `k` may still be under way: the mark goes anyway.
settle-Inv : (sent : Bool) (t : Task) (w : Worker) → Picked t w → Inv (settle sent t w)
unfolding settle spawn
settle-Inv sent (attempting k m) w p = record {
  keyed = p.keyed;
  flights =
      λ id c. Any-append_left (IsAttempt id) w.tasks (recording k m sent none ∷ []) (settled id c);
  covered = λ on id h.
      Covered-replace id (attempting k m) (recording k m sent none) w (λ c. c) (p.covered on id h);
}
  where
    settled : (id : String) → contains id (discard k w.inflight) ≡ true → Any (IsAttempt id) w.tasks
    settled id c = ground (arith, contains-discard k id w.inflight, eq_iff k id, p.flights id)
settle-Inv sent t w p = respawn-Inv t w p

module _ (w : Worker) (t : Task) (us : List Task) (i : ℕ) (at : pick i w.tasks ≡ some (t, us)) where
  picked-Covered : (id : String) → Covered id w → Held id t (record w { tasks = us })
  picked-Covered id (inl h) = inr (inl h)
  picked-Covered id (inr h) = elim (Any-pick (Covers id) i w.tasks t us at h) [
    | inl c ↦ inl c
    | inr c ↦ inr (inr c)
  ]

  Inv-Picked : Inv w → Picked t (record w { tasks = us })
  Inv-Picked v = record {
    keyed = v.keyed;
    flights = λ id c. Any-pick (IsAttempt id) i w.tasks t us at (v.flights id c);
    covered = λ on id h. picked-Covered id (v.covered on id h);
  }

answer-IsAttempt :
    (id : String) (t : Task) (rows : Rows) → IsAttempt id t → IsAttempt id (answer t rows).1
unfolding answer
answer-IsAttempt id (attempting k m) rows h = h
answer-IsAttempt id _ rows h = elim h [ ]

answer-Inv :
    (t : Task) (w : Worker)
    → Picked t w
    → Inv (record w { rows = (answer t w.rows).0; tasks = (answer t w.rows).1 ∷ w.tasks })
answer-Inv t w p = record {
  keyed = answer-IsKeyed t w.rows p.keyed;
  flights = λ id c. elim (p.flights id c) [
    | inl a ↦ inl (answer-IsAttempt id t w.rows a)
    | inr a ↦ inr a
  ];
  covered = λ on id h. elim (answer-has id w.rows p.keyed t h) [
    | inl was ↦ elim (p.covered on id was) [
      | inl c ↦ inr (inl (answer-Covers id w.rows p.keyed t h c))
      | inr (inl k) ↦ inl k
      | inr (inr c) ↦ inr (inr c)
    ]
    | inr c ↦ inr (inl c)
  ];
}

step-Inv : (m : Move) (w : Worker) → Inv w → Inv (step m w)
unfolding step
step-Inv starts w v = start-Inv w v
step-Inv stops w v = stop-Inv w v
step-Inv (enqueues msg) w v = unfold enqueue in spawn-Inv _ w v
step-Inv (flushes id) w v = unfold flush_recipient in Inv-if w.running _ w (spawn-Inv _ w v) v
step-Inv flushes_all w v = unfold flush_all in Inv-if w.running _ w (spawn-Inv _ w v) v
step-Inv (acknowledges id) w v = unfold acknowledge in spawn-Inv _ w v
step-Inv (answers i) w v = elim (Option-cases (pick i w.tasks)) [
  | inl out ↦ rw (out, step) v
  | inr ((t, us), at) ↦ rw (at, step) (answer-Inv t _ (Inv-Picked w t us i at v))
]
step-Inv (resumes i now random) w v = elim (Option-cases (pick i w.tasks)) [
  | inl out ↦ rw (out, step) v
  | inr ((t, us), at) ↦ rw (at, step) (resume-Inv now random t _ (Inv-Picked w t us i at v))
]
step-Inv (settles i sent) w v = elim (Option-cases (pick i w.tasks)) [
  | inl out ↦ rw (out, step) v
  | inr ((t, us), at) ↦ rw (at, step) (settle-Inv sent t _ (Inv-Picked w t us i at v))
]
step-Inv (fires id) w v = fire-Inv id w v

run-Inv : (moves : List Move) (w : Worker) → Inv w → Inv (run moves w)
unfolding run
run-Inv [] w v = v
run-Inv (m ∷ moves) w v = run-Inv moves (step m w) (step-Inv m w v)

fresh-Inv : (config : BackoffConfig) (rows : Rows) → Reachable rows → Inv (fresh config rows)
unfolding fresh contains
fresh-Inv config rows r = record {
  keyed = Reachable-IsKeyed r;
  flights = λ id. cc;
  covered = λ on. cc;
}

-- No schedule strands a queued message: whenever the worker runs, each queued message has an armed
-- timer, or a method is under way that will attempt it, arm its timer or remove it after its
-- acknowledgement. The store may hold rows of an earlier session.
pub run-Covered :
    (config : BackoffConfig) (rows : Rows) (moves : List Move) (id : String)
    → Reachable rows
    → (run moves (fresh config rows)).running ≡ true
    → Dict.has id (run moves (fresh config rows)).rows ≡ true
    → Covered id (run moves (fresh config rows))
run-Covered config rows moves id r on h =
    (run-Inv moves (fresh config rows) (fresh-Inv config rows r)).covered on id h
