-- ===== src/DeliveryWorker/Acknowledgement.antt =====
-- Only an acknowledgement takes a message out of the queue, and no attempt puts one back.
use orpal.DeliveryWorker.Steps.{resume-rows}
use orpal.Base.Tasks.{All-pick, pick}
use orpal.DeliveryWorker.Calls.{step-All, Allowed}
use orpal.DeliveryWorker.Extends.{Extends-run_attempt, IsPlain}
use orpal.Base.{
  sym, subst, Bool-cases, if◌then◌else◌, ℕ, ◌∙◌, String, Bool, true, false, List, [], ◌∷◌, ◌≡◌, ◌≢◌,
  refl, none, some, All, Option-cases, inl, inr, arith, eq_iff,
}
use orpal.Dict
use orpal.Dict.Laws.{has-set, has-delete}
use orpal.PendingQueue
use orpal.PendingQueue.{PendingMessage, Rows}
use orpal.PendingQueue.Store.{has-update}
use orpal.DeliveryWorker.{
  flushes_all, stops, cancel_timer, fires, settles, resumes, answers, acknowledges, flushes,
  enqueues, attempting, settle, starts, spawn, fire, emitting, acknowledge, updating, recording,
  flush_all, fetching, flush_recipient, enqueue, flushing_all, flushing, removing, stop, answer,
  enqueuing, acknowledging, start, Worker, Task, Move, step, run, starting,
}

-- No acknowledgement of the message is under way.
abbrev pub IsUnacknowledged : String → Task → Type 0
IsUnacknowledged id (acknowledging k _) = k ≢ id
IsUnacknowledged id (removing k _ _) = k ≢ id
IsUnacknowledged id _ = Unit

-- The message is not about to be stored.
abbrev pub IsNotEnqueued : String → Task → Type 0
IsNotEnqueued id (enqueuing m false) = m.message_id ≢ id
IsNotEnqueued id _ = Unit

module _ (id : String) where
  plain-IsUnacknowledged : (t : Task) → IsPlain t → IsUnacknowledged id t
  plain-IsUnacknowledged (acknowledging _ _) p = absurd p
  plain-IsUnacknowledged (removing _ _ _) p = absurd p
  plain-IsUnacknowledged _ p = tt

  plain-IsNotEnqueued : (t : Task) → IsPlain t → IsNotEnqueued id t
  plain-IsNotEnqueued (enqueuing _ _) p = absurd p
  plain-IsNotEnqueued _ p = tt

  answered-IsUnacknowledged :
      (t : Task) (rows : Rows) → IsUnacknowledged id t → IsUnacknowledged id (answer t rows).1
  unfolding answer
  answered-IsUnacknowledged (starting none) rows p = p
  answered-IsUnacknowledged (enqueuing m false) rows p = p
  answered-IsUnacknowledged (flushing k none) rows p = p
  answered-IsUnacknowledged (flushing_all none) rows p = p
  answered-IsUnacknowledged (acknowledging k none) rows p = p
  answered-IsUnacknowledged (removing k m false) rows p = p
  answered-IsUnacknowledged (fetching k none) rows p = p
  answered-IsUnacknowledged (recording k m sent none) rows p = p
  answered-IsUnacknowledged (updating k m sent count now false) rows p = p
  answered-IsUnacknowledged (emitting next none) rows p = p
  answered-IsUnacknowledged t rows p = p

  answered-IsNotEnqueued :
      (t : Task) (rows : Rows) → IsNotEnqueued id t → IsNotEnqueued id (answer t rows).1
  unfolding answer
  answered-IsNotEnqueued (starting none) rows p = p
  answered-IsNotEnqueued (enqueuing m false) rows p = tt
  answered-IsNotEnqueued (flushing k none) rows p = p
  answered-IsNotEnqueued (flushing_all none) rows p = p
  answered-IsNotEnqueued (acknowledging k none) rows p = p
  answered-IsNotEnqueued (removing k m false) rows p = p
  answered-IsNotEnqueued (fetching k none) rows p = p
  answered-IsNotEnqueued (recording k m sent none) rows p = p
  answered-IsNotEnqueued (updating k m sent count now false) rows p = p
  answered-IsNotEnqueued (emitting next none) rows p = p
  answered-IsNotEnqueued t rows p = p

  -- The store forgets a message only in the second half of its acknowledgement.
  answer-keeps :
      (t : Task) (rows : Rows)
      → IsUnacknowledged id t
      → Dict.has id rows ≡ true
      → Dict.has id (answer t rows).0 ≡ true
  unfolding answer PendingQueue.enqueue PendingQueue.remove
  answer-keeps (starting none) rows p h = h
  answer-keeps (enqueuing m false) rows p h = ground (arith, has-set m.message_id id m rows)
  answer-keeps (flushing k none) rows p h = h
  answer-keeps (flushing_all none) rows p h = h
  answer-keeps (acknowledging k none) rows p h = h
  answer-keeps (removing k m false) rows p h = ground (arith, has-delete k id rows, eq_iff k id)
  answer-keeps (fetching k none) rows p h = h
  answer-keeps (recording k m sent none) rows p h = h
  answer-keeps (updating k m sent count now false) rows p h = has-update k _ rows id ∙ h
  answer-keeps (emitting next none) rows p h = h
  answer-keeps t rows p h = h

  -- The store takes a message in only where it is enqueued: a patch of a row that is gone is lost.
  answer-forgets :
      (t : Task) (rows : Rows)
      → IsNotEnqueued id t
      → Dict.has id rows ≡ false
      → Dict.has id (answer t rows).0 ≡ false
  unfolding answer PendingQueue.enqueue PendingQueue.remove
  answer-forgets (starting none) rows p h = h
  answer-forgets (enqueuing m false) rows p h =
      ground (arith, has-set m.message_id id m rows, eq_iff m.message_id id)
  answer-forgets (flushing k none) rows p h = h
  answer-forgets (flushing_all none) rows p h = h
  answer-forgets (acknowledging k none) rows p h = h
  answer-forgets (removing k m false) rows p h = ground (arith, has-delete k id rows)
  answer-forgets (fetching k none) rows p h = h
  answer-forgets (recording k m sent none) rows p h = h
  answer-forgets (updating k m sent count now false) rows p h = has-update k _ rows id ∙ h
  answer-forgets (emitting next none) rows p h = h
  answer-forgets t rows p h = h

settle-rows : (sent : Bool) (t : Task) (w : Worker) → (settle sent t w).rows ≡ w.rows
unfolding settle spawn
settle-rows sent (attempting k m) w = refl
settle-rows sent t w = refl

rows-if : (b : Bool) (u v : Worker) → u.rows ≡ v.rows → (if b then u else v).rows ≡ v.rows
rows-if true u v e = e
rows-if false u v e = refl

-- A move that is no answer leaves the rows as they are.
step-rows :
    (P : Rows → Type 0) (m : Move) (w : Worker)
    → P w.rows
    → ((t : Task) (us : List Task) (i : ℕ) → pick i w.tasks ≡ some (t, us) → P (answer t w.rows).0)
    → P (step m w).rows
unfolding step start stop enqueue flush_recipient flush_all acknowledge fire spawn
step-rows P starts w h f = elim (Bool-cases w.running) [ inl on ↦ simp on h | inr off ↦ simp off h ]
step-rows P stops w h f = h
step-rows P (enqueues m) w h f = h
step-rows P (flushes k) w h f = subst P (sym (rows-if w.running _ w refl)) h
step-rows P flushes_all w h f = subst P (sym (rows-if w.running _ w refl)) h
step-rows P (acknowledges k) w h f = h
step-rows P (answers i) w h f = elim (Option-cases (pick i w.tasks)) [
  | inl out ↦ rw (out, step) h
  | inr ((t, us), at) ↦ rw (at, step) (f t us i at)
]
step-rows P (resumes i now random) w h f = elim (Option-cases (pick i w.tasks)) [
  | inl out ↦ rw (out, step) h
  | inr ((t, us), at) ↦
      rw (at, step) (subst P (sym (resume-rows now random t (record w { tasks = us })).0) h)
]
step-rows P (settles i sent) w h f = elim (Option-cases (pick i w.tasks)) [
  | inl out ↦ rw (out, step) h
  | inr ((t, us), at) ↦
      rw (at, step) (subst P (sym (settle-rows sent t (record w { tasks = us }))) h)
]
step-rows P (fires k) w h f =
    subst P
      (sym (rows-if (Dict.has k w.timers) _ w (Extends-run_attempt k (cancel_timer k w)).rows)) h

abbrev pub NeverAcknowledges : String → List Move → Type 0
NeverAcknowledges id moves = All (Allowed (IsUnacknowledged id)) moves

abbrev pub NeverEnqueues : String → List Move → Type 0
NeverEnqueues id moves = All (Allowed (IsNotEnqueued id)) moves

-- A queued message stays queued over every schedule, whatever the attempts come to, that does not
-- acknowledge the message and starts with no acknowledgement of it under way.
pub run-keeps_queued :
    (id : String) (moves : List Move) (w : Worker)
    → NeverAcknowledges id moves
    → All (IsUnacknowledged id) w.tasks
    → Dict.has id w.rows ≡ true
    → Dict.has id (run moves w).rows ≡ true
unfolding run
run-keeps_queued id [] w never quiet h = h
run-keeps_queued id (m ∷ moves) w (allowed, never) quiet h =
    run-keeps_queued id moves (step m w) never
      (step-All P (plain-IsUnacknowledged id) (answered-IsUnacknowledged id) (λ k x p. p) m w
        allowed quiet)
      (step-rows (λ rows. Dict.has id rows ≡ true) m w h
        (λ t us i at. answer-keeps id t w.rows (All-pick P i w.tasks t us at quiet).0 h))
  where
    P : Task → Type 0
    P = IsUnacknowledged id

-- A message that is not queued, such as one that has been acknowledged, comes back over no schedule
-- that does not enqueue it again: an attempt that was in flight does not resurrect it.
pub run-keeps_absent :
    (id : String) (moves : List Move) (w : Worker)
    → NeverEnqueues id moves
    → All (IsNotEnqueued id) w.tasks
    → Dict.has id w.rows ≡ false
    → Dict.has id (run moves w).rows ≡ false
unfolding run
run-keeps_absent id [] w never quiet h = h
run-keeps_absent id (m ∷ moves) w (allowed, never) quiet h =
    run-keeps_absent id moves (step m w) never
      (step-All P (plain-IsNotEnqueued id) (answered-IsNotEnqueued id) (λ k x p. tt) m w allowed
        quiet)
      (step-rows (λ rows. Dict.has id rows ≡ false) m w h
        (λ t us i at. answer-forgets id t w.rows (All-pick P i w.tasks t us at quiet).0 h))
  where
    P : Task → Type 0
    P = IsNotEnqueued id
