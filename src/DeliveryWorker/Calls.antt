-- ===== src/DeliveryWorker/Calls.antt =====
-- A predicate on the tasks that plain tasks meet is kept by every move whose call meets it.
use orpal.Base.Tasks.{All-pick, pick}
use orpal.DeliveryWorker.Extends.{
  Extends-continue, Extends-run_attempt, Extends-attempt_each, Extends-attempt_for,
  Extends-schedule_each, All-Extends, IsPlain,
}
use orpal.Base.{
  ◌-◌, ◌+◌, length, if◌then◌else◌, ℕ, String, Bool, true, false, [], ◌∷◌, none, some, All,
  All-append, Option-cases, inl, inr,
}
use orpal.Dict
use orpal.PendingQueue.{PendingMessage, Rows}
use orpal.DeliveryWorker.{
  flushes_all, stops, starts, attempted, backoff, updating, fetching, awk, fires, settles, attempt,
  resumes, schedule_each, answers, flushing_all, nothing, emitting, flushing, flushes, fire,
  resumed, Random, acknowledge, flush_all, cancel_timer, flush_recipient, measure, recording,
  acknowledges, note, enqueue, stop, emit_metrics, enqueuing, attempting, settle, enqueues, start,
  resume, removing, acknowledging, answer, spawn, Worker, Task, Move, step, starting,
}

All-if :
    (P : Task → Type 0) (b : Bool) (u v : Worker)
    → All P u.tasks
    → All P v.tasks
    → All P (if b then u else v).tasks
All-if P true u v a b = a
All-if P false u v a b = b

All-spawn :
    (P : Task → Type 0) (t : Task) (w : Worker) → P t → All P w.tasks → All P (spawn t w).tasks
unfolding spawn
All-spawn P t w p h = All-append P w.tasks (t ∷ []) h (p, tt)

-- The task that a call puts in place meets the predicate; what is plain does so anyway.
abbrev pub Allowed : (Task → Type 0) → Move → Type 0
Allowed P (enqueues m) = P (enqueuing m false)
Allowed P (acknowledges k) = P (acknowledging k none)
Allowed P _ = Unit

-- What holds of the plain tasks, and is kept by an answer and by the acknowledgement's second half,
-- holds of every task of a run whose calls keep it.
module _ (P : Task → Type 0) (plain : (t : Task) → IsPlain t → P t)
    (answered : (t : Task) (rows : Rows) → P t → P (answer t rows).1)
    (acked : (k : String) (m : PendingMessage)
      → P (acknowledging k (some (some m)))
      → P (removing k m false)) where
  resume-All :
      (now : ℕ) (random : Random) (t : Task) (w : Worker)
      → P t
      → All P w.tasks
      → All P (resume now random t w).tasks
  unfolding resume emit_metrics note measure cancel_timer
  resume-All now random (starting (some rows)) w p h =
      let v = note (resumed (length rows)) w in
      All-spawn P (emitting nothing none) (schedule_each rows v) (plain (emitting nothing none) tt)
        (All-Extends P plain (Extends-schedule_each rows v) h)
  resume-All now random (enqueuing m true) w p h =
      All-spawn P (emitting (attempt m.message_id) none) w
        (plain (emitting (attempt m.message_id) none) tt) h
  resume-All now random (flushing k (some rows)) w p h =
      All-Extends P plain (Extends-attempt_for k rows w) h
  resume-All now random (flushing_all (some rows)) w p h =
      All-Extends P plain (Extends-attempt_each rows w) h
  resume-All now random (acknowledging k (some none)) w p h = h
  resume-All now random (acknowledging k (some (some m))) w p h =
      All-spawn P (removing k m false) (cancel_timer k w) (acked k m p) h
  resume-All now random (removing k m true) w p h =
      All-spawn P (emitting nothing none) (note (awk k m.recipient_id) w)
        (plain (emitting nothing none) tt) h
  resume-All now random (fetching k (some none)) w p h = h
  resume-All now random (fetching k (some (some m))) w p h =
      All-spawn P (attempting k m) (cancel_timer k w) (plain (attempting k m) tt) h
  resume-All now random (recording k m sent (some none)) w p h = h
  resume-All now random (recording k m sent (some (some still))) w p h =
      let t = updating k m sent (still.attempt_count + 1) now false in
      All-spawn P t w (plain t tt) h
  resume-All now random (updating k m sent count at true) w p h =
      let t = emitting (backoff k (count - 1)) none in
      All-spawn P t (note (attempted k m.recipient_id count sent) w) (plain t tt) h
  resume-All now random (emitting next (some rows)) w p h =
      All-Extends P plain (Extends-continue next random (measure rows w)) h
  resume-All now random t w p h = All-spawn P t w p h

  settle-All :
      (sent : Bool) (t : Task) (w : Worker) → P t → All P w.tasks → All P (settle sent t w).tasks
  unfolding settle spawn
  settle-All sent (attempting k m) w p h =
      All-spawn P (recording k m sent none) w (plain (recording k m sent none) tt) h
  settle-All sent t w p h = All-spawn P t w p h

  pub step-All : (m : Move) (w : Worker) → Allowed P m → All P w.tasks → All P (step m w).tasks
  unfolding step start stop enqueue flush_recipient flush_all acknowledge fire cancel_timer
  step-All starts w a h =
      All-if P w.running w _ h (All-spawn P (starting none) w (plain (starting none) tt) h)
  step-All stops w a h = h
  step-All (enqueues m) w a h = All-spawn P (enqueuing m false) w a h
  step-All (flushes k) w a h =
      All-if P w.running _ w (All-spawn P (flushing k none) w (plain (flushing k none) tt) h) h
  step-All flushes_all w a h =
      All-if P w.running _ w (All-spawn P (flushing_all none) w (plain (flushing_all none) tt) h) h
  step-All (acknowledges k) w a h = All-spawn P (acknowledging k none) w a h
  step-All (answers i) w a h = elim (Option-cases (pick i w.tasks)) [
    | inl out ↦ rw (out, step) h
    | inr ((t, us), at) ↦
        let (p, q) = All-pick P i w.tasks t us at h in rw (at, step) (answered t w.rows p, q)
  ]
  step-All (resumes i now random) w a h = elim (Option-cases (pick i w.tasks)) [
    | inl out ↦ rw (out, step) h
    | inr ((t, us), at) ↦
        let (p, q) = All-pick P i w.tasks t us at h in
        rw (at, step) (resume-All now random t (record w { tasks = us }) p q)
  ]
  step-All (settles i sent) w a h = elim (Option-cases (pick i w.tasks)) [
    | inl out ↦ rw (out, step) h
    | inr ((t, us), at) ↦
        let (p, q) = All-pick P i w.tasks t us at h in
        rw (at, step) (settle-All sent t (record w { tasks = us }) p q)
  ]
  step-All (fires k) w a h =
      All-if P (Dict.has k w.timers) _ w
        (All-Extends P plain (Extends-run_attempt k (cancel_timer k w)) h) h
