-- ===== src/DeliveryWorker/Examples.antt =====
-- Schedules of the delivery worker, and the theorems' hypotheses met by them.
use orpal.Base.Tasks.{pick}
use orpal.Base.{All, ◌≡◌, refl, [], ◌∷◌, none, true, false, ◌≤◌, ◌<◌, ◌*◌, ◌+◌, List, arith}
use orpal.Dict
use orpal.PendingQueue.{PendingMessage, Rows, text}
use orpal.PendingQueue
use orpal.PendingQueue.Store.{empty, enqueued}
use orpal.DeliveryWorker.Backoff.{default_backoff, Random, capped, delay_for, round}
use orpal.DeliveryWorker.Backoff.Bounds.{delay_for-bounds}
use orpal.DeliveryWorker.Coverage.{Covered}
use orpal.DeliveryWorker.Stranding.{run-Covered}
use orpal.DeliveryWorker.Acknowledgement.{
  IsNotEnqueued, IsUnacknowledged, run-keeps_queued, run-keeps_absent,
}
use orpal.DeliveryWorker.Race.{run_attempt-dispatches_twice}
use orpal.Base.KeySet
use orpal.DeliveryWorker.{
  spawn, schedule_backoff, settle, measure, cancel_timer, acknowledge, continue, note, arm,
  schedule_soon, schedule_each, emit_metrics, resume, answer, fire, start, step, Worker, Move,
  attempting, starts, acknowledges, answers, resumes, settles, fires, run, fresh, run_attempt,
}

abbrev half : Random
half = record { num = 1; den = 2 }

abbrev hi : PendingMessage
hi = record {
  recipient_id = "bob";
  recipient_transport_key = "kb";
  message_id = "m1";
  timestamp = 50;
  attempt_count = 0;
  last_attempt_at = none;
  payload = text "hi";
}

abbrev stored : Rows
stored = PendingQueue.enqueue hi []

-- The worker starts over the row of an earlier session, and its timer fires.
abbrev restart : List Move
restart = starts ∷ answers 0 ∷ resumes 0 7 half ∷ answers 0 ∷ resumes 0 7 half ∷ fires "m1" ∷ []

-- It reads the row, and the attempt fails.
abbrev failure : List Move
failure =
    answers 0
    ∷ resumes 0 8 half
    ∷ settles 0 false
    ∷ answers 0
    ∷ resumes 0 9 half
    ∷ answers 0
    ∷ resumes 0 9 half
    ∷ answers 0
    ∷ resumes 0 9 half
    ∷ []

abbrev acknowledgement : List Move
acknowledgement =
    acknowledges "m1" ∷ answers 1 ∷ resumes 0 9 half ∷ answers 1 ∷ resumes 0 9 half ∷ []

abbrev restarted : Worker
restarted = run restart (fresh default_backoff stored)

-- A second's delay follows the first failure, since the random number is in the middle. Once it is
-- acknowledged the row is gone, and so is its timer.
schedules :
    (restarted.running ≡ true)
    × (Dict.has "m1" restarted.rows ≡ true)
    × ((run failure restarted).timers ≡ ("m1", 1000) ∷ [])
    × (Dict.has "m1" (run acknowledgement restarted).rows ≡ false)
    × ((run acknowledgement restarted).timers ≡ [])
unfolding delay_for capped round run step fresh start pick fire answer resume emit_metrics
    schedule_each schedule_soon arm note continue acknowledge cancel_timer measure run_attempt
    schedule_backoff settle spawn KeySet.add KeySet.contains KeySet.discard Dict.has Dict.get
    Dict.set Dict.delete PendingQueue.list PendingQueue.enqueue PendingQueue.assign PendingQueue.get
    PendingQueue.remove PendingQueue.update PendingQueue.compute_pending_metrics
schedules = (refl, refl, refl, refl, refl)

run-Covered_example : Covered "m1" restarted
run-Covered_example =
    run-Covered default_backoff stored restart "m1" (enqueued hi empty) schedules.0 schedules.1

-- Nothing of the message is under way.
quiet :
    All (IsUnacknowledged "m1") restarted.tasks
    × All (IsNotEnqueued "m1") (run acknowledgement restarted).tasks
unfolding run step fresh start pick fire answer resume emit_metrics schedule_each schedule_soon arm
    note continue acknowledge cancel_timer measure run_attempt settle spawn KeySet.add
    KeySet.contains Dict.has Dict.get Dict.set Dict.delete PendingQueue.list PendingQueue.enqueue
    PendingQueue.get PendingQueue.remove
quiet = ground arith

run-keeps_queued_example : Dict.has "m1" (run failure restarted).rows ≡ true
run-keeps_queued_example =
    run-keeps_queued "m1" failure restarted (ground arith) quiet.0 schedules.1

run-keeps_absent_example : Dict.has "m1" (run failure (run acknowledgement restarted)).rows ≡ false
run-keeps_absent_example =
    run-keeps_absent "m1" failure (run acknowledgement restarted) (ground arith) quiet.1 schedules.3

abbrev idle : Worker
idle = record (fresh default_backoff stored) { running = true }

run_attempt-dispatches_twice_example :
    (run
      (answers 0 ∷ answers 1 ∷ resumes 0 7 half ∷ resumes 0 7 half ∷ [])
      (run_attempt "m1" (run_attempt "m1" idle))).tasks
    ≡ attempting "m1" hi ∷ attempting "m1" hi ∷ []
unfolding fresh KeySet.contains PendingQueue.get Dict.get PendingQueue.enqueue Dict.set
run_attempt-dispatches_twice_example =
    run_attempt-dispatches_twice "m1" hi idle 7 half refl refl refl refl

delay_for-bounds_example :
    (20 * delay_for default_backoff half 1 ≤ 2 * (capped default_backoff 1 * 13) + 10)
    × (2 * (capped default_backoff 1 * 7) < 20 * delay_for default_backoff half 1 + 10)
delay_for-bounds_example =
    delay_for-bounds default_backoff half 1 (omega arith) (omega arith) (omega arith)
