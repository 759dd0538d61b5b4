-- ===== src/DeliveryWorker.antt =====
-- packages/orpal-core/src/messaging/delivery-worker.ts. An `async` method runs to its first `await`
-- when it is called. What it awaits stands in `tasks`, with what it does next; the store performs an
-- awaited operation in one move (`answer`), and the method goes on in a later one (`resume`), so that
-- every interleaving of the methods, the timers and the outcomes of attempts is a list of moves.
-- The timers are the delays by message id. The store's operations are taken not to reject.
pub mod Backoff
pub mod Extends
pub mod Coverage
pub mod Steps
pub mod Stranding
pub mod Calls
pub mod Acknowledgement
pub mod Race
mod Examples
use orpal.Base.{
  ℕ, ◌+◌, ◌-◌, zero, suc, String, Bool, true, false, List, [], ◌∷◌, ◌++◌, Option, none, some, ◌==◌,
  length, if◌then◌else◌,
}
use orpal.Base.Tasks.{pick}
use orpal.Base.KeySet.{contains, add, discard}
use orpal.Dict
use orpal.Dict.{Dict}
use orpal.PendingQueue
use orpal.PendingQueue.{PendingMessage, PendingMetrics, Rows, compute_pending_metrics}
use Backoff.{BackoffConfig, Random, delay_for}

-- What an awaited `emitMetrics` is followed by.
pub data Next : Type 0 where
  nothing : Next
  attempt : String → Next
  backoff : String → ℕ → Next

-- A method at an `await`, with the store's answer once there is one.
pub data Task : Type 0 where
  starting : Option (List PendingMessage) → Task
  enqueuing : PendingMessage → Bool → Task
  flushing : String → Option (List PendingMessage) → Task
  flushing_all : Option (List PendingMessage) → Task
  acknowledging : String → Option (Option PendingMessage) → Task
  removing : String → PendingMessage → Bool → Task
  fetching : String → Option (Option PendingMessage) → Task
  attempting : String → PendingMessage → Task
  recording : String → PendingMessage → Bool → Option (Option PendingMessage) → Task
  updating : String → PendingMessage → Bool → (count now : ℕ) → Bool → Task
  emitting : Next → Option (List PendingMessage) → Task

-- The debug log.
pub data Event : Type 0 where
  resumed : ℕ → Event
  awk : (message_id recipient_id : String) → Event
  attempted : (message_id recipient_id : String) (count : ℕ) (dispatched : Bool) → Event
  measured : (total : ℕ) (oldest : Option ℕ) → Event

pub record Worker : Type 0 where
  pub config : BackoffConfig
  pub rows : Rows
  pub timers : Dict ℕ
  pub inflight : List String
  pub running : Bool
  pub tasks : List Task
  pub emitted : List PendingMetrics
  pub logged : List Event

-- The constructor, over a store that holds `rows`.
pub fresh : BackoffConfig → Rows → Worker
fresh config rows = record {
  config = config;
  rows = rows;
  timers = [];
  inflight = [];
  running = false;
  tasks = [];
  emitted = [];
  logged = [];
}

pub spawn : Task → Worker → Worker
spawn t w = record w { tasks = w.tasks ++ t ∷ [] }

pub note : Event → Worker → Worker
note e w = record w { logged = w.logged ++ e ∷ [] }

pub cancel_timer : String → Worker → Worker
cancel_timer id w = record w { timers = Dict.delete id w.timers }

pub arm : String → ℕ → Worker → Worker
unfolding cancel_timer
arm id ms w = let w' = cancel_timer id w in record w' { timers = Dict.set id ms w'.timers }

pub schedule_soon : String → Worker → Worker
schedule_soon id w = arm id 0 w

pub schedule_backoff : String → ℕ → Random → Worker → Worker
schedule_backoff id attempt_count random w =
    if w.running then arm id (delay_for w.config random attempt_count) w else w

pub emit_metrics : Next → Worker → Worker
unfolding spawn
emit_metrics next w = spawn (emitting next none) w

-- `runAttempt`, as far as its first `await`.
pub run_attempt : String → Worker → Worker
unfolding spawn
run_attempt id w =
    if w.running then (if contains id w.inflight then w else spawn (fetching id none) w) else w

pub start : Worker → Worker
unfolding spawn
start w = if w.running then w else spawn (starting none) (record w { running = true })

pub stop : Worker → Worker
stop w = record w { running = false; timers = [] }

pub enqueue : PendingMessage → Worker → Worker
unfolding spawn
enqueue msg w = spawn (enqueuing msg false) w

pub flush_recipient : String → Worker → Worker
unfolding spawn
flush_recipient id w = if w.running then spawn (flushing id none) w else w

pub flush_all : Worker → Worker
unfolding spawn
flush_all w = if w.running then spawn (flushing_all none) w else w

pub acknowledge : String → Worker → Worker
unfolding spawn
acknowledge id w = spawn (acknowledging id none) w

pub schedule_each : List PendingMessage → Worker → Worker
schedule_each [] w = w
schedule_each (m ∷ rows) w = schedule_each rows (schedule_soon m.message_id w)

pub attempt_each : List PendingMessage → Worker → Worker
attempt_each [] w = w
attempt_each (m ∷ rows) w = attempt_each rows (run_attempt m.message_id w)

pub attempt_for : String → List PendingMessage → Worker → Worker
attempt_for recipient [] w = w
attempt_for recipient (m ∷ rows) w =
    attempt_for recipient rows
      (if m.recipient_id == recipient then run_attempt m.message_id w else w)

-- The store performs what the task awaits.
pub answer : Task → Rows → Rows × Task
answer (starting none) rows = (rows, starting (some (PendingQueue.list rows)))
answer (enqueuing msg false) rows = (PendingQueue.enqueue msg rows, enqueuing msg true)
answer (flushing id none) rows = (rows, flushing id (some (PendingQueue.list rows)))
answer (flushing_all none) rows = (rows, flushing_all (some (PendingQueue.list rows)))
answer (acknowledging id none) rows = (rows, acknowledging id (some (PendingQueue.get id rows)))
answer (removing id m false) rows = (PendingQueue.remove id rows, removing id m true)
answer (fetching id none) rows = (rows, fetching id (some (PendingQueue.get id rows)))
answer (recording id m sent none) rows =
    (rows, recording id m sent (some (PendingQueue.get id rows)))
answer (updating id m sent count now false) rows = (
  PendingQueue.update id (record { attempt_count = some count; last_attempt_at = some (some now) })
      rows,
  updating id m sent count now true,
)
answer (emitting next none) rows = (rows, emitting next (some (PendingQueue.list rows)))
answer t rows = (rows, t)

-- What stands behind an awaited `emitMetrics`.
pub continue : Next → Random → Worker → Worker
continue nothing random w = w
continue (attempt id) random w = if w.running then run_attempt id w else w
continue (backoff id n) random w = schedule_backoff id n random w

pub measure : List PendingMessage → Worker → Worker
unfolding note
measure rows w =
    let metrics = compute_pending_metrics rows in
    note (measured metrics.total metrics.oldest_pending_ts)
      (record w { emitted = w.emitted ++ metrics ∷ [] })

-- A method goes on from an answered `await` to its next one. A task that has no answer waits on.
pub resume : ℕ → Random → Task → Worker → Worker
resume now random (starting (some rows)) w =
    emit_metrics nothing (schedule_each rows (note (resumed (length rows)) w))
resume now random (enqueuing msg true) w = emit_metrics (attempt msg.message_id) w
resume now random (flushing id (some rows)) w = attempt_for id rows w
resume now random (flushing_all (some rows)) w = attempt_each rows w
resume now random (acknowledging id (some none)) w = w
resume now random (acknowledging id (some (some m))) w =
    spawn (removing id m false) (cancel_timer id w)
resume now random (removing id m true) w = emit_metrics nothing (note (awk id m.recipient_id) w)
resume now random (fetching id (some none)) w = w
resume now random (fetching id (some (some m))) w =
    let w' = cancel_timer id w in
    spawn (attempting id m) (record w' { inflight = add id w'.inflight })
resume now random (recording id m sent (some none)) w = w
resume now random (recording id m sent (some (some still))) w =
    spawn (updating id m sent (still.attempt_count + 1) now false) w
resume now random (updating id m sent count at true) w =
    emit_metrics (backoff id (count - 1)) (note (attempted id m.recipient_id count sent) w)
resume now random (emitting next (some rows)) w = continue next random (measure rows w)
resume now random t w = spawn t w

-- The outcome of `attempt`: dispatched, or offline or thrown, which count the same.
pub settle : Bool → Task → Worker → Worker
settle sent (attempting id m) w =
    spawn (recording id m sent none) (record w { inflight = discard id w.inflight })
settle sent t w = spawn t w

-- The timer's callback.
pub fire : String → Worker → Worker
unfolding cancel_timer
fire id w = if Dict.has id w.timers then run_attempt id (cancel_timer id w) else w

pub data Move : Type 0 where
  starts stops : Move
  enqueues : PendingMessage → Move
  flushes : String → Move
  flushes_all : Move
  acknowledges : String → Move
  answers : ℕ → Move
  resumes : ℕ → (now : ℕ) → Random → Move
  settles : ℕ → Bool → Move
  fires : String → Move

pub step : Move → Worker → Worker
step starts w = start w
step stops w = stop w
step (enqueues msg) w = enqueue msg w
step (flushes id) w = flush_recipient id w
step flushes_all w = flush_all w
step (acknowledges id) w = acknowledge id w
step (answers i) w = elim (pick i w.tasks) [
  | none ↦ w
  | some (t, ts) ↦ let (rows, t') = answer t w.rows in record w { rows = rows; tasks = t' ∷ ts }
]
step (resumes i now random) w = elim (pick i w.tasks) [
  | none ↦ w
  | some (t, ts) ↦ resume now random t (record w { tasks = ts })
]
step (settles i sent) w = elim (pick i w.tasks) [
  | none ↦ w
  | some (t, ts) ↦ settle sent t (record w { tasks = ts })
]
step (fires id) w = fire id w

pub run : List Move → Worker → Worker
run [] w = w
run (m ∷ moves) w = run moves (step m w)
