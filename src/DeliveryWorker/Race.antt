-- ===== src/DeliveryWorker/Race.antt =====
-- `runAttempt` tests the in-flight set before it awaits the stored row, and enters the message after.
use orpal.Base.Tasks.{pick}
use orpal.Base.{ℕ, ◌≡◌, refl, [], ◌∷◌, true, false, some, String}
use orpal.Base.KeySet.{contains}
use orpal.PendingQueue
use orpal.PendingQueue.{PendingMessage}
use orpal.DeliveryWorker.{
  cancel_timer, resume, answer, spawn, step, Worker, Random, attempting, answers, resumes, run,
  run_attempt,
}

-- Two attempts at a stored message that both start before either has read its row are both
-- dispatched: where the worker runs, nothing else is under way and the message is not in flight, two
-- calls of `runAttempt`, then the two answers of the store, leave two attempts of the same message.
pub run_attempt-dispatches_twice :
    (id : String) (m : PendingMessage) (w : Worker) (now : ℕ) (random : Random)
    → w.tasks ≡ []
    → w.running ≡ true
    → contains id w.inflight ≡ false
    → PendingQueue.get id w.rows ≡ some m
    → (run
        (answers 0 ∷ answers 1 ∷ resumes 0 now random ∷ resumes 0 now random ∷ [])
        (run_attempt id (run_attempt id w))).tasks
      ≡ attempting id m ∷ attempting id m ∷ []
unfolding run step run_attempt spawn answer resume cancel_timer pick
run_attempt-dispatches_twice id m w now random quiet on free stored =
    simp (quiet, on, free, stored) refl
