-- ===== src/DeliveryWorker/Coverage.antt =====
-- While the worker runs, no queued message is stranded: an armed timer or a method under way will
-- attempt it, or an acknowledgement is about to remove it.
use orpal.DeliveryWorker.Extends.{
  Extends-attempt_each, Extends-attempt_for, Extends-continue, Any-Extends, Extends,
  Extends-schedule_each,
}
use orpal.Base.{
  ◌-◌, length, ◌∙◌, ℕ, String, true, false, List, [], ◌∷◌, ◌≡◌, refl, sym, subst, ◌⊎◌, inl, inr,
  none, some, arith, eq_iff, Any, Any-append_left, Any-append_right, Bool-cases, String-cases,
}
use orpal.Base.KeySet.{contains}
use orpal.Dict
use orpal.Dict.Laws.{has-set, has-delete}
use orpal.PendingQueue.{PendingMessage}
use orpal.DeliveryWorker.{
  attempted, awk, resumed, measure, note, emit_metrics, resume, delay_for, Random, Next,
  schedule_backoff, schedule_soon, continue, schedule_each, Worker, Task, starting, enqueuing,
  flushing, flushing_all, acknowledging, removing, fetching, attempting, recording, updating,
  emitting, nothing, attempt, backoff, spawn, cancel_timer, arm, run_attempt,
}

-- The task will attempt the message, arm its timer or remove it.
abbrev pub Covers : String → Task → Type 0
Covers id (starting none) = Unit {0}
Covers id (starting (some rows)) = Any (λ m. m.message_id ≡ id) rows
Covers id (enqueuing m _) = m.message_id ≡ id
Covers id (removing k _ false) = k ≡ id
Covers id (fetching k none) = k ≡ id
Covers id (fetching k (some (some _))) = k ≡ id
Covers id (attempting k _) = k ≡ id
Covers id (recording k _ _ none) = k ≡ id
Covers id (recording k _ _ (some (some _))) = k ≡ id
Covers id (updating k _ _ _ _ _) = k ≡ id
Covers id (emitting (attempt k) _) = k ≡ id
Covers id (emitting (backoff k _) _) = k ≡ id
Covers id _ = ⊥

abbrev pub IsAttempt : String → Task → Type 0
IsAttempt id (attempting k _) = k ≡ id
IsAttempt id _ = ⊥

abbrev pub Covered : String → Worker → Type 0
Covered id w = (Dict.has id w.timers ≡ true) ⊎ Any (Covers id) w.tasks

abbrev pub Flies : String → Worker → Type 0
Flies id w = contains id w.inflight ≡ true → Any (IsAttempt id) w.tasks

pub IsAttempt-Covers : (id : String) (t : Task) → IsAttempt id t → Covers id t
IsAttempt-Covers id (attempting k m) h = h
IsAttempt-Covers id _ h = elim h [ ]

pub Any-attempt : (id : String) (ts : List Task) → Any (IsAttempt id) ts → Any (Covers id) ts
Any-attempt id (t ∷ ts) (inl h) = inl (IsAttempt-Covers id t h)
Any-attempt id (t ∷ ts) (inr h) = inr (Any-attempt id ts h)
Any-attempt id [] h = absurd h

module _ (id k : String) (w : Worker) where
  Covered-spawn : (t : Task) → Covered id w → Covered id (spawn t w)
  unfolding spawn
  Covered-spawn t (inl h) = inl h
  Covered-spawn t (inr h) = inr (Any-append_left (Covers id) w.tasks (t ∷ []) h)

  Covered-spawn_new : (t : Task) → Covers id t → Covered id (spawn t w)
  unfolding spawn
  Covered-spawn_new t h = inr (Any-append_right (Covers id) w.tasks (t ∷ []) (inl h))

  Covered-arm_self : (ms : ℕ) → k ≡ id → Covered id (arm k ms w)
  unfolding arm
  Covered-arm_self ms e =
      inl (ground (arith, has-set k id ms (Dict.delete k w.timers), eq_iff k id))

  -- Cancelling the timer of `k` costs only `k` its cover, which the new task restores.
  Covered-cancel : (t : Task) → Covers k t → Covered id w → Covered id (spawn t (cancel_timer k w))
  unfolding spawn cancel_timer
  Covered-cancel t c (inr h) = inr (Any-append_left (Covers id) w.tasks (t ∷ []) h)
  Covered-cancel t c (inl h) = elim (String-cases k id) [
    | inl same ↦
        inr (Any-append_right (Covers id) w.tasks (t ∷ []) (inl (subst (λ j. Covers j t) same c)))
    | inr apart ↦ inl (has-delete k id w.timers ∙ rw apart h)
  ]

pub Covered-Extends : (id : String) {w w' : Worker} → Extends w w' → Covered id w → Covered id w'
Covered-Extends id e (inl h) = inl (e.kept id h)
Covered-Extends id e (inr h) = inr (Any-Extends (Covers id) e h)

-- A method that calls `runAttempt` while the worker runs leaves the message covered: by the new
-- method, or by the attempt that is in flight.
pub Covered-run_attempt_self :
    (id : String) (w : Worker) → w.running ≡ true → Flies id w → Covered id (run_attempt id w)
unfolding run_attempt
Covered-run_attempt_self id w on f = elim (Bool-cases (contains id w.inflight)) [
  | inl flying ↦ simp (on, flying) (inr (Any-attempt id w.tasks (f flying)))
  | inr free ↦ simp (on, free) (Covered-spawn_new id id w (fetching id none) refl)
]

pub Covered-schedule_each :
    (id : String) (rows : List PendingMessage) (w : Worker)
    → Any (λ m. m.message_id ≡ id) rows
    → Covered id (schedule_each rows w)
unfolding schedule_each schedule_soon
Covered-schedule_each id (m ∷ rows) w (inl e) =
    Covered-Extends id (Extends-schedule_each rows (arm m.message_id 0 w))
      (Covered-arm_self id m.message_id w 0 e)
Covered-schedule_each id (m ∷ rows) w (inr h) =
    Covered-schedule_each id rows (arm m.message_id 0 w) h
Covered-schedule_each id [] w h = absurd h

-- What the picked task and the others cover, before the task goes on.
abbrev pub Held : String → Task → Worker → Type 0
Held id t w = Covers id t ⊎ Covered id w

pub Covered-continue :
    (id : String) (next : Next) (random : Random) (w : Worker)
    → w.running ≡ true
    → Flies id w
    → Held id (emitting next none) w
    → Covered id (continue next random w)
unfolding continue schedule_backoff
Covered-continue id next random w on f (inr h) =
    Covered-Extends id (Extends-continue next random w) h
Covered-continue id nothing random w on f (inl h) = absurd h
Covered-continue id (attempt k) random w on f (inl e) =
    simp on (subst (λ j. Covered id (run_attempt j w)) (sym e) (Covered-run_attempt_self id w on f))
Covered-continue id (backoff k n) random w on f (inl e) =
    simp on (Covered-arm_self id k w (delay_for w.config random n) e)

pub Covered-replace :
    (id : String) (t t' : Task) (w : Worker)
    → (Covers id t → Covers id t')
    → Held id t w
    → Covered id (spawn t' w)
Covered-replace id t t' w f (inl h) = Covered-spawn_new id id w t' (f h)
Covered-replace id t t' w f (inr h) = Covered-spawn id id w t' h

pub emitting-Covers :
    (id : String) (next : Next) (rows : List PendingMessage)
    → Covers id (emitting next (some rows))
    → Covers id (emitting next none)
emitting-Covers id nothing rows h = h
emitting-Covers id (attempt k) rows h = h
emitting-Covers id (backoff k n) rows h = h

pub no_attempt : {A : Type 0} → ⊥ ⊎ A → A
no_attempt (inl h) = absurd h
no_attempt (inr h) = h

-- When the picked task goes on, what it covered stays covered.
pub resume-Covered :
    (now : ℕ) (random : Random) (id : String) (t : Task) (w : Worker)
    → w.running ≡ true
    → (contains id w.inflight ≡ true → IsAttempt id t ⊎ Any (IsAttempt id) w.tasks)
    → Held id t w
    → Covered id (resume now random t w)
unfolding resume emit_metrics note measure
resume-Covered now random id (starting (some rows)) w on f (inl h) =
    let v = note (resumed (length rows)) w in
    Covered-spawn id id (schedule_each rows v) (emitting nothing none)
      (Covered-schedule_each id rows v h)
resume-Covered now random id (starting (some rows)) w on f (inr h) =
    Covered-spawn id id (schedule_each rows (note (resumed (length rows)) w))
      (emitting nothing none)
      (Covered-Extends id (Extends-schedule_each rows (note (resumed (length rows)) w)) h)
resume-Covered now random id (enqueuing m true) w on f h =
    Covered-replace id (enqueuing m true) _ w (λ c. c) h
resume-Covered now random id (flushing k (some rows)) w on f (inl h) = absurd h
resume-Covered now random id (flushing k (some rows)) w on f (inr h) =
    Covered-Extends id (Extends-attempt_for k rows w) h
resume-Covered now random id (flushing_all (some rows)) w on f (inl h) = absurd h
resume-Covered now random id (flushing_all (some rows)) w on f (inr h) =
    Covered-Extends id (Extends-attempt_each rows w) h
resume-Covered now random id (acknowledging k (some none)) w on f (inl h) = absurd h
resume-Covered now random id (acknowledging k (some none)) w on f (inr h) = h
resume-Covered now random id (acknowledging k (some (some m))) w on f (inl h) = absurd h
resume-Covered now random id (acknowledging k (some (some m))) w on f (inr h) =
    Covered-cancel id k w (removing k m false) refl h
resume-Covered now random id (removing k m true) w on f (inl h) = absurd h
resume-Covered now random id (removing k m true) w on f (inr h) =
    Covered-spawn id id (note (awk k m.recipient_id) w) (emitting nothing none) h
resume-Covered now random id (fetching k (some none)) w on f (inl h) = absurd h
resume-Covered now random id (fetching k (some none)) w on f (inr h) = h
resume-Covered now random id (fetching k (some (some m))) w on f (inl e) =
    Covered-spawn_new id id (cancel_timer k w) (attempting k m) e
resume-Covered now random id (fetching k (some (some m))) w on f (inr h) =
    Covered-cancel id k w (attempting k m) refl h
resume-Covered now random id (recording k m sent (some none)) w on f (inl h) = absurd h
resume-Covered now random id (recording k m sent (some none)) w on f (inr h) = h
resume-Covered now random id (recording k m sent (some (some still))) w on f h =
    Covered-replace id (recording k m sent (some (some still))) _ w (λ c. c) h
resume-Covered now random id (updating k m sent count at true) w on f h =
    Covered-replace id (updating k m sent count at true) (emitting (backoff k (count - 1)) none)
      (note (attempted k m.recipient_id count sent) w) (λ c. c) h
resume-Covered now random id (emitting next (some rows)) w on f (inl h) =
    Covered-continue id next random (measure rows w) on (λ c. no_attempt (f c))
      (inl (emitting-Covers id next rows h))
resume-Covered now random id (emitting next (some rows)) w on f (inr h) =
    Covered-Extends id (Extends-continue next random (measure rows w)) h
resume-Covered now random id t w on f h = Covered-replace id t t w (λ c. c) h
