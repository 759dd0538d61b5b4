-- ===== src/DeliveryWorker/Steps.antt =====
-- What the answer to a task and its going on do to the cover of the messages, to the marks in flight,
-- to the rows and to the running flag.
use orpal.DeliveryWorker.Extends.{
  Extends-continue, Extends-attempt_each, Any-Extends, Extends-spawn, Extends-attempt_for, Extends,
  Extends-trans, Extends-schedule_each,
}
use orpal.Base.{
  length, ap, Memᴰ, ℕ, String, true, false, List, [], ◌∷◌, ◌≡◌, refl, sym, subst, ◌∙◌, ◌⊎◌, inl,
  inr, Option, none, some, arith, eq_iff, Any, Any-append_left, Any-append_right, String-cases,
}
use orpal.Base.KeySet.{contains, contains-add}
use orpal.Dict
use orpal.Dict.Laws.{has-set, has-delete, get_of_has}
use orpal.PendingQueue
use orpal.PendingQueue.{PendingMessage, Rows}
use orpal.PendingQueue.Store.{
  IsKeyed, has-update, list_of_get, enqueue-IsKeyed, update-IsKeyed, remove-IsKeyed,
}
use orpal.DeliveryWorker.{
  attempted, awk, nothing, schedule_each, resumed, Random, cancel_timer, measure, backoff, note,
  attempt, Next, emit_metrics, Worker, Task, starting, enqueuing, flushing, flushing_all,
  acknowledging, removing, fetching, attempting, recording, updating, emitting, spawn, answer,
  resume,
}
use orpal.DeliveryWorker.Coverage.{no_attempt, Covers, IsAttempt, Flies}

pub Any-mem :
    (id : String) (m : PendingMessage) (ms : List PendingMessage)
    → m.message_id ≡ id
    → Memᴰ m ms
    → Any (λ x. x.message_id ≡ id) ms
Any-mem id m (x ∷ ms) e (Memᴰ.head h) = inl (ap (λ y. y.message_id) (sym h) ∙ e)
Any-mem id m (x ∷ ms) e (Memᴰ.tail h) = inr (Any-mem id m ms e h)
Any-mem id m [] e h = elim h [ ]

-- A task whose answer is the row of a queued message covers it, if it does so with any row.
pub fetched-Covers :
    (id k : String) (t : Option PendingMessage → Task) (rows : Rows)
    → Dict.has id rows ≡ true
    → k ≡ id
    → ((m : PendingMessage) → Covers id (t (some m)))
    → Covers id (t (Dict.get k rows))
fetched-Covers id k t rows h c f =
    let (m, found) = get_of_has id rows h in
    subst (λ o. Covers id (t o)) (sym (ap (λ j. Dict.get j rows) c ∙ found)) (f m)

pub emitting-Covers :
    (id : String) (next : Next) (rows : List PendingMessage)
    → Covers id (emitting next none)
    → Covers id (emitting next (some rows))
emitting-Covers id nothing rows h = h
emitting-Covers id (attempt k) rows h = h
emitting-Covers id (backoff k n) rows h = h

module _ (id : String) (rows : Rows) (v : IsKeyed rows) where
  -- A message that is queued after the answer was queued before, or the answered task covers it.
  pub answer-has :
      (t : Task)
      → Dict.has id (answer t rows).0 ≡ true
      → (Dict.has id rows ≡ true) ⊎ Covers id (answer t rows).1
  unfolding answer PendingQueue.enqueue PendingQueue.remove
  answer-has (starting none) h = inl h
  answer-has (enqueuing m false) h =
      ground (arith, has-set m.message_id id m rows, eq_iff m.message_id id)
  answer-has (flushing k none) h = inl h
  answer-has (flushing_all none) h = inl h
  answer-has (acknowledging k none) h = inl h
  answer-has (removing k m false) h = inl (ground (arith, has-delete k id rows))
  answer-has (fetching k none) h = inl h
  answer-has (recording k m sent none) h = inl h
  answer-has (updating k m sent count now false) h = inl (sym (has-update k _ rows id) ∙ h)
  answer-has (emitting next none) h = inl h
  answer-has t h = inl h

  -- If the task covered a message that is still queued, the answered task covers it.
  pub answer-Covers :
      (t : Task) → Dict.has id (answer t rows).0 ≡ true → Covers id t → Covers id (answer t rows).1
  unfolding answer PendingQueue.remove PendingQueue.get
  answer-Covers (starting none) h c =
      let (m, found) = get_of_has id rows h in
      Any-mem id m (PendingQueue.list rows) (v.own_id id m found) (list_of_get id m rows found)
  answer-Covers (enqueuing m false) h c = c
  answer-Covers (flushing k none) h c = c
  answer-Covers (flushing_all none) h c = c
  answer-Covers (acknowledging k none) h c = c
  answer-Covers (removing k m false) h c = ground (arith, has-delete k id rows, eq_iff k id)
  answer-Covers (fetching k none) h c =
      fetched-Covers id k (λ o. fetching k (some o)) rows h c (λ m. c)
  answer-Covers (recording k m sent none) h c =
      fetched-Covers id k (λ o. recording k m sent (some o)) rows h c (λ x. c)
  answer-Covers (updating k m sent count now false) h c = c
  answer-Covers (emitting next none) h c = emitting-Covers id next (PendingQueue.list rows) c
  answer-Covers t h c = c

pub answer-IsKeyed : (t : Task) (rows : Rows) → IsKeyed rows → IsKeyed (answer t rows).0
unfolding answer
answer-IsKeyed (starting none) rows v = v
answer-IsKeyed (enqueuing m false) rows v = enqueue-IsKeyed m rows v
answer-IsKeyed (flushing k none) rows v = v
answer-IsKeyed (flushing_all none) rows v = v
answer-IsKeyed (acknowledging k none) rows v = v
answer-IsKeyed (removing k m false) rows v = remove-IsKeyed k rows v
answer-IsKeyed (fetching k none) rows v = v
answer-IsKeyed (recording k m sent none) rows v = v
answer-IsKeyed (updating k m sent count now false) rows v = update-IsKeyed k _ rows v
answer-IsKeyed (emitting next none) rows v = v
answer-IsKeyed t rows v = v

-- What is in flight is attempted by the picked task or by another.
abbrev pub FliesHeld : String → Task → Worker → Type 0
FliesHeld id t w = contains id w.inflight ≡ true → IsAttempt id t ⊎ Any (IsAttempt id) w.tasks

pub Flies-Extends :
    (id : String) {w w' : Worker}
    → Extends w w'
    → (contains id w.inflight ≡ true → ⊥ ⊎ Any (IsAttempt id) w.tasks)
    → Flies id w'
Flies-Extends id e f c =
    Any-Extends (IsAttempt id) e (no_attempt (f (ap (contains id) (sym e.inflight) ∙ c)))

pub resume-Flies :
    (now : ℕ) (random : Random) (id : String) (t : Task) (w : Worker)
    → FliesHeld id t w
    → Flies id (resume now random t w)
unfolding resume emit_metrics note measure cancel_timer spawn
resume-Flies now random id (starting (some rows)) w f =
    let v = note (resumed (length rows)) w in
    Flies-Extends id
      (Extends-trans v (schedule_each rows v) _ (Extends-schedule_each rows v)
        (Extends-spawn (schedule_each rows v) (emitting nothing none) tt))
      f
resume-Flies now random id (enqueuing m true) w f =
    Flies-Extends id (Extends-spawn w (emitting (attempt m.message_id) none) tt) f
resume-Flies now random id (flushing k (some rows)) w f =
    Flies-Extends id (Extends-attempt_for k rows w) f
resume-Flies now random id (flushing_all (some rows)) w f =
    Flies-Extends id (Extends-attempt_each rows w) f
resume-Flies now random id (acknowledging k (some none)) w f = λ c. no_attempt (f c)
resume-Flies now random id (acknowledging k (some (some m))) w f =
    λ c. Any-append_left (IsAttempt id) w.tasks (removing k m false ∷ []) (no_attempt (f c))
resume-Flies now random id (removing k m true) w f =
    Flies-Extends id (Extends-spawn (note (awk k m.recipient_id) w) _ tt) f
resume-Flies now random id (fetching k (some none)) w f = λ c. no_attempt (f c)
resume-Flies now random id (fetching k (some (some m))) w f = λ c. elim (String-cases k id) [
  | inl same ↦ Any-append_right (IsAttempt id) w.tasks (attempting k m ∷ []) (inl same)
  | inr apart ↦
      Any-append_left (IsAttempt id) w.tasks (attempting k m ∷ [])
        (no_attempt (f (ground (arith, contains-add k id w.inflight))))
]
resume-Flies now random id (recording k m sent (some none)) w f = λ c. no_attempt (f c)
resume-Flies now random id (recording k m sent (some (some still))) w f =
    Flies-Extends id (Extends-spawn w _ tt) f
resume-Flies now random id (updating k m sent count at true) w f =
    Flies-Extends id (Extends-spawn (note (attempted k m.recipient_id count sent) w) _ tt) f
resume-Flies now random id (emitting next (some rows)) w f =
    Flies-Extends id (Extends-continue next random (measure rows w)) f
resume-Flies now random id t w f = λ c. elim (f c) [
  | inl a ↦ Any-append_right (IsAttempt id) w.tasks (t ∷ []) (inl a)
  | inr a ↦ Any-append_left (IsAttempt id) w.tasks (t ∷ []) a
]

-- Going on changes neither the rows nor the running flag.
pub resume-rows :
    (now : ℕ) (random : Random) (t : Task) (w : Worker)
    → ((resume now random t w).rows ≡ w.rows) × ((resume now random t w).running ≡ w.running)
unfolding resume emit_metrics note measure cancel_timer spawn
resume-rows now random (starting (some rows)) w =
    let v = note (resumed (length rows)) w in
    ((Extends-schedule_each rows v).rows, (Extends-schedule_each rows v).running)
resume-rows now random (enqueuing m true) w = (refl, refl)
resume-rows now random (flushing k (some rows)) w =
    ((Extends-attempt_for k rows w).rows, (Extends-attempt_for k rows w).running)
resume-rows now random (flushing_all (some rows)) w =
    ((Extends-attempt_each rows w).rows, (Extends-attempt_each rows w).running)
resume-rows now random (acknowledging k (some none)) w = (refl, refl)
resume-rows now random (acknowledging k (some (some m))) w = (refl, refl)
resume-rows now random (removing k m true) w = (refl, refl)
resume-rows now random (fetching k (some none)) w = (refl, refl)
resume-rows now random (fetching k (some (some m))) w = (refl, refl)
resume-rows now random (recording k m sent (some none)) w = (refl, refl)
resume-rows now random (recording k m sent (some (some still))) w = (refl, refl)
resume-rows now random (updating k m sent count at true) w = (refl, refl)
resume-rows now random (emitting next (some rows)) w = (
  (Extends-continue next random (measure rows w)).rows,
  (Extends-continue next random (measure rows w)).running,
)
resume-rows now random t w = (refl, refl)
