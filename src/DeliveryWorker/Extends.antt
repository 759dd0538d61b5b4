-- ===== src/DeliveryWorker/Extends.antt =====
-- What a method does between two awaits: it appends tasks, and leaves the rows and the running flag.
use orpal.Base.{
  All-append, All, false, if◌then◌else◌, arith, true, Bool, ℕ, String, List, [], ◌∷◌, ◌++◌, ◌≡◌,
  refl, sym, ap, subst, ◌∙◌, none, ◌==◌, Any, Any-append_left,
}
use mathlib.Core.List.{append_assoc, append-nil}
use orpal.Dict
use orpal.Dict.Laws.{has-set, has-delete}
use orpal.PendingQueue.{PendingMessage}
use orpal.DeliveryWorker.{
  removing, acknowledging, enqueuing, fetching, delay_for, contains, Worker, Task, Next, nothing,
  attempt, backoff, spawn, arm, run_attempt, schedule_soon, schedule_backoff, schedule_each,
  attempt_each, attempt_for, continue,
}
use orpal.DeliveryWorker.Backoff.{Random}

-- What a method appends without being called to store or to acknowledge a message.
abbrev pub IsPlain : Task → Type 0
IsPlain (enqueuing _ _) = ⊥
IsPlain (acknowledging _ _) = ⊥
IsPlain (removing _ _ _) = ⊥
IsPlain _ = Unit

pub record Extends (w w' : Worker) : Type 0 where
  pub rows : w'.rows ≡ w.rows
  pub running : w'.running ≡ w.running
  pub inflight : w'.inflight ≡ w.inflight
  pub extra : List Task
  pub tasks : w'.tasks ≡ w.tasks ++ extra
  pub plain : All IsPlain extra
  pub kept : (k : String) → Dict.has k w.timers ≡ true → Dict.has k w'.timers ≡ true

module _ (w : Worker) where
  pub Extends-refl : Extends w w
  Extends-refl = record {
    rows = refl;
    running = refl;
    inflight = refl;
    extra = [];
    plain = tt;
    tasks = sym (append-nil w.tasks);
    kept = λ k h. h;
  }

  pub Extends-spawn : (t : Task) → IsPlain t → Extends w (spawn t w)
  unfolding spawn
  Extends-spawn t p = record {
    rows = refl;
    running = refl;
    inflight = refl;
    extra = t ∷ [];
    plain = (p, tt);
    tasks = refl;
    kept = λ k h. h;
  }

  pub Extends-arm : (k : String) (ms : ℕ) → Extends w (arm k ms w)
  unfolding arm
  Extends-arm k ms = record {
    rows = refl;
    running = refl;
    inflight = refl;
    extra = [];
    plain = tt;
    tasks = sym (append-nil w.tasks);
    kept = λ j h. ground (arith, has-set k j ms (Dict.delete k w.timers), has-delete k j w.timers);
  }

pub Extends-trans : (u v w : Worker) → Extends u v → Extends v w → Extends u w
Extends-trans u v w a b = record {
  rows = b.rows ∙ a.rows;
  running = b.running ∙ a.running;
  inflight = b.inflight ∙ a.inflight;
  extra = a.extra ++ b.extra;
  plain = All-append IsPlain a.extra b.extra a.plain b.plain;
  tasks = b.tasks ∙ ap (λ ts. ts ++ b.extra) a.tasks ∙ append_assoc u.tasks a.extra b.extra;
  kept = λ k h. b.kept k (a.kept k h);
}

pub Extends-if :
    (b : Bool) (w u v : Worker) → Extends w u → Extends w v → Extends w (if b then u else v)
Extends-if true w u v a b = a
Extends-if false w u v a b = b

pub Extends-run_attempt : (k : String) (w : Worker) → Extends w (run_attempt k w)
unfolding run_attempt
Extends-run_attempt k w =
    Extends-if w.running w _ w
      (Extends-if (contains k w.inflight) w w _ (Extends-refl w)
        (Extends-spawn w (fetching k none) tt))
      (Extends-refl w)

pub Extends-attempt_each :
    (rows : List PendingMessage) (w : Worker) → Extends w (attempt_each rows w)
unfolding attempt_each
Extends-attempt_each [] w = Extends-refl w
Extends-attempt_each (m ∷ rows) w =
    Extends-trans w (run_attempt m.message_id w) _ (Extends-run_attempt m.message_id w)
      (Extends-attempt_each rows (run_attempt m.message_id w))

pub Extends-attempt_for :
    (r : String) (rows : List PendingMessage) (w : Worker) → Extends w (attempt_for r rows w)
unfolding attempt_for
Extends-attempt_for r [] w = Extends-refl w
Extends-attempt_for r (m ∷ rows) w =
    Extends-trans w _ _
      (Extends-if (m.recipient_id == r) w (run_attempt m.message_id w) w
        (Extends-run_attempt m.message_id w) (Extends-refl w))
      (Extends-attempt_for r rows _)

pub Extends-schedule_each :
    (rows : List PendingMessage) (w : Worker) → Extends w (schedule_each rows w)
unfolding schedule_each schedule_soon
Extends-schedule_each [] w = Extends-refl w
Extends-schedule_each (m ∷ rows) w =
    Extends-trans w (arm m.message_id 0 w) _ (Extends-arm w m.message_id 0)
      (Extends-schedule_each rows (arm m.message_id 0 w))

pub Extends-continue :
    (next : Next) (random : Random) (w : Worker) → Extends w (continue next random w)
unfolding continue schedule_backoff
Extends-continue nothing random w = Extends-refl w
Extends-continue (attempt k) random w =
    Extends-if w.running w (run_attempt k w) w (Extends-run_attempt k w) (Extends-refl w)
Extends-continue (backoff k n) random w =
    Extends-if w.running w (arm k (delay_for w.config random n) w) w
      (Extends-arm w k (delay_for w.config random n)) (Extends-refl w)

pub Any-Extends :
    (P : Task → Type 0) {w w' : Worker} → Extends w w' → Any P w.tasks → Any P w'.tasks
Any-Extends P {w} e h = subst (Any P) (sym e.tasks) (Any-append_left P w.tasks e.extra h)

pub All-Extends :
    (P : Task → Type 0) {w w' : Worker}
    → ((t : Task) → IsPlain t → P t)
    → Extends w w'
    → All P w.tasks
    → All P w'.tasks
All-Extends P {w} plain e h =
    subst (All P) (sym e.tasks) (All-append P w.tasks e.extra h (weaken e.extra e.plain))
  where
    weaken : (ts : List Task) → All IsPlain ts → All P ts
    weaken [] _ = tt
    weaken (t ∷ ts) (p, q) = (plain t p, weaken ts q)
