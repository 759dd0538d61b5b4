-- ===== src/PendingQueue/Metrics.antt =====
-- The metrics snapshot against a description that names no loop.
use orpal.Base.{
  ℕ, zero, suc, ◌+◌, ◌≤◌, String, List, [], ◌∷◌, ◌≡◌, refl, ap, ◌∙◌, ◌⊎◌, inl, Option, none, some,
  arith, eq_iff, ◌==◌, length, All, Any, if◌then◌else◌,
}
use orpal.Dict
use orpal.Dict.Laws.{get-set}
use orpal.PendingQueue.{
  or_zero, older, later, PendingMessage, PendingMetrics, observe, observe_all,
  compute_pending_metrics,
}

-- The messages that wait for the recipient.
abbrev pub count_for : String → List PendingMessage → ℕ
count_for r [] = 0
count_for r (m ∷ rows) = if m.recipient_id == r then suc (count_for r rows) else count_for r rows

abbrev pub attempts : List PendingMessage → ℕ
attempts [] = 0
attempts (m ∷ rows) = m.attempt_count + attempts rows

-- `none` is for no message at all; otherwise the time is some message's, and none is earlier.
abbrev pub IsOldest : List PendingMessage → Option ℕ → Type 0
IsOldest rows none = rows ≡ []
IsOldest rows (some t) = All (λ m. t ≤ m.timestamp) rows × Any (λ m. m.timestamp ≡ t) rows

abbrev pub NotAfter : Option ℕ → ℕ → Type 0
NotAfter none t = Unit {0}
NotAfter (some a) t = a ≤ t

abbrev NotBefore : Option ℕ → ℕ → Type 0
NotBefore none t = Unit {0}
NotBefore (some a) t = t ≤ a

-- `none` is for no attempt at all; otherwise the time is some attempt's, and none is later.
abbrev pub IsLatest : List PendingMessage → Option ℕ → Type 0
IsLatest rows none = All (λ m. m.last_attempt_at ≡ none) rows
IsLatest rows (some t) =
    All (λ m. NotAfter m.last_attempt_at t) rows × Any (λ m. m.last_attempt_at ≡ some t) rows

abbrev pub IsLargest : List PendingMessage → ℕ → Type 0
IsLargest rows n =
    All (λ m. m.attempt_count ≤ n) rows × ((n ≡ 0) ⊎ Any (λ m. m.attempt_count ≡ n) rows)

-- A recipient without a message has no entry.
abbrev pub tally : ℕ → Option ℕ
tally zero = none
tally (suc n) = some (suc n)

pub record Describes (rows : List PendingMessage) (m : PendingMetrics) : Type 0 where
  pub oldest : IsOldest rows m.oldest_pending_ts
  pub latest : IsLatest rows m.last_attempt_at
  pub summed : m.total_attempts ≡ attempts rows
  pub largest : IsLargest rows m.max_attempts
  pub counted : (r : String) → Dict.get r m.by_recipient ≡ tally (count_for r rows)

-- Each part of the snapshot is a loop of its own, whose result is stated for every start.
abbrev OldestFrom : Option ℕ → List PendingMessage → Option ℕ → Type 0
OldestFrom start rows none = (start ≡ none) × (rows ≡ [])
OldestFrom start rows (some t) =
    NotBefore start t
    × All (λ m. t ≤ m.timestamp) rows
    × ((start ≡ some t) ⊎ Any (λ m. m.timestamp ≡ t) rows)

oldest_step :
    (m : PendingMessage) (rows : List PendingMessage) (start r : Option ℕ)
    → OldestFrom (older start m.timestamp) rows r
    → OldestFrom start (m ∷ rows) r
oldest_step m rows none none h = ground arith
oldest_step m rows none (some t) h = ground arith
oldest_step m rows (some s) none h = ground arith
oldest_step m rows (some s) (some t) h = ground arith

observe_all-oldest :
    (rows : List PendingMessage) (acc : PendingMetrics)
    → OldestFrom acc.oldest_pending_ts rows (observe_all acc rows).oldest_pending_ts
unfolding observe_all observe
observe_all-oldest [] acc = start_oldest acc.oldest_pending_ts
  where
    start_oldest : (o : Option ℕ) → OldestFrom o [] o
    start_oldest none = (refl, refl)
    start_oldest (some t) = (omega arith, tt, inl refl)
observe_all-oldest (m ∷ rows) acc =
    oldest_step m rows acc.oldest_pending_ts _ (observe_all-oldest rows (observe acc m))

abbrev LatestFrom : Option ℕ → List PendingMessage → Option ℕ → Type 0
LatestFrom start rows none = (start ≡ none) × All (λ m. m.last_attempt_at ≡ none) rows
LatestFrom start rows (some t) =
    NotAfter start t
    × All (λ m. NotAfter m.last_attempt_at t) rows
    × ((start ≡ some t) ⊎ Any (λ m. m.last_attempt_at ≡ some t) rows)

-- `a` is `m.lastAttemptAt`.
latest_case :
    (a : Option ℕ) (m : PendingMessage) (rows : List PendingMessage) (start r : Option ℕ)
    → m.last_attempt_at ≡ a
    → LatestFrom (later start a) rows r
    → LatestFrom start (m ∷ rows) r
latest_case none m rows none none e h = ground arith
latest_case none m rows none (some t) e h = ground arith
latest_case none m rows (some s) none e h = ground arith
latest_case none m rows (some s) (some t) e h = ground arith
latest_case (some a) m rows none none e h = ground arith
latest_case (some a) m rows none (some t) e h = ground arith
latest_case (some a) m rows (some s) none e h = ground arith
latest_case (some a) m rows (some s) (some t) e h = ground arith

observe_all-latest :
    (rows : List PendingMessage) (acc : PendingMetrics)
    → LatestFrom acc.last_attempt_at rows (observe_all acc rows).last_attempt_at
unfolding observe_all observe
observe_all-latest [] acc = start_latest acc.last_attempt_at
  where
    start_latest : (o : Option ℕ) → LatestFrom o [] o
    start_latest none = (refl, tt)
    start_latest (some t) = (omega arith, tt, inl refl)
observe_all-latest (m ∷ rows) acc =
    latest_case m.last_attempt_at m rows acc.last_attempt_at _ refl
      (observe_all-latest rows (observe acc m))

observe_all-summed :
    (rows : List PendingMessage) (acc : PendingMetrics)
    → (observe_all acc rows).total_attempts ≡ acc.total_attempts + attempts rows
unfolding observe_all observe
observe_all-summed [] acc = omega arith
observe_all-summed (m ∷ rows) acc = omega (arith, observe_all-summed rows (observe acc m))

abbrev LargestFrom : ℕ → List PendingMessage → ℕ → Type 0
LargestFrom start rows n =
    (start ≤ n)
    × All (λ m. m.attempt_count ≤ n) rows
    × ((n ≡ start) ⊎ Any (λ m. m.attempt_count ≡ n) rows)

observe_all-largest :
    (rows : List PendingMessage) (acc : PendingMetrics)
    → LargestFrom acc.max_attempts rows (observe_all acc rows).max_attempts
unfolding observe_all observe
observe_all-largest [] acc = (omega arith, tt, inl refl)
observe_all-largest (m ∷ rows) acc = ground (arith, observe_all-largest rows (observe acc m))

-- The entry of a recipient after the loop, from the entry before it.
abbrev plus : Option ℕ → ℕ → Option ℕ
plus start zero = start
plus start (suc n) = some (or_zero start + suc n)

count_case :
    (r : String) (m : PendingMessage) (start : Option ℕ) (n : ℕ)
    → plus (if m.recipient_id == r then some (or_zero start + 1) else start) n
      ≡ plus start (if m.recipient_id == r then suc n else n)
count_case r m start zero = ground arith
count_case r m start (suc n) = ground arith

observe_all-counted :
    (r : String) (rows : List PendingMessage) (acc : PendingMetrics)
    → Dict.get r (observe_all acc rows).by_recipient
      ≡ plus (Dict.get r acc.by_recipient) (count_for r rows)
unfolding observe_all observe
observe_all-counted r [] acc = refl
observe_all-counted r (m ∷ rows) acc = ground (
  arith,
  observe_all-counted r rows (observe acc m),
  get-set m.recipient_id r (or_zero (Dict.get m.recipient_id acc.by_recipient) + 1)
      acc.by_recipient,
  eq_iff m.recipient_id r,
  count_case r m (Dict.get r acc.by_recipient) (count_for r rows),
)

abbrev start : List PendingMessage → PendingMetrics
start rows = record {
  total = length rows;
  oldest_pending_ts = none;
  last_attempt_at = none;
  total_attempts = 0;
  max_attempts = 0;
  by_recipient = [];
}

OldestFrom-IsOldest :
    (rows : List PendingMessage) (r : Option ℕ) → OldestFrom none rows r → IsOldest rows r
OldestFrom-IsOldest rows none h = h.1
OldestFrom-IsOldest rows (some t) h = (h.1, ground arith)

LatestFrom-IsLatest :
    (rows : List PendingMessage) (r : Option ℕ) → LatestFrom none rows r → IsLatest rows r
LatestFrom-IsLatest rows none h = h.1
LatestFrom-IsLatest rows (some t) h = (h.1, ground arith)

counted_of : (n : ℕ) → plus none n ≡ tally n
counted_of zero = refl
counted_of (suc n) = ap some (omega arith)

total-observe_all :
    (rows : List PendingMessage) (acc : PendingMetrics) → (observe_all acc rows).total ≡ acc.total
unfolding observe_all observe
total-observe_all [] acc = refl
total-observe_all (m ∷ rows) acc = total-observe_all rows (observe acc m)

-- The metrics describe the listing: the total, the earliest timestamp, the latest attempt (none
-- exactly if nothing has been attempted), the sum and the maximum of the attempt counts, and for
-- each recipient the number of its messages.
pub compute_pending_metrics-Describes :
    (rows : List PendingMessage)
    → Describes rows (compute_pending_metrics rows)
      × ((compute_pending_metrics rows).total ≡ length rows)
unfolding compute_pending_metrics Dict.get
compute_pending_metrics-Describes rows = (
  record {
    oldest = OldestFrom-IsOldest rows _ (observe_all-oldest rows (start rows));
    latest = LatestFrom-IsLatest rows _ (observe_all-latest rows (start rows));
    summed = omega (arith, observe_all-summed rows (start rows));
    largest =
        ((observe_all-largest rows (start rows)).1, (observe_all-largest rows (start rows)).2);
    counted = λ r. observe_all-counted r rows (start rows) ∙ counted_of (count_for r rows);
  },
  total-observe_all rows (start rows),
)
