-- ===== src/DeliveryWorker/Backoff/Bounds.antt =====
-- The delay of a retry is bounded by the base delay and its jitter.
use native.Mathlib.Nat.{
  mul-pos, mul-div-le, lt-mul-div-succ, mul-le-mul_left, le_of_mul-le-mul_left,
  lt_of_mul-lt-mul_left,
}
use orpal.Base.{ℕ, ◌+◌, ◌-◌, ◌*◌, ◌≤◌, ◌<◌, ◌≡◌, arith, ap}
use orpal.DeliveryWorker.Backoff.{BackoffConfig, Random, capped, round, delay_for}

-- Rounding is within half a unit: 2a - b < 2b·round ≤ 2a + b.
pub round-near :
    (a b : ℕ) → 0 < b → (2 * b * round a b ≤ 2 * a + b) × (2 * a < 2 * b * round a b + b)
unfolding round
round-near a b pos =
    let le = mul-div-le (2 * a + b) (2 * b) in
    let pos' : 0 < 2 * b = omega arith in
    let lt = lt-mul-div-succ (2 * a + b) pos' in (le, omega arith)

spread :
    (x a b p q : ℕ)
    → p < q
    → a ≤ b
    → (x * (b * q + 2 * (a * p)) - x * (a * q) ≤ q * (x * (b + a)))
      × (q * (x * (b - a)) ≤ x * (b * q + 2 * (a * p)) - x * (a * q))
spread x a b p q pq ab =
    let pq' : p ≤ q = omega arith in
    let h = mul-le-mul_left (x * a) pq' in
    let ab' : a + (b - a) ≡ b = omega arith in
    let g = ap (λ (t : ℕ). q * (x * t)) ab' in (grind arith, grind arith)

-- A bound on the numerator over b · q becomes one over b.
scale :
    (up low n r b q : ℕ)
    → 0 < q
    → n ≤ q * up
    → q * low ≤ n
    → (2 * (b * q) * r ≤ 2 * n + b * q) × (2 * n < 2 * (b * q) * r + b * q)
    → (2 * b * r ≤ 2 * up + b) × (2 * low < 2 * b * r + b)
scale up low n r b q pos le ge (above, under) =
    let over : q * (2 * b * r) ≤ q * (2 * up + b) = grind arith in
    let beneath : q * (2 * low) < q * (2 * b * r + b) = grind arith in
    (le_of_mul-le-mul_left over pos, lt_of_mul-lt-mul_left q beneath)

-- Where the random number lies below 1 and the jitter is at most 1, the delay is within half a
-- millisecond of the base delay's range: capped · (1 - jitter) to capped · (1 + jitter), here times
-- twice the jitter's denominator.
pub delay_for-bounds :
    (c : BackoffConfig) (random : Random) (n : ℕ)
    → random.num < random.den
    → c.jitter.num ≤ c.jitter.den
    → 0 < c.jitter.den
    → (2 * c.jitter.den * delay_for c random n
        ≤ 2 * (capped c n * (c.jitter.den + c.jitter.num)) + c.jitter.den)
      × (2 * (capped c n * (c.jitter.den - c.jitter.num))
          < 2 * c.jitter.den * delay_for c random n + c.jitter.den)
unfolding delay_for
delay_for-bounds c random n below most pos =
    let q_pos : 0 < random.den = omega arith in
    let (le, ge) = spread (capped c n) c.jitter.num c.jitter.den random.num random.den below most in
    scale (capped c n * (c.jitter.den + c.jitter.num)) (capped c n * (c.jitter.den - c.jitter.num))
      _ (delay_for c random n) c.jitter.den random.den q_pos le ge
      (round-near _ (c.jitter.den * random.den) (mul-pos pos q_pos))
