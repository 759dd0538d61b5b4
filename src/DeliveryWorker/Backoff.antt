-- ===== src/DeliveryWorker/Backoff.antt =====
-- The retry schedule of delivery-worker.ts. Delays are whole milliseconds; the growth factor is a
-- natural number, and the jitter and the random number are fractions.
pub mod Bounds
use orpal.Base.{ℕ, zero, suc, ◌+◌, ◌-◌, ◌*◌, ◌/◌, ◌^◌, ◌≤◌, ◌<◌, ◌≡◌, refl, arith, min, ap}

pub record Fraction : Type 0 where
  pub num : ℕ
  pub den : ℕ

-- `Math.random()`, in [0, 1).
abbrev pub Random : Type 0
Random = Fraction

pub record BackoffConfig : Type 0 where
  pub base_ms : ℕ
  pub factor : ℕ
  pub max_ms : ℕ
  pub jitter : Fraction

abbrev pub default_backoff : BackoffConfig
default_backoff = record {
  base_ms = 1000;
  factor = 2;
  max_ms = 60000;
  jitter = record { num = 3; den = 10 };
}

unfoldable pub capped : BackoffConfig → ℕ → ℕ
capped c n = min c.max_ms (c.base_ms * c.factor ^ n)

-- `Math.round(a / b)` for b > 0: to the nearest, halves upwards.
unfoldable pub round : ℕ → ℕ → ℕ
round a b = (2 * a + b) / (2 * b)

-- `Math.max(0, Math.round(capped + (random * 2 - 1) * capped * jitter))`, over the denominator
-- of the two fractions; where the sum is negative, the truncated subtraction gives the 0.
unfoldable pub delay_for : BackoffConfig → Random → ℕ → ℕ
unfolding capped round
delay_for c random n =
    let d = c.jitter.den * random.den in
    round
      (capped c n * (d + 2 * (c.jitter.num * random.num))
        - capped c n * (c.jitter.num * random.den))
      d
