-- ===== src/FileTransfer/Sender/Retry.antt =====
-- The number of attempts of `sendWithRetry`, its delays and its result.
use orpal.Base.{
  ℕ, zero, suc, ◌+◌, ◌*◌, ◌^◌, ◌≤◌, ◌<◌, ◌≡◌, ◌≢◌, refl, ap, ◌∙◌, List, [], ◌∷◌, some, leb, eqb,
  false, Bool-cases, inl, inr, ◌⊎◌, arith, ◌>>=◌,
}
use orpal.FileTransfer.Sender.{Reply, acked, timed_out, broken, delayed, retry, send_with_retry}

-- The delays behind `n` failed attempts, the first of them number `attempt`: each the double of the
-- one before.
abbrev pub delays_from : (backoff_ms attempt n : ℕ) → List ℕ
delays_from backoff_ms attempt zero = []
delays_from backoff_ms attempt (suc n) =
    backoff_ms * 2 ^ attempt ∷ delays_from backoff_ms (suc attempt) n

-- The attempts before number `k` time out, and this one does not, or is the last that is allowed.
pub record EndsAt (replies : ℕ → Reply) (max_retries attempt k : ℕ) : Type 0 where
  pub allowed : k ≤ max_retries
  pub earlier : (j : ℕ) → attempt ≤ j → j < k → replies j ≡ timed_out
  pub final : (replies k ≢ timed_out) ⊎ (k ≡ max_retries)

Reply-cases : (r : Reply) → (r ≡ acked) ⊎ (r ≡ broken) ⊎ (r ≡ timed_out)
Reply-cases acked = inl refl
Reply-cases broken = inr (inl refl)
Reply-cases timed_out = inr (inr refl)

-- The loop ends at attempt `k`, which is the `n`th after `attempt`.
record Ended (fuel : ℕ) (replies : ℕ → Reply) (max_retries backoff_ms attempt : ℕ) : Type 0 where
  n : ℕ
  k : ℕ
  place : k ≡ attempt + n
  ends : EndsAt replies max_retries attempt k
  gives :
      retry fuel replies max_retries backoff_ms attempt
      ≡ some (record { last = replies k; delays = delays_from backoff_ms attempt n })

now_ends :
    (fuel : ℕ) (replies : ℕ → Reply) (max_retries backoff_ms attempt : ℕ)
    → attempt ≤ max_retries
    → (replies attempt ≢ timed_out) ⊎ (attempt ≡ max_retries)
    → retry fuel replies max_retries backoff_ms attempt
      ≡ some (record { last = replies attempt; delays = [] })
    → Ended fuel replies max_retries backoff_ms attempt
now_ends fuel replies m b a l f g = record {
  n = 0;
  k = a;
  place = omega arith;
  ends = record { allowed = l; earlier = λ j low high. absurd (omega arith); final = f };
  gives = g;
}

retry-later :
    (fuel : ℕ) (replies : ℕ → Reply) (max_retries backoff_ms attempt : ℕ)
    → replies attempt ≡ timed_out
    → leb max_retries attempt ≡ false
    → retry (suc fuel) replies max_retries backoff_ms attempt
      ≡ retry fuel replies max_retries backoff_ms (suc attempt) >>= λ s.
          some (delayed (backoff_ms * 2 ^ attempt) s)
unfolding retry
retry-later fuel replies m b a r more = rw (retry, r, more)

retry-Ended :
    (fuel : ℕ) (replies : ℕ → Reply) (max_retries backoff_ms attempt : ℕ)
    → attempt + fuel ≡ suc max_retries
    → attempt ≤ max_retries
    → Ended fuel replies max_retries backoff_ms attempt
unfolding retry
retry-Ended zero replies m b a e l = absurd (omega arith)
retry-Ended (suc fuel) replies m b a e l = elim (Reply-cases (replies a)) [
  | inl r ↦ now_ends (suc fuel) replies m b a l (inl (λ t. cc)) (rw (retry, r))
  | inr (inl r) ↦ now_ends (suc fuel) replies m b a l (inl (λ t. cc)) (rw (retry, r))
  | inr (inr r) ↦ elim (Bool-cases (leb m a)) [
    | inl last ↦ now_ends (suc fuel) replies m b a l (inr (ground arith)) (rw (retry, r, last))
    | inr more ↦ later r more (retry-Ended fuel replies m b (suc a) (ground arith) (ground arith))
  ]
]
  where
    later :
        replies a ≡ timed_out
        → leb m a ≡ false
        → Ended fuel replies m b (suc a)
        → Ended (suc fuel) replies m b a
    later r more h = record {
      n = suc h.n;
      k = h.k;
      place = omega (arith, h.place);
      ends = record {
        allowed = h.ends.allowed;
        earlier = λ j low high. ground (arith, h.ends.earlier j, Bool-cases (eqb j a));
        final = h.ends.final;
      };
      gives =
          retry-later fuel replies m b a r more
          ∙ (ap (λ o. o >>= λ s. some (delayed (b * 2 ^ a) s)) h.gives);
    }

-- For any replies, `sendWithRetry` stops at the first attempt that does not time out, or at the last
-- of one more than the retries allow. It ends with that attempt's reply, and has waited before each
-- attempt after the first, the first time for the backoff and then each time twice as long.
pub send_with_retry-EndsAt :
    (replies : ℕ → Reply) (max_retries backoff_ms : ℕ)
    → (k : ℕ) × EndsAt replies max_retries 0 k
      × (send_with_retry replies max_retries backoff_ms
          ≡ some (record { last = replies k; delays = delays_from backoff_ms 0 k }))
unfolding send_with_retry
send_with_retry-EndsAt replies m b =
    let h : Ended (suc m) replies m b 0 =
      retry-Ended (suc m) replies m b 0 (omega arith) (omega arith) in
    let e : h.n ≡ h.k = omega (arith, h.place) in
    (
      h.k,
      h.ends,
      h.gives ∙ ap (λ n. some (record { last = replies h.k; delays = delays_from b 0 n })) e,
    )
