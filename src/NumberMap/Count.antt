-- ===== src/NumberMap/Count.antt =====
-- Distinct numbers below a bound: as many as the bound only if they are all of them.
use orpal.Base.{
  ℕ, zero, suc, ◌+◌, ◌≤◌, ◌<◌, true, false, List, [], ◌∷◌, eqb, if◌then◌else◌, ◌≡◌, refl, arith,
  length, All, Bool-cases, inl, inr,
}
use orpal.NumberMap.{contains, IsDistinct}

-- Σ f over the list.
abbrev pub total_of : (ℕ → ℕ) → List ℕ → ℕ
total_of f [] = 0
total_of f (i ∷ s) = f i + total_of f s

-- Σ f below n.
abbrev pub total_below : (ℕ → ℕ) → ℕ → ℕ
total_below f zero = 0
total_below f (suc n) = total_below f n + f n

abbrev without : ℕ → List ℕ → List ℕ
without k [] = []
without k (j ∷ s) = if eqb j k then s else j ∷ without k s

contains-without : (k j : ℕ) (s : List ℕ) → contains j (without k s) ≡ true → contains j s ≡ true
unfolding contains
contains-without k j [] h = h
contains-without k j (i ∷ s) h = ground (arith, contains-without k j s)

without-IsDistinct : (k : ℕ) (s : List ℕ) → IsDistinct s → IsDistinct (without k s)
without-IsDistinct k [] d = tt
without-IsDistinct k (j ∷ s) d = elim (Bool-cases (eqb j k)) [
  | inl same ↦ ground arith
  | inr apart ↦ ground (arith, contains-without k j s, without-IsDistinct k s)
]

length-without : (k : ℕ) (s : List ℕ) → contains k s ≡ true → length s ≡ suc (length (without k s))
unfolding contains
length-without k [] h = ground arith
length-without k (j ∷ s) h = ground (arith, length-without k s)

total_of-without :
    (f : ℕ → ℕ) (k : ℕ) (s : List ℕ)
    → contains k s ≡ true
    → total_of f s ≡ f k + total_of f (without k s)
unfolding contains
total_of-without f k [] h = ground arith
total_of-without f k (j ∷ s) h = ground (arith, total_of-without f k s)

-- Without the largest, the numbers lie below it.
below_absent :
    (n : ℕ) (s : List ℕ) → contains n s ≡ false → All (λ i. i < suc n) s → All (λ i. i < n) s
unfolding contains
below_absent n [] a h = tt
below_absent n (j ∷ s) a h = ground (arith, below_absent n s)

below_without :
    (n : ℕ) (s : List ℕ) → IsDistinct s → All (λ i. i < suc n) s → All (λ i. i < n) (without n s)
below_without n [] d h = tt
below_without n (j ∷ s) d h = elim (Bool-cases (eqb j n)) [
  | inl same ↦ ground (arith, below_absent n s)
  | inr apart ↦ ground (arith, below_without n s)
]

pub length_bound : (n : ℕ) (s : List ℕ) → IsDistinct s → All (λ i. i < n) s → length s ≤ n
length_bound zero [] d h = omega arith
length_bound zero (j ∷ s) d h = omega arith
length_bound (suc n) s d h = elim (Bool-cases (contains n s)) [
  | inl there ↦ omega (
    arith,
    length-without n s there,
    length_bound n (without n s) (without-IsDistinct n s d) (below_without n s d h),
  )
  | inr gone ↦ omega (arith, length_bound n s d (below_absent n s gone h))
]

-- Distinct numbers below `n`, as many as there are, are all of them.
pub full-contains :
    (n i : ℕ) (s : List ℕ)
    → IsDistinct s
    → All (λ i. i < n) s
    → length s ≡ n
    → i < n
    → contains i s ≡ true
full-contains zero i s d h e lt = absurd (omega arith)
full-contains (suc n) i s d h e lt = elim (Bool-cases (contains n s)) [
  | inl there ↦ elim (Bool-cases (eqb n i)) [
    | inl same ↦ ground arith
    | inr apart ↦ contains-without n i s (
        full-contains n i (without n s) (without-IsDistinct n s d) (below_without n s d h)
          (omega (arith, length-without n s there)) (ground arith))
  ]
  | inr gone ↦ absurd (omega (arith, length_bound n s d (below_absent n s gone h)))
]

contains-without_other :
    (k j : ℕ) (s : List ℕ) → eqb k j ≡ false → contains j s ≡ true → contains j (without k s) ≡ true
unfolding contains
contains-without_other k j [] e h = h
contains-without_other k j (i ∷ s) e h = ground (arith, contains-without_other k j s)

-- The sum over all the numbers below `n`, each once, is the sum below `n`.
pub covering-total :
    (f : ℕ → ℕ) (n : ℕ) (s : List ℕ)
    → IsDistinct s
    → All (λ i. i < n) s
    → ((i : ℕ) → i < n → contains i s ≡ true)
    → total_of f s ≡ total_below f n
covering-total f zero [] d h c = refl
covering-total f zero (j ∷ s) d h c = absurd (omega arith)
covering-total f (suc n) s d h c =
    let there : contains n s ≡ true = c n (omega arith) in
    let rest : total_of f (without n s) ≡ total_below f n =
      covering-total f n (without n s) (without-IsDistinct n s d) (below_without n s d h)
        (λ i l. contains-without_other n i s (ground arith) (c i (omega arith))) in
    omega (arith, total_of-without f n s there)
