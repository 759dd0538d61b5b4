-- ===== src/Base/Sums.antt =====
-- Sums over a list.
use Prim.Native.Nat.{ℕ, zero, suc, ◌+◌}
use mathlib.Core.Path.{◌≡◌, refl, subst}
use mathlib.Core.List.{List, [], ◌∷◌, ◌++◌}
use mathlib.Core.Option.{Option, none, some}
use native.Mathlib.Omega.{arith}
use orpal.Base.Tasks.{pick}

abbrev pub sum_by {ℓ} : {A : Type ℓ} → (A → ℕ) → List A → ℕ
sum_by f [] = 0
sum_by f (x ∷ xs) = f x + sum_by f xs

module _ {ℓ} {A : Type ℓ} (f : A → ℕ) where
  pub sum_by-append : (xs ys : List A) → sum_by f (xs ++ ys) ≡ sum_by f xs + sum_by f ys
  sum_by-append [] ys = omega arith
  sum_by-append (x ∷ xs) ys = omega (arith, sum_by-append xs ys)

  abbrev Splits : ℕ → Option (A × List A) → Type 0
  Splits n none = Unit {0}
  Splits n (some (x, xs)) = n ≡ f x + sum_by f xs

  Splits-cons :
      (x : A) (n : ℕ) (o : Option (A × List A))
      → Splits n o
      → Splits (f x + n) (elim o [ none ↦ none | some (u, us) ↦ some (u, x ∷ us) ])
  Splits-cons x n none h = tt
  Splits-cons x n (some (u, us)) h = omega (arith, h)

  Splits-pick : (i : ℕ) (xs : List A) → Splits (sum_by f xs) (pick i xs)
  unfolding pick
  Splits-pick i [] = tt
  Splits-pick zero (x ∷ xs) = refl
  Splits-pick (suc i) (x ∷ xs) = Splits-cons x _ (pick i xs) (Splits-pick i xs)

  -- What is picked out of a list is missing from the sum over the others.
  pub sum_by-pick :
      (i : ℕ) (xs : List A) (x : A) (ys : List A)
      → pick i xs ≡ some (x, ys)
      → sum_by f xs ≡ f x + sum_by f ys
  sum_by-pick i xs x ys e = subst (Splits (sum_by f xs)) e (Splits-pick i xs)
