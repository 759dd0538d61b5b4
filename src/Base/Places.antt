-- ===== src/Base/Places.antt =====
-- The item at a place of a list, and lists that agree at every place.
use Prim.Native.Nat.{ℕ, zero, suc, ◌+◌, ◌-◌, ◌≤◌, ◌<◌, min}
use mathlib.Core.Path.{◌≡◌, refl, ap, sym, ◌∙◌}
use mathlib.Core.List.{List, [], ◌∷◌}
use mathlib.Core.Option.{Option, none, some, some-injective, none-ne-some}
use native.Mathlib.Omega.{arith}
use orpal.Base.Lists.{length, take, drop}

module _ {ℓ} {A : Type ℓ} where
  abbrev pub at : ℕ → List A → Option A
  at p [] = none
  at zero (x ∷ xs) = some x
  at (suc p) (x ∷ xs) = at p xs

  pub at-ext : (xs ys : List A) → ((p : ℕ) → at p xs ≡ at p ys) → xs ≡ ys
  at-ext [] [] h = refl
  at-ext [] (y ∷ ys) h = absurd (none-ne-some y (h 0))
  at-ext (x ∷ xs) [] h = absurd (none-ne-some x (sym (h 0)))
  at-ext (x ∷ xs) (y ∷ ys) h =
      ap (λ z. z ∷ xs) (some-injective _ _ (h 0))
      ∙ ap (λ zs. y ∷ zs) (at-ext xs ys (λ p. h (suc p)))

  pub at-beyond : (p : ℕ) (xs : List A) → length xs ≤ p → at p xs ≡ none
  at-beyond p [] h = refl
  at-beyond zero (x ∷ xs) h = absurd (omega arith)
  at-beyond (suc p) (x ∷ xs) h = at-beyond p xs (omega arith)

  pub at-drop : (n p : ℕ) (xs : List A) → at p (drop n xs) ≡ at (n + p) xs
  at-drop zero p xs = ap (λ (k : ℕ). at k xs) (omega arith)
  at-drop (suc n) p [] = refl
  at-drop (suc n) p (x ∷ xs) =
      let e : suc (n + p) ≡ suc n + p = omega arith in
      at-drop n p xs ∙ ap (λ (k : ℕ). at k (x ∷ xs)) e

  pub at-take : (n p : ℕ) (xs : List A) → p < n → at p (take n xs) ≡ at p xs
  at-take zero p xs h = absurd (omega arith)
  at-take (suc n) p [] h = refl
  at-take (suc n) zero (x ∷ xs) h = refl
  at-take (suc n) (suc p) (x ∷ xs) h = at-take n p xs (omega arith)

  pub length-take : (n : ℕ) (xs : List A) → length (take n xs) ≡ min n (length xs)
  length-take zero xs = omega arith
  length-take (suc n) [] = omega arith
  length-take (suc n) (x ∷ xs) = omega (arith, length-take n xs)

  pub length-drop : (n : ℕ) (xs : List A) → length (drop n xs) ≡ length xs - n
  length-drop zero xs = omega arith
  length-drop (suc n) [] = omega arith
  length-drop (suc n) (x ∷ xs) = omega (arith, length-drop n xs)
