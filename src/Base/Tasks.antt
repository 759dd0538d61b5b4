-- ===== src/Base/Tasks.antt =====
-- What is under way in a class whose methods await: one of several tasks goes on at a time.
use Prim.Native.Nat.{ℕ, zero, suc}
use mathlib.Core.Path.{◌≡◌, subst}
use mathlib.Core.List.{List, [], ◌∷◌}
use mathlib.Core.Logic.{◌⊎◌, inl, inr}
use mathlib.Core.Option.{Option, none, some}
use orpal.Base.Lists.{All, Any}

-- The task at a place, and the others.
unfoldable pub pick {ℓ} : {A : Type ℓ} → ℕ → List A → Option (A × List A)
pick i [] = none
pick zero (t ∷ ts) = some (t, ts)
pick (suc i) (t ∷ ts) = elim (pick i ts) [ none ↦ none | some (u, us) ↦ some (u, t ∷ us) ]

module _ {ℓ} {A : Type ℓ} (P : A → Type 0) where
  abbrev AnySplit : Option (A × List A) → Type 0
  AnySplit none = Unit {0}
  AnySplit (some (t, us)) = P t ⊎ Any P us

  AnySplit-cons :
      (x : A) (o : Option (A × List A))
      → P x ⊎ AnySplit o
      → AnySplit (elim o [ none ↦ none | some (u, us) ↦ some (u, x ∷ us) ])
  AnySplit-cons x none h = tt
  AnySplit-cons x (some (u, us)) (inl h) = inr (inl h)
  AnySplit-cons x (some (u, us)) (inr (inl h)) = inl h
  AnySplit-cons x (some (u, us)) (inr (inr h)) = inr (inr h)

  AnySplit-pick : (i : ℕ) (ts : List A) → Any P ts → AnySplit (pick i ts)
  unfolding pick
  AnySplit-pick i [] h = absurd h
  AnySplit-pick zero (x ∷ ts) h = h
  AnySplit-pick (suc i) (x ∷ ts) (inl h) = AnySplit-cons x (pick i ts) (inl h)
  AnySplit-pick (suc i) (x ∷ ts) (inr h) = AnySplit-cons x (pick i ts) (inr (AnySplit-pick i ts h))

  pub Any-pick :
      (i : ℕ) (ts : List A) (t : A) (us : List A)
      → pick i ts ≡ some (t, us)
      → Any P ts
      → P t ⊎ Any P us
  Any-pick i ts t us e h = subst AnySplit e (AnySplit-pick i ts h)

  abbrev AllSplit : Option (A × List A) → Type 0
  AllSplit none = Unit {0}
  AllSplit (some (t, us)) = P t × All P us

  AllSplit-cons :
      (x : A) (o : Option (A × List A))
      → P x
      → AllSplit o
      → AllSplit (elim o [ none ↦ none | some (u, us) ↦ some (u, x ∷ us) ])
  AllSplit-cons x none p h = tt
  AllSplit-cons x (some (u, us)) p h = (h.0, (p, h.1))

  AllSplit-pick : (i : ℕ) (ts : List A) → All P ts → AllSplit (pick i ts)
  unfolding pick
  AllSplit-pick i [] h = tt
  AllSplit-pick zero (x ∷ ts) h = h
  AllSplit-pick (suc i) (x ∷ ts) h = AllSplit-cons x (pick i ts) h.0 (AllSplit-pick i ts h.1)

  pub All-pick :
      (i : ℕ) (ts : List A) (t : A) (us : List A)
      → pick i ts ≡ some (t, us)
      → All P ts
      → P t × All P us
  All-pick i ts t us e h = subst AllSplit e (AllSplit-pick i ts h)
