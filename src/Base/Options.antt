-- ===== src/Base/Options.antt =====
-- Chains of computations that may give nothing.
use mathlib.Core.Option.{none-ne-some, Option, none, some}
use mathlib.Core.Path.{◌≡◌, refl, subst, ap}
use orpal.Base.Tests.{if◌then◌else◌}
use mathlib.Core.Bool.{Bool, true, false}

infixl 10 ◌>>=◌ ◌>>◌
abbrev pub ◌>>=◌ {ℓ κ} : {A : Type ℓ} {B : Type κ} → Option A → (A → Option B) → Option B
none >>= f = none
some a >>= f = f a

abbrev pub ◌>>◌ {ℓ κ} : {A : Type ℓ} {B : Type κ} → Option A → Option B → Option B
none >> o = none
some a >> o = o

abbrev pub guard : Bool → Option (Unit {0})
guard true = some tt
guard false = none

abbrev get_or {ℓ} : {A : Type ℓ} → A → Option A → A
get_or d none = d
get_or d (some a) = a

-- What holds of the result where there is one.
abbrev pub Gives {ℓ κ} : {A : Type ℓ} → (A → Type κ) → Option A → Type κ
Gives P none = Unit
Gives P (some a) = P a

module _ {ℓ κ} {B : Type ℓ} (P : B → Type κ) where
  pub Gives-bind {ι} :
      {A : Type ι} (o : Option A) (f : A → Option B)
      → ((a : A) → o ≡ some a → Gives P (f a))
      → Gives P (o >>= f)
  Gives-bind none f h = tt
  Gives-bind (some a) f h = h a refl

  pub Gives-guard : (b : Bool) (o : Option B) → (b ≡ true → Gives P o) → Gives P (guard b >> o)
  Gives-guard true o h = h refl
  Gives-guard false o h = tt

  pub Gives-if :
      (b : Bool) (o p : Option B)
      → (b ≡ true → Gives P o)
      → (b ≡ false → Gives P p)
      → Gives P (if b then o else p)
  Gives-if true o p h k = h refl
  Gives-if false o p h k = k refl

  pub Gives-some : (o : Option B) (b : B) → Gives P o → o ≡ some b → P b
  Gives-some (some a) b h e = subst P (ap (get_or a) e) h
  Gives-some none b h e = absurd (none-ne-some b e)
