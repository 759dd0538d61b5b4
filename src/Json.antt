-- ===== src/Json.antt =====
-- The values of JSON, as `JSON.parse` makes them and `JSON.stringify` reads them. Numbers are the
-- naturals. The fields of an object stand in their order; a program's lookup of an absent one is
-- `undefined`, here `none`.
use mathlib.Core.Option.{some-injective, none-ne-some}
use orpal.Base.{
  ap, refl, ◌≡◌, ℕ, String, Bool, true, false, Option, none, some, ◌==◌, if◌then◌else◌, ◌>>=◌,
}

mutual
  pub data Json : Type 0 where
    null : Json
    boolean : Bool → Json
    number : ℕ → Json
    text : String → Json
    array : Elements → Json
    object : Fields → Json

  pub data Elements : Type 0 where
    nil : Elements
    cons : Json → Elements → Elements

  pub data Fields : Type 0 where
    end : Fields
    field : String → Json → Fields → Fields

unfoldable pub lookup : String → Fields → Option Json
lookup k end = none
lookup k (field j v fs) = if j == k then some v else lookup k fs

-- `typeof v === "string" ? v : nothing`, and so on.
abbrev pub as_text : Json → Option String
as_text (text s) = some s
as_text _ = none

abbrev pub as_number : Json → Option ℕ
as_number (number n) = some n
as_number _ = none

-- `typeof v === "object" && v !== null`, which an array meets too.
abbrev pub is_record : Json → Bool
is_record (object _) = true
is_record (array _) = true
is_record _ = false

abbrev pub as_record : Json → Option Json
as_record v = if is_record v then some v else none

abbrev pub text_at : String → Fields → Option String
text_at k fs = lookup k fs >>= as_text

abbrev pub number_at : String → Fields → Option ℕ
number_at k fs = lookup k fs >>= as_number

abbrev pub record_at : String → Fields → Option Json
record_at k fs = lookup k fs >>= as_record

as_text-of : (o : Option Json) (s : String) → (o >>= as_text) ≡ some s → o ≡ some (text s)
as_text-of (some null) s e = absurd (none-ne-some s e)
as_text-of (some (boolean b)) s e = absurd (none-ne-some s e)
as_text-of (some (number n)) s e = absurd (none-ne-some s e)
as_text-of (some (text t)) s e = ap (λ t. some (text t)) (some-injective _ _ e)
as_text-of (some (array a)) s e = absurd (none-ne-some s e)
as_text-of (some (object a)) s e = absurd (none-ne-some s e)
as_text-of none s e = absurd (none-ne-some s e)

as_number-of : (o : Option Json) (s : ℕ) → (o >>= as_number) ≡ some s → o ≡ some (number s)
as_number-of (some null) s e = absurd (none-ne-some s e)
as_number-of (some (boolean b)) s e = absurd (none-ne-some s e)
as_number-of (some (number n)) s e = ap (λ t. some (number t)) (some-injective _ _ e)
as_number-of (some (text t)) s e = absurd (none-ne-some s e)
as_number-of (some (array a)) s e = absurd (none-ne-some s e)
as_number-of (some (object a)) s e = absurd (none-ne-some s e)
as_number-of none s e = absurd (none-ne-some s e)

as_record-of :
    (o : Option Json) (v : Json) → (o >>= as_record) ≡ some v → (o ≡ some v) × (is_record v ≡ true)
as_record-of (some null) v e = absurd (none-ne-some v e)
as_record-of (some (boolean b)) v e = absurd (none-ne-some v e)
as_record-of (some (number n)) v e = absurd (none-ne-some v e)
as_record-of (some (text t)) v e = absurd (none-ne-some v e)
as_record-of (some (array a)) v e = (e, rw (← some-injective _ _ e) refl)
as_record-of (some (object a)) v e = (e, rw (← some-injective _ _ e) refl)
as_record-of none v e = absurd (none-ne-some v e)

-- A field that is read off an object as a text, a number or a record is there as one.
module _ (k : String) (fs : Fields) where
  pub text_at-lookup : (s : String) → text_at k fs ≡ some s → lookup k fs ≡ some (text s)
  text_at-lookup s e = as_text-of (lookup k fs) s e

  pub number_at-lookup : (n : ℕ) → number_at k fs ≡ some n → lookup k fs ≡ some (number n)
  number_at-lookup n e = as_number-of (lookup k fs) n e

  pub record_at-lookup :
      (v : Json) → record_at k fs ≡ some v → (lookup k fs ≡ some v) × (is_record v ≡ true)
  record_at-lookup v e = as_record-of (lookup k fs) v e
