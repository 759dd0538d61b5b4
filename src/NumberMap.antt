-- ===== src/NumberMap.antt =====
-- The `Map<number, V>` and the `Set<number>` of the language, in the order of first insertion.
pub mod Laws
pub mod Count
use orpal.Base.{
  ℕ, Bool, true, false, List, [], ◌∷◌, Option, none, some, eqb, leb, if◌then◌else◌, ◌≡◌,
}

abbrev pub NumberMap {ℓ} : Type ℓ → Type ℓ
NumberMap V = List (ℕ × V)

unfoldable pub contains : ℕ → List ℕ → Bool
contains k [] = false
contains k (j ∷ s) = if eqb j k then true else contains k s

unfoldable pub add : ℕ → List ℕ → List ℕ
add k [] = k ∷ []
add k (j ∷ s) = if eqb j k then j ∷ s else j ∷ add k s

-- No number stands twice, which `add` keeps.
abbrev pub IsDistinct : List ℕ → Type 0
IsDistinct [] = Unit
IsDistinct (j ∷ s) = (contains j s ≡ false) × IsDistinct s

module _ {ℓ} {V : Type ℓ} where
  unfoldable pub get : ℕ → NumberMap V → Option V
  get k [] = none
  get k ((j, v) ∷ m) = if eqb j k then some v else get k m

  unfoldable pub has : ℕ → NumberMap V → Bool
  has k [] = false
  has k ((j, v) ∷ m) = if eqb j k then true else has k m

  unfoldable pub set : ℕ → V → NumberMap V → NumberMap V
  set k v [] = (k, v) ∷ []
  set k v ((j, w) ∷ m) = if eqb j k then (j, v) ∷ m else (j, w) ∷ set k v m

  unfoldable pub delete : ℕ → NumberMap V → NumberMap V
  delete k [] = []
  delete k ((j, v) ∷ m) = let rest = delete k m in if eqb j k then rest else (j, v) ∷ rest

  unfoldable pub insert_entry : ℕ × V → NumberMap V → NumberMap V
  insert_entry (k, v) [] = (k, v) ∷ []
  insert_entry (k, v) ((j, w) ∷ m) =
      if leb k j then (k, v) ∷ (j, w) ∷ m else (j, w) ∷ insert_entry (k, v) m

  -- `[...m.entries()].sort((a, b) => a[0] - b[0])`
  unfoldable pub sorted_entries : NumberMap V → NumberMap V
  unfolding insert_entry
  sorted_entries [] = []
  sorted_entries (e ∷ m) = insert_entry e (sorted_entries m)
