-- ===== src/Dict/Laws.antt =====
-- The laws of the map, in the form of a conditional, and what its value list holds.
use orpal.Base.{
  true, false, String, [], ◌∷◌, ◌≡◌, refl, none, some, arith, ◌==◌, eq_iff, if◌then◌else◌, inl, inr,
  Bool-cases,
}
use orpal.Dict.{Dict, get, has, set, delete, IsDistinct}

module _ {ℓ} {V : Type ℓ} where
  pub get-set :
      (k j : String) (v : V) (m : Dict V) → get j (set k v m) ≡ (if k == j then some v else get j m)
  unfolding get set
  get-set k j v [] = refl
  get-set k j v ((i, w) ∷ m) = ground (arith, eq_iff k j, eq_iff i k, eq_iff i j, get-set k j v m)

  pub get-delete :
      (k j : String) (m : Dict V) → get j (delete k m) ≡ (if k == j then none else get j m)
  unfolding get delete
  get-delete k j [] = ground arith
  get-delete k j ((i, w) ∷ m) = ground (arith, eq_iff k j, eq_iff i k, eq_iff i j, get-delete k j m)

  pub has-set :
      (k j : String) (v : V) (m : Dict V) → has j (set k v m) ≡ (if k == j then true else has j m)
  unfolding has set
  has-set k j v [] = refl
  has-set k j v ((i, w) ∷ m) = ground (arith, eq_iff k j, eq_iff i k, eq_iff i j, has-set k j v m)

  pub has-delete :
      (k j : String) (m : Dict V) → has j (delete k m) ≡ (if k == j then false else has j m)
  unfolding has delete
  has-delete k j [] = ground arith
  has-delete k j ((i, w) ∷ m) = ground (arith, eq_iff k j, eq_iff i k, eq_iff i j, has-delete k j m)

  -- `has` is whether `get` finds a value.
  pub get-eq-none : (k : String) (m : Dict V) → has k m ≡ false → get k m ≡ none
  unfolding get has
  get-eq-none k [] h = refl
  get-eq-none k ((i, w) ∷ m) h = ground (arith, get-eq-none k m)

  pub has_of_get : (k : String) (m : Dict V) (v : V) → get k m ≡ some v → has k m ≡ true
  unfolding get has
  has_of_get k ((i, w) ∷ m) v h = ground (arith, has_of_get k m v)
  has_of_get k [] v h = ground arith

  pub get_of_has : (k : String) (m : Dict V) → has k m ≡ true → (v : V) × (get k m ≡ some v)
  unfolding get has
  get_of_has k [] h = ground arith
  get_of_has k ((i, w) ∷ m) h = elim (Bool-cases (i == k)) [
    | inl same ↦ (w, ground arith)
    | inr apart ↦ let (v, found) = get_of_has k m (ground arith) in (v, ground arith)
  ]

  pub set-IsDistinct : (k : String) (v : V) (m : Dict V) → IsDistinct m → IsDistinct (set k v m)
  unfolding set has
  set-IsDistinct k v [] d = ground arith
  set-IsDistinct k v ((i, w) ∷ m) d =
      ground (arith, eq_iff i k, eq_iff k i, has-set k i v m, set-IsDistinct k v m)

  pub delete-IsDistinct : (k : String) (m : Dict V) → IsDistinct m → IsDistinct (delete k m)
  unfolding delete
  delete-IsDistinct k [] d = tt
  delete-IsDistinct k ((i, w) ∷ m) d = ground (arith, has-delete k i m, delete-IsDistinct k m)

  pub delete_absent : (k : String) (m : Dict V) → has k m ≡ false → delete k m ≡ m
  unfolding delete has
  delete_absent k [] h = refl
  delete_absent k ((i, w) ∷ m) h = ground (arith, delete_absent k m)
