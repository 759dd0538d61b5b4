-- ===== src/NumberMap/Laws.antt =====
-- Lookup, membership and the counting of numbers below a bound.
use orpal.Base.{
  none, some, Any, ◌⊎◌, ℕ, true, List, [], ◌∷◌, eqb, leb, if◌then◌else◌, ◌≡◌, refl, arith, All,
  Bool-cases, inl, inr,
}
use orpal.NumberMap.{
  get, delete, NumberMap, contains, add, IsDistinct, has, set, sorted_entries, insert_entry,
}

pub contains-add :
    (k j : ℕ) (s : List ℕ) → contains j (add k s) ≡ (if eqb k j then true else contains j s)
unfolding contains add
contains-add k j [] = refl
contains-add k j (i ∷ s) = ground (arith, contains-add k j s)

pub add-IsDistinct : (k : ℕ) (s : List ℕ) → IsDistinct s → IsDistinct (add k s)
unfolding contains add
add-IsDistinct k [] d = (refl, tt)
add-IsDistinct k (j ∷ s) d = ground (arith, add-IsDistinct k s, contains-add k j s)

pub All-add : (P : ℕ → Type 0) (k : ℕ) (s : List ℕ) → P k → All P s → All P (add k s)
unfolding add
All-add P k [] p h = (p, tt)
All-add P k (j ∷ s) p h = elim (Bool-cases (eqb j k)) [
  | inl same ↦ rw (same, add) h
  | inr apart ↦ rw (apart, add) (h.0, All-add P k s p h.1)
]

module _ {ℓ} {V : Type ℓ} where
  pub get-set :
      (k j : ℕ) (v : V) (m : NumberMap V)
      → get j (set k v m) ≡ (if eqb k j then some v else get j m)
  unfolding get set
  get-set k j v [] = refl
  get-set k j v ((i, w) ∷ m) = ground (arith, get-set k j v m)

  pub get-delete :
      (k j : ℕ) (m : NumberMap V) → get j (delete k m) ≡ (if eqb k j then none else get j m)
  unfolding get delete
  get-delete k j [] = ground arith
  get-delete k j ((i, w) ∷ m) = ground (arith, get-delete k j m)

  pub has-set :
      (k j : ℕ) (v : V) (m : NumberMap V) → has j (set k v m) ≡ (if eqb k j then true else has j m)
  unfolding has set
  has-set k j v [] = refl
  has-set k j v ((i, w) ∷ m) = ground (arith, has-set k j v m)

  All-insert_entry :
      (P : ℕ × V → Type 0) (e : ℕ × V) (m : NumberMap V) → P e → All P m → All P (insert_entry e m)
  unfolding insert_entry
  All-insert_entry P (k, v) [] p h = (p, tt)
  All-insert_entry P (k, v) ((j, w) ∷ m) p h = elim (Bool-cases (leb k j)) [
    | inl le ↦ rw (le, insert_entry) (p, h)
    | inr gt ↦ rw (gt, insert_entry) (h.0, All-insert_entry P (k, v) m p h.1)
  ]

  -- Sorting keeps what holds of every entry.
  pub All-sorted_entries :
      (P : ℕ × V → Type 0) (m : NumberMap V) → All P m → All P (sorted_entries m)
  unfolding sorted_entries
  All-sorted_entries P [] h = tt
  All-sorted_entries P (e ∷ m) h = All-insert_entry P e _ h.0 (All-sorted_entries P m h.1)

  Any-insert_entry :
      (P : ℕ × V → Type 0) (e : ℕ × V) (m : NumberMap V) → P e ⊎ Any P m → Any P (insert_entry e m)
  unfolding insert_entry
  Any-insert_entry P (k, v) [] h = h
  Any-insert_entry P (k, v) ((j, w) ∷ m) h = elim (Bool-cases (leb k j)) [
    | inl le ↦ rw (le, insert_entry) h
    | inr gt ↦
        rw (gt, insert_entry)
          (elim h [
            | inl p ↦ inr (Any-insert_entry P (k, v) m (inl p))
            | inr (inl q) ↦ inl q
            | inr (inr q) ↦ inr (Any-insert_entry P (k, v) m (inr q))
          ])
  ]

  -- Sorting keeps what holds of some entry.
  pub Any-sorted_entries :
      (P : ℕ × V → Type 0) (m : NumberMap V) → Any P m → Any P (sorted_entries m)
  unfolding sorted_entries
  Any-sorted_entries P [] h = h
  Any-sorted_entries P (e ∷ m) (inl h) = Any-insert_entry P e _ (inl h)
  Any-sorted_entries P (e ∷ m) (inr h) = Any-insert_entry P e _ (inr (Any-sorted_entries P m h))

  pub All-set :
      (P : ℕ × V → Type 0) (k : ℕ) (v : V) (m : NumberMap V)
      → ((j : ℕ) → eqb j k ≡ true → P (j, v))
      → P (k, v)
      → All P m
      → All P (set k v m)
  unfolding set
  All-set P k v [] f p h = (p, tt)
  All-set P k v ((j, w) ∷ m) f p (h, hs) = elim (Bool-cases (eqb j k)) [
    | inl same ↦ rw (same, set) (f j same, hs)
    | inr apart ↦ rw (apart, set) (h, All-set P k v m f p hs)
  ]
