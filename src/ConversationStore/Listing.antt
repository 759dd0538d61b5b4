-- ===== src/ConversationStore/Listing.antt =====
-- The steps of `listMessages`: what the filters let through, the stable sort, and the cut at the limit.
use mathlib.Core.List.{Perm}
use mathlib.Core.List.Perm
use orpal.Base.{
  take, drop, length, List, ◌∷◌, refl, inr, ◌⊎◌, leb, ap, none, inl, ◌++◌, arith, ◌==◌, Bool-cases,
  [], ltb, some, ◌&&◌, ◌≡◌, All, String, Option, keep, ℕ, zero, suc, ◌≤◌, Bool, true,
}
use orpal.ConversationStore.{
  older_than, StoredMessage, ListMessagesOptions, insert_newest, newest_first,
}

-- Newest first.
abbrev pub IsSorted : List StoredMessage → Type 0
IsSorted [] = Unit {0}
IsSorted (m ∷ rows) = All (λ n. n.ts ≤ m.ts) rows × IsSorted rows

abbrev pub is_before : Option ℕ → StoredMessage → Bool
is_before none m = true
is_before (some t) m = ltb m.ts t

-- The message is older than the cursor, and of the conversation.
abbrev pub is_match : String → ListMessagesOptions → StoredMessage → Bool
is_match key opts m = is_before opts.before m && (m.contact_key == key)

keep-keep :
    (p q : StoredMessage → Bool) (rows : List StoredMessage)
    → keep p (keep q rows) ≡ keep (λ m. p m && q m) rows
unfolding keep
keep-keep p q [] = refl
keep-keep p q (m ∷ rows) = elim (Bool-cases (q m)) [
  | inl own ↦ elim (Bool-cases (p m)) [
    | inl early ↦ simp (keep, own, early) (ap (◌∷◌ m) (keep-keep p q rows))
    | inr late ↦ simp (keep, own, late) (keep-keep p q rows)
  ]
  | inr other ↦ elim (Bool-cases (p m)) [
    | inl early ↦ simp (keep, other, early) (keep-keep p q rows)
    | inr late ↦ simp (keep, other, late) (keep-keep p q rows)
  ]
]

pub older_than-keep :
    (t : Option ℕ) (q : StoredMessage → Bool) (rows : List StoredMessage)
    → older_than t (keep q rows) ≡ keep (λ m. is_before t m && q m) rows
unfolding older_than
older_than-keep none q rows = refl
older_than-keep (some t) q rows = keep-keep (λ m. ltb m.ts t) q rows

insert-Perm :
    (m : StoredMessage) (rows : List StoredMessage) → Perm (insert_newest m rows) (m ∷ rows)
unfolding insert_newest
insert-Perm m [] = Perm.rfl
insert-Perm m (n ∷ rows) = elim (Bool-cases (leb n.ts m.ts)) [
  | inl le ↦ simp le Perm.rfl
  | inr gt ↦ simp gt (Perm.trans (Perm.cons n (insert-Perm m rows)) (Perm.swap m n rows))
]

pub newest_first-Perm : (rows : List StoredMessage) → Perm (newest_first rows) rows
unfolding newest_first
newest_first-Perm [] = Perm.rfl
newest_first-Perm (m ∷ rows) =
    Perm.trans (insert-Perm m (newest_first rows)) (Perm.cons m (newest_first-Perm rows))

module _ (P : StoredMessage → Type 0) where
  insert-All :
      (m : StoredMessage) (rows : List StoredMessage)
      → P m
      → All P rows
      → All P (insert_newest m rows)
  unfolding insert_newest
  insert-All m [] p h = (p, tt)
  insert-All m (n ∷ rows) p (h, hs) = elim (Bool-cases (leb n.ts m.ts)) [
    | inl le ↦ simp le (p, (h, hs))
    | inr gt ↦ simp gt (h, insert-All m rows p hs)
  ]

  take-All : (n : ℕ) (rows : List StoredMessage) → All P rows → All P (take n rows)
  take-All zero rows h = tt
  take-All (suc n) [] h = tt
  take-All (suc n) (m ∷ rows) (h, hs) = (h, take-All n rows hs)

  drop-All : (n : ℕ) (rows : List StoredMessage) → All P rows → All P (drop n rows)
  drop-All zero rows h = h
  drop-All (suc n) [] h = tt
  drop-All (suc n) (m ∷ rows) (h, hs) = drop-All n rows hs

insert-IsSorted :
    (m : StoredMessage) (rows : List StoredMessage)
    → IsSorted rows
    → IsSorted (insert_newest m rows)
unfolding insert_newest
insert-IsSorted m [] s = (tt, tt)
insert-IsSorted m (n ∷ rows) (below, s) = elim (Bool-cases (leb n.ts m.ts)) [
  | inl le ↦ simp le ((ground arith, below_m (ground arith) rows below), (below, s))
  | inr gt ↦
      simp gt (insert-All (λ o. o.ts ≤ n.ts) m rows (ground arith) below, insert-IsSorted m rows s)
]
  where
    below_m :
        n.ts ≤ m.ts
        → (xs : List StoredMessage) → All (λ o. o.ts ≤ n.ts) xs
        → All (λ o. o.ts ≤ m.ts) xs
    below_m le [] h = tt
    below_m le (x ∷ xs) (h, hs) = (omega arith, below_m le xs hs)

pub newest_first-IsSorted : (rows : List StoredMessage) → IsSorted (newest_first rows)
unfolding newest_first
newest_first-IsSorted [] = tt
newest_first-IsSorted (m ∷ rows) =
    insert-IsSorted m (newest_first rows) (newest_first-IsSorted rows)

pub take-IsSorted : (n : ℕ) (rows : List StoredMessage) → IsSorted rows → IsSorted (take n rows)
take-IsSorted zero rows s = tt
take-IsSorted (suc n) [] s = tt
take-IsSorted (suc n) (m ∷ rows) (h, s) =
    (take-All (λ r. r.ts ≤ m.ts) n rows h, take-IsSorted n rows s)

pub take-drop : (n : ℕ) (rows : List StoredMessage) → take n rows ++ drop n rows ≡ rows
take-drop zero rows = refl
take-drop (suc n) [] = refl
take-drop (suc n) (m ∷ rows) = ap (◌∷◌ m) (take-drop n rows)

-- What is cut off is not newer than what is left.
pub drop-newest :
    (n : ℕ) (rows : List StoredMessage)
    → IsSorted rows
    → All (λ r. All (λ m. m.ts ≤ r.ts) (drop n rows)) (take n rows)
drop-newest zero rows s = tt
drop-newest (suc n) [] s = tt
drop-newest (suc n) (x ∷ rows) (below, s) =
    (drop-All (λ m. m.ts ≤ x.ts) n rows below, drop-newest n rows s)

-- Nothing is cut off unless the limit is reached.
pub drop_full :
    (n : ℕ) (rows : List StoredMessage) → (drop n rows ≡ []) ⊎ (length (take n rows) ≡ n)
drop_full zero rows = inr (omega arith)
drop_full (suc n) [] = inl refl
drop_full (suc n) (x ∷ rows) = elim (drop_full n rows) [
  | inl e ↦ inl e
  | inr h ↦ inr (omega (arith, h))
]
