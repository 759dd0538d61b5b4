-- ===== src/FileTransfer/Assembled.antt =====
-- A sink that holds every chunk assembles the file.
use native.Mathlib.Nat.{mul-div-le, lt-mul-div-succ, lt_of_mul-lt-mul_right}
use orpal.Base.{
  String, ◌>>=◌, ℕ, zero, suc, ◌*◌, ◌/◌, ◌≤◌, ◌<◌, ◌≡◌, refl, sym, ◌∙◌, ap, List, [], ◌∷◌, some, at,
  at-ext, at-beyond, length, arith, eqb, ltb, Bool-cases, inl, inr, ◌⊎◌, All, Any, true, subst,
}
use orpal.NumberMap.{contains, add, sorted_entries}
use orpal.NumberMap.Laws.{contains-add, All-add, All-sorted_entries, Any-sorted_entries}
use orpal.NumberMap.Count.{covering-total}
use orpal.FileTransfer.{Bytes, chunk, chunk_count}
use orpal.FileTransfer.Sink.{Sink, write_chunk, assemble, finalize, new_sink, zeros}
use orpal.FileTransfer.Reassembly.{IsPart, Reaches, put_all-right}
use orpal.FileTransfer.AnyOrder.{
  parts_of, Holds, write_chunk-Holds, chunk_count-bounds, chunk-length, chunk-IsPart, total-weight,
  starts_within, weight,
}

length-zeros : (n : ℕ) → length (zeros n) ≡ n
unfolding zeros
length-zeros zero = refl
length-zeros (suc n) = ap suc (length-zeros n)

-- One write of a chunk for each index of the list, in its order.
abbrev pub write_each : ℕ → Bytes → List ℕ → Sink → Sink
write_each size file [] s = s
write_each size file (i ∷ order) s =
    write_each size file order (write_chunk (i * size) (chunk size file i) s)

module _ (size : ℕ) (file : Bytes) (pos : 0 < size) where
  abbrev pub count : ℕ
  count = chunk_count (length file) size

  parts_of-IsPart : (w : List ℕ) → All (λ i. i < count) w → All (IsPart file) (parts_of size file w)
  parts_of-IsPart [] h = tt
  parts_of-IsPart (i ∷ w) (l, h) = (
    chunk-IsPart size file pos i (omega (arith, starts_within size file pos i l)),
    parts_of-IsPart w h,
  )

  parts_of-Reaches :
      (p i : ℕ) (w : List ℕ)
      → Reaches p (i * size, chunk size file i)
      → contains i w ≡ true
      → Any (Reaches p) (parts_of size file w)
  unfolding contains
  parts_of-Reaches p i [] h c = absurd (ground arith)
  parts_of-Reaches p i (j ∷ w) h c = elim (Bool-cases (eqb j i)) [
    | inl same ↦
        let e : i ≡ j = ground arith in
        inl (subst (λ k. Reaches p (k * size, chunk size file k)) e h)
    | inr apart ↦ inr (parts_of-Reaches p i w h (ground arith))
  ]

  -- The chunk that a byte lies in.
  place-Reaches :
      (p : ℕ)
      → p < length file
      → (p / size < count) × Reaches p (p / size * size, chunk size file (p / size))
  place-Reaches p l =
      let le = mul-div-le p size in
      let lt = lt-mul-div-succ p pos in
      let cover = chunk_count-bounds (length file) size pos in
      let inside : p / size * size < count * size = grind arith in
      let len = chunk-length size file pos (p / size) in
      (lt_of_mul-lt-mul_right size inside, (grind arith, grind arith))

  pub assemble-Holds :
      (w : List ℕ) (s : Sink)
      → Holds size file pos w s
      → All (λ i. i < count) w
      → ((i : ℕ) → i < count → contains i w ≡ true)
      → assemble s ≡ some file
  unfolding assemble
  assemble-Holds w s h below every =
      let total : s.total ≡ length file = omega (
        arith,
        h.total,
        covering-total (weight size file pos) count w h.distinct below every,
        total-weight size file pos count,
        chunk_count-bounds (length file) size pos,
      ) in
      let (result, gives, len, right) =
        put_all-right file (sorted_entries s.parts) (zeros s.total)
          (All-sorted_entries (IsPart file) s.parts
            (subst (All (IsPart file)) (sym h.parts) (parts_of-IsPart w below)))
          (length-zeros s.total ∙ total) in
      gives ∙ ap some (at-ext result file (λ p. placed result len right p))
    where
      reached : (p : ℕ) → p < length file → Any (Reaches p) (sorted_entries s.parts)
      reached p l =
          let (i, reach) = place-Reaches p l in
          Any-sorted_entries (Reaches p) s.parts (
            subst (Any (Reaches p)) (sym h.parts)
              (parts_of-Reaches p (p / size) w reach (every (p / size) i)))

      placed :
          (result : Bytes)
          → length result ≡ length file
          → ((p : ℕ)
              → (at p (zeros s.total) ≡ at p file) ⊎ Any (Reaches p) (sorted_entries s.parts)
              → at p result ≡ at p file)
          → (p : ℕ) → at p result ≡ at p file
      placed result len right p = elim (Bool-cases (ltb p (length file))) [
        | inl inside ↦ right p (inr (reached p (ground arith)))
        | inr outside ↦
            let past : length file ≤ p = ground arith in
            at-beyond p result (omega arith) ∙ sym (at-beyond p file past)
      ]

  abbrev add_each : List ℕ → List ℕ → List ℕ
  add_each [] w = w
  add_each (i ∷ order) w = add_each order (add i w)

  write_each-Holds :
      (order w : List ℕ) (s : Sink)
      → Holds size file pos w s
      → Holds size file pos (add_each order w) (write_each size file order s)
  write_each-Holds [] w s h = h
  write_each-Holds (i ∷ order) w s h =
      write_each-Holds order (add i w) _ (write_chunk-Holds size file pos i w s h)

  add_each-below :
      (order w : List ℕ)
      → All (λ i. i < count) order
      → All (λ i. i < count) w
      → All (λ i. i < count) (add_each order w)
  add_each-below [] w h k = k
  add_each-below (i ∷ order) w (l, h) k =
      add_each-below order (add i w) h (All-add (λ j. j < count) i w l k)

  contains-add_each :
      (i : ℕ) (order w : List ℕ)
      → (contains i order ≡ true) ⊎ (contains i w ≡ true)
      → contains i (add_each order w) ≡ true
  unfolding contains
  contains-add_each i [] w (inl c) = absurd (ground arith)
  contains-add_each i [] w (inr c) = c
  contains-add_each i (j ∷ order) w c =
      contains-add_each i order (add j w) (ground (arith, contains-add j i w))

assemble-write_each :
    (size : ℕ) (file : Bytes) (order : List ℕ) (pos : 0 < size)
    → All (λ i. i < chunk_count (length file) size) order
    → ((i : ℕ) → i < chunk_count (length file) size → contains i order ≡ true)
    → assemble (write_each size file order new_sink) ≡ some file
assemble-write_each size file order pos below every =
    assemble-Holds size file pos (add_each size file pos order []) _
      (write_each-Holds size file pos order [] new_sink
        (record { parts = refl; total = refl; distinct = tt }))
      (add_each-below size file pos order [] below tt)
      (λ i l. contains-add_each size file pos i order [] (inl (every i l)))

-- The chunks of a file, written in any order and any number of times, each at least once and none
-- beyond the last, are finalized to exactly the file and its hash, for every positive chunk size.
pub finalize-write_each :
    (hash : Bytes → String) (size : ℕ) (file : Bytes) (order : List ℕ) (pos : 0 < size)
    → All (λ i. i < chunk_count (length file) size) order
    → ((i : ℕ) → i < chunk_count (length file) size → contains i order ≡ true)
    → finalize hash (write_each size file order new_sink)
      ≡ some (hash file, record (write_each size file order new_sink) { assembled = some file })
unfolding finalize
finalize-write_each hash size file order pos below every =
    ap
      (λ o. o >>= λ out.
        some (hash out, record (write_each size file order new_sink) { assembled = some out }))
      (assemble-write_each size file order pos below every)
