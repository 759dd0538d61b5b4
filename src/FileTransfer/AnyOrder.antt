-- ===== src/FileTransfer/AnyOrder.antt =====
-- The sink's parts, when every write is of a chunk of one file.
use native.Mathlib.Nat.{mul-div-le, lt-mul-div-succ, mul-lt-mul_of_pos_right, mul-le-mul_right}
use orpal.Base.{
  ℕ, zero, suc, ◌+◌, ◌-◌, ◌*◌, ◌≤◌, ◌<◌, ◌≡◌, refl, ◌∙◌, ap, List, [], ◌∷◌, at-take, at-drop,
  length-take, length-drop, length, drop, arith, eqb, Bool-cases, inl, inr, min, if◌then◌else◌, ltb,
}
use orpal.NumberMap.{NumberMap, contains, add, IsDistinct, has, set}
use orpal.NumberMap.Laws.{add-IsDistinct}
use orpal.NumberMap.Count.{total_of, total_below}
use orpal.FileTransfer.{Bytes, chunk, chunk_count, read_chunk}
use orpal.FileTransfer.Sink.{Sink, write_chunk}
use orpal.FileTransfer.Reassembly.{IsPart}

-- The chunks are just enough to cover the file.
pub chunk_count-bounds :
    (size n : ℕ) → 0 < n → (chunk_count size n * n < size + n) × (size ≤ chunk_count size n * n)
unfolding chunk_count
chunk_count-bounds zero n pos = (omega arith, omega arith)
chunk_count-bounds (suc size) n pos =
    let le = mul-div-le (suc size + n - 1) n in
    let lt = lt-mul-div-succ (suc size + n - 1) pos in (grind arith, grind arith)

-- The parts that the chunks with these indices make.
abbrev pub parts_of : ℕ → Bytes → List ℕ → NumberMap Bytes
parts_of size file [] = []
parts_of size file (i ∷ w) = (i * size, chunk size file i) ∷ parts_of size file w

module _ (size : ℕ) (file : Bytes) (pos : 0 < size) where
  abbrev pub weight : ℕ → ℕ
  weight i = length (chunk size file i)

  same_offset : (i j : ℕ) → eqb (i * size) (j * size) ≡ eqb i j
  same_offset i j = elim (Bool-cases (ltb i j)) [
    | inl below ↦ let lt : i < j = ground arith in ground (arith, mul-lt-mul_of_pos_right lt pos)
    | inr not_below ↦ elim (Bool-cases (ltb j i)) [
      | inl above ↦ let lt : j < i = ground arith in ground (arith, mul-lt-mul_of_pos_right lt pos)
      | inr not_above ↦ let e : i ≡ j = ground arith in ground (arith, ap (λ (k : ℕ). k * size) e)
    ]
  ]

  has-parts_of : (i : ℕ) (w : List ℕ) → has (i * size) (parts_of size file w) ≡ contains i w
  unfolding has contains
  has-parts_of i [] = refl
  has-parts_of i (j ∷ w) = ground (arith, same_offset j i, has-parts_of i w)

  set-parts_of :
      (i : ℕ) (w : List ℕ)
      → set (i * size) (chunk size file i) (parts_of size file w) ≡ parts_of size file (add i w)
  unfolding set add
  set-parts_of i [] = refl
  set-parts_of i (j ∷ w) = elim (Bool-cases (eqb j i)) [
    | inl same ↦
        let e : i ≡ j = ground arith in
        simp (same_offset j i, same)
          (ap (λ k. (j * size, chunk size file k) ∷ parts_of size file w) e)
    | inr apart ↦
        simp (same_offset j i, apart)
          (ap (λ m. (j * size, chunk size file j) ∷ m) (set-parts_of i w))
  ]

  total_of-add :
      (f : ℕ → ℕ) (i : ℕ) (w : List ℕ)
      → total_of f (add i w) ≡ (if contains i w then total_of f w else total_of f w + f i)
  unfolding contains add
  total_of-add f i [] = omega arith
  total_of-add f i (j ∷ w) = ground (arith, total_of-add f i w)

  -- The sink holds the chunks with the indices, each once.
  pub record Holds (w : List ℕ) (s : Sink) : Type 0 where
    pub parts : s.parts ≡ parts_of size file w
    pub total : s.total ≡ total_of weight w
    pub distinct : IsDistinct w

  pub write_chunk-Holds :
      (i : ℕ) (w : List ℕ) (s : Sink)
      → Holds w s
      → Holds (add i w) (write_chunk (i * size) (chunk size file i) s)
  unfolding write_chunk
  write_chunk-Holds i w s h =
      let known : has (i * size) s.parts ≡ contains i w =
        ap (has (i * size)) h.parts ∙ has-parts_of i w in
      record {
        parts = ap (λ p. set (i * size) (chunk size file i) p) h.parts ∙ set-parts_of i w;
        total = ground (arith, total_of-add weight i w);
        distinct = add-IsDistinct i w h.distinct;
      }

  pub chunk-length : (i : ℕ) → weight i ≡ min size (length file - i * size)
  unfolding chunk read_chunk
  chunk-length i = omega (
    arith,
    length-take (min size (length file - i * size)) (drop (i * size) file),
    length-drop (i * size) file,
  )

  pub chunk-IsPart : (i : ℕ) → i * size ≤ length file → IsPart file (i * size, chunk size file i)
  unfolding chunk read_chunk
  chunk-IsPart i l = (
    omega (arith, chunk-length i),
    λ q h.
        at-take (min size (length file - i * size)) q (drop (i * size) file)
          (omega (arith, chunk-length i))
        ∙ at-drop (i * size) q file,
  )

  pub total-weight : (n : ℕ) → total_below weight n ≡ min (n * size) (length file)
  total-weight zero = omega arith
  total-weight (suc n) = grind (arith, total-weight n, chunk-length n)

  pub starts_within : (i : ℕ) → i < chunk_count (length file) size → i * size < length file
  starts_within i l =
      let bound = chunk_count-bounds (length file) size pos in
      let le = mul-le-mul_right size l in grind arith
