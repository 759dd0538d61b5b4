-- ===== src/FileTransfer/Reassembly.antt =====
-- Chunks written at their offsets in any order, and more than once, give the file back.
use orpal.Base.{
  ℕ, zero, suc, ◌+◌, ◌-◌, ◌≤◌, ◌<◌, ◌≡◌, refl, ◌∙◌, ap, [], ◌∷◌, some, at, length, arith, ◌>>=◌,
  leb, Bool-cases, inl, inr, ◌⊎◌, All, Any,
}
use orpal.NumberMap.{NumberMap}
use orpal.FileTransfer.{Bytes}
use orpal.FileTransfer.Sink.{put_at, put_all}

-- What `put_at` gives where the bytes fit: they stand at their offset, and all else is as before.
record Placed (offset : ℕ) (bytes out : Bytes) : Type 0 where
  result : Bytes
  gives : put_at offset bytes out ≡ some result
  same_length : length result ≡ length out
  before : (p : ℕ) → p < offset → at p result ≡ at p out
  within : (q : ℕ) → q < length bytes → at (offset + q) result ≡ at q bytes
  behind : (p : ℕ) → offset + length bytes ≤ p → at p result ≡ at p out

at_eq : (p q : ℕ) (xs : Bytes) → p ≡ q → at p xs ≡ at q xs
at_eq p q xs e = ap (λ (k : ℕ). at k xs) e

put_at-Placed : (n : ℕ) (bytes out : Bytes) → n + length bytes ≤ length out → Placed n bytes out
unfolding put_at
put_at-Placed zero [] out h = record {
  result = out;
  gives = refl;
  same_length = refl;
  before = λ p l. refl;
  within = λ q l. absurd (omega arith);
  behind = λ p l. refl;
}
put_at-Placed zero (b ∷ bytes) [] h = absurd (omega arith)
put_at-Placed zero (b ∷ bytes) (o ∷ out) h =
    let r : Placed 0 bytes out = put_at-Placed 0 bytes out (omega arith) in
    record {
      result = b ∷ r.result;
      gives = ap (λ x. x >>= λ rest. some (b ∷ rest)) r.gives;
      same_length = ap suc r.same_length;
      before = λ p l. absurd (omega arith);
      within = within_cons r;
      behind = behind_cons r;
    }
  where
    within_cons :
        (r : Placed 0 bytes out) (q : ℕ)
        → q < suc (length bytes)
        → at (0 + q) (b ∷ r.result) ≡ at q (b ∷ bytes)
    within_cons r zero l = refl
    within_cons r (suc q) l =
        at_eq (0 + suc q) (suc q) (b ∷ r.result) (omega arith)
        ∙ (at_eq (q) (0 + q) r.result (omega arith) ∙ r.within q (omega arith))

    behind_cons :
        (r : Placed 0 bytes out) (p : ℕ)
        → 0 + suc (length bytes) ≤ p
        → at p (b ∷ r.result) ≡ at p (o ∷ out)
    behind_cons r zero l = absurd (omega arith)
    behind_cons r (suc p) l = r.behind p (omega arith)
put_at-Placed (suc n) bytes [] h = absurd (omega arith)
put_at-Placed (suc n) bytes (o ∷ out) h =
    let r : Placed n bytes out = put_at-Placed n bytes out (omega arith) in
    record {
      result = o ∷ r.result;
      gives = ap (λ x. x >>= λ rest. some (o ∷ rest)) r.gives;
      same_length = ap suc r.same_length;
      before = before_cons r;
      within = λ q l. at_eq (suc n + q) (suc (n + q)) (o ∷ r.result) (omega arith) ∙ r.within q l;
      behind = behind_cons r;
    }
  where
    before_cons :
        (r : Placed n bytes out) (p : ℕ) → p < suc n → at p (o ∷ r.result) ≡ at p (o ∷ out)
    before_cons r zero l = refl
    before_cons r (suc p) l = r.before p (omega arith)

    behind_cons :
        (r : Placed n bytes out) (p : ℕ)
        → suc n + length bytes ≤ p
        → at p (o ∷ r.result) ≡ at p (o ∷ out)
    behind_cons r zero l = absurd (omega arith)
    behind_cons r (suc p) l = r.behind p (omega arith)

-- The bytes stand at the offset in the file.
abbrev pub IsPart : Bytes → ℕ × Bytes → Type 0
IsPart file (offset, bytes) =
    (offset + length bytes ≤ length file)
    × ((q : ℕ) → q < length bytes → at q bytes ≡ at (offset + q) file)

-- The place lies in the part.
abbrev pub Reaches : ℕ → ℕ × Bytes → Type 0
Reaches p (offset, bytes) = (offset ≤ p) × (p < offset + length bytes)

-- Parts of the file put anywhere over a buffer of its length make it right where they reach, and
-- leave it right where it was.
pub put_all-right :
    (file : Bytes) (parts : NumberMap Bytes) (out : Bytes)
    → All (IsPart file) parts
    → length out ≡ length file
    → (result : Bytes) × (put_all parts out ≡ some result)
      × (length result ≡ length file)
      × ((p : ℕ) → (at p out ≡ at p file) ⊎ Any (Reaches p) parts → at p result ≡ at p file)
unfolding put_all
put_all-right file [] out h e = (out, refl, e, λ p c. elim c [ inl a ↦ a | inr a ↦ absurd a ])
put_all-right file ((offset, bytes) ∷ parts) out ((fits, agrees), h) e =
    let r : Placed offset bytes out = put_at-Placed offset bytes out (omega arith) in
    let (result, gives, len, right) = put_all-right file parts r.result h (r.same_length ∙ e) in
    (result, ap (λ x. x >>= put_all parts) r.gives ∙ gives, len, λ p c. right p (first r p c))
  where
    reached :
        (r : Placed offset bytes out) (p : ℕ)
        → Reaches p (offset, bytes)
        → at p r.result ≡ at p file
    reached r p (from, to) =
        at_eq p (offset + (p - offset)) r.result (omega arith)
        ∙ (r.within (p - offset) (omega arith)
            ∙ (agrees (p - offset) (omega arith)
                ∙ at_eq (offset + (p - offset)) p file (omega arith)))

    first :
        (r : Placed offset bytes out) (p : ℕ)
        → (at p out ≡ at p file) ⊎ Any (Reaches p) ((offset, bytes) ∷ parts)
        → (at p r.result ≡ at p file) ⊎ Any (Reaches p) parts
    first r p (inr (inr c)) = inr c
    first r p (inr (inl c)) = inl (reached r p c)
    first r p (inl a) = elim (Bool-cases (leb (suc p) offset)) [
      | inl le ↦ inl (r.before p (ground arith) ∙ a)
      | inr gt ↦ elim (Bool-cases (leb (offset + length bytes) p)) [
        | inl past ↦ inl (r.behind p (ground arith) ∙ a)
        | inr ahead ↦ inl (reached r p (ground arith, ground arith))
      ]
    ]
