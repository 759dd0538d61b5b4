-- ===== src/FileTransfer/Receiver/Heap.antt =====
-- The objects of the receiver, replaced one at a time.
use orpal.Base.{
  ℕ, zero, suc, ◌≤◌, ◌<◌, List, [], ◌∷◌, ◌++◌, Option, none, some, ◌≡◌, refl, sym, ap, ◌∙◌, subst,
  length, at, arith, Option-cases, inl, inr, ◌⊎◌, All, String, length-append,
}
use mathlib.Core.Option.{some-injective, none-ne-some}
use orpal.Dict
use orpal.NumberMap
use orpal.NumberMap.{NumberMap}
use orpal.FileTransfer.{Bytes}
use orpal.FileTransfer.Receiver.{
  Receiver, ReceivingFile, Task, creating, flushing, writing, finalizing, aborting, put, find,
}

-- The indices received are distinct and below the offered count, and so are those of the buffer.
pub record FileOk (f : ReceivingFile) : Type 0 where
  pub distinct : NumberMap.IsDistinct f.received
  pub below : All (λ i. i < f.offer.chunks) f.received
  pub buffered : All (λ e. e.0 < f.offer.chunks) f.buffer

abbrev pub HeapOk : List ReceivingFile → Type 0
HeapOk heap = (a : ℕ) (f : ReceivingFile) → at a heap ≡ some f → FileOk f

-- The address is in use, and the index is one of its offer's.
abbrev pub IndexOk : List ReceivingFile → ℕ → ℕ → Type 0
IndexOk heap a i =
    (a < length heap) × ((f : ReceivingFile) → at a heap ≡ some f → i < f.offer.chunks)

abbrev pub TaskOk : List ReceivingFile → Task → Type 0
TaskOk heap (flushing a i bytes rest) = IndexOk heap a i × All (λ e. IndexOk heap a e.0) rest
TaskOk heap (writing a id i bytes) = IndexOk heap a i
TaskOk heap _ = Unit {0}

-- Every object that was there is there with the same offer.
pub record Keeps (heap heap' : List ReceivingFile) : Type 0 where
  pub longer : length heap ≤ length heap'
  pub offers :
      (a : ℕ) (f' : ReceivingFile)
      → at a heap' ≡ some f'
      → a < length heap
      → (f : ReceivingFile) × (at a heap ≡ some f) × (f'.offer ≡ f.offer)

pub IndexOk-Keeps :
    (heap heap' : List ReceivingFile) (a i : ℕ)
    → Keeps heap heap'
    → IndexOk heap a i
    → IndexOk heap' a i
IndexOk-Keeps heap heap' a i k (l, h) = (
  omega (arith, k.longer),
  λ f' e. let (f, was, same) = k.offers a f' e l in subst (λ o. i < o.chunks) (sym same) (h f was),
)

TaskOk-Keeps :
    (heap heap' : List ReceivingFile) (t : Task) → Keeps heap heap' → TaskOk heap t → TaskOk heap' t
TaskOk-Keeps heap heap' (flushing a i bytes rest) k (h, hs) =
    (IndexOk-Keeps heap heap' a i k h, each rest hs)
  where
    each :
        (es : NumberMap Bytes)
        → All (λ e. IndexOk heap a e.0) es
        → All (λ e. IndexOk heap' a e.0) es
    each [] h = tt
    each (e ∷ es) (h, hs) = (IndexOk-Keeps heap heap' a e.0 k h, each es hs)
TaskOk-Keeps heap heap' (writing a id i bytes) k h = IndexOk-Keeps heap heap' a i k h
TaskOk-Keeps heap heap' (creating a) k h = tt
TaskOk-Keeps heap heap' (finalizing a id got) k h = tt
TaskOk-Keeps heap heap' (aborting id) k h = tt

pub tasks-Keeps :
    (heap heap' : List ReceivingFile) (ts : List Task)
    → Keeps heap heap'
    → All (TaskOk heap) ts
    → All (TaskOk heap') ts
tasks-Keeps heap heap' [] k h = tt
tasks-Keeps heap heap' (t ∷ ts) k (h, hs) =
    (TaskOk-Keeps heap heap' t k h, tasks-Keeps heap heap' ts k hs)

length-put :
    (a : ℕ) (f : ReceivingFile) (heap : List ReceivingFile) → length (put a f heap) ≡ length heap
unfolding put
length-put a f [] = refl
length-put zero f (g ∷ heap) = refl
length-put (suc a) f (g ∷ heap) = ap suc (length-put a f heap)

-- An object of the new heap is the one put there, or one of the old.
at-put :
    (a b : ℕ) (f h : ReceivingFile) (heap : List ReceivingFile)
    → at b (put a f heap) ≡ some h
    → ((b ≡ a) × (h ≡ f)) ⊎ (at b heap ≡ some h)
unfolding put
at-put a b f h [] e = inr e
at-put zero zero f h (g ∷ heap) e = inl (refl, sym (some-injective _ _ e))
at-put zero (suc b) f h (g ∷ heap) e = inr e
at-put (suc a) zero f h (g ∷ heap) e = inr e
at-put (suc a) (suc b) f h (g ∷ heap) e = elim (at-put a b f h heap e) [
  | inl (same, is) ↦ inl (ap suc same, is)
  | inr was ↦ inr was
]

pub put-HeapOk :
    (a : ℕ) (f : ReceivingFile) (heap : List ReceivingFile)
    → HeapOk heap
    → FileOk f
    → HeapOk (put a f heap)
put-HeapOk a f heap ok new b h e = elim (at-put a b f h heap e) [
  | inl (same, is) ↦ subst FileOk (sym is) new
  | inr was ↦ ok b h was
]

pub put-Keeps :
    (a : ℕ) (f g : ReceivingFile) (heap : List ReceivingFile)
    → at a heap ≡ some g
    → f.offer ≡ g.offer
    → Keeps heap (put a f heap)
put-Keeps a f g heap found same = record {
  longer = omega (arith, length-put a f heap);
  offers = λ b h e l. elim (at-put a b f h heap e) [
    | inl (place, is) ↦
        (g, ap (λ (k : ℕ). at k heap) place ∙ found, ap (λ (x : ReceivingFile). x.offer) is ∙ same)
    | inr was ↦ (h, was, refl)
  ];
}

at-append :
    (b : ℕ) (f h : ReceivingFile) (heap : List ReceivingFile)
    → at b (heap ++ f ∷ []) ≡ some h
    → (h ≡ f) ⊎ (at b heap ≡ some h)
at-append zero f h [] e = inl (sym (some-injective _ _ e))
at-append (suc b) f h [] e = absurd (none-ne-some h e)
at-append zero f h (g ∷ heap) e = inr e
at-append (suc b) f h (g ∷ heap) e = at-append b f h heap e

pub append-HeapOk :
    (f : ReceivingFile) (heap : List ReceivingFile)
    → HeapOk heap
    → FileOk f
    → HeapOk (heap ++ f ∷ [])
append-HeapOk f heap ok new b h e = elim (at-append b f h heap e) [
  | inl is ↦ subst FileOk (sym is) new
  | inr was ↦ ok b h was
]

at-append_old :
    (b : ℕ) (f : ReceivingFile) (heap : List ReceivingFile)
    → b < length heap
    → at b (heap ++ f ∷ []) ≡ at b heap
at-append_old b f [] l = absurd (omega arith)
at-append_old zero f (g ∷ heap) l = refl
at-append_old (suc b) f (g ∷ heap) l = at-append_old b f heap (omega arith)

pub append-Keeps : (f : ReceivingFile) (heap : List ReceivingFile) → Keeps heap (heap ++ f ∷ [])
append-Keeps f heap = record {
  longer = omega (arith, length-append heap (f ∷ []));
  offers = λ b h e l. (h, sym (at-append_old b f heap l) ∙ e, refl);
}

pub at-length :
    (a : ℕ) (f : ReceivingFile) (heap : List ReceivingFile) → at a heap ≡ some f → a < length heap
at-length a f [] e = absurd (none-ne-some f e)
at-length zero f (g ∷ heap) e = omega arith
at-length (suc a) f (g ∷ heap) e = omega (arith, at-length a f heap e)

abbrev Found : List ReceivingFile → Option (ℕ × ReceivingFile) → Type 0
Found heap none = Unit {0}
Found heap (some (a, f)) = at a heap ≡ some f

find-Found : (id : String) (r : Receiver) → Found r.heap (find id r)
unfolding find
find-Found id r = elim (Option-cases (Dict.get id r.files)) [
  | inl gone ↦ rw (find, gone) tt
  | inr (a, known) ↦ elim (Option-cases (at a r.heap)) [
    | inl gone ↦ rw (find, known, gone) tt
    | inr (f, found) ↦ rw (find, known, found) found
  ]
]

-- What `find` answers is in the heap.
pub find-at :
    (id : String) (r : Receiver) (a : ℕ) (f : ReceivingFile)
    → find id r ≡ some (a, f)
    → at a r.heap ≡ some f
find-at id r a f e = subst (Found r.heap) e (find-Found id r)
