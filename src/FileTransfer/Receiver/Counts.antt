-- ===== src/FileTransfer/Receiver/Counts.antt =====
-- The parts of the receiver's methods keep the indices received distinct and within the offer.
use orpal.Base.{
  ℕ, ◌<◌, List, [], ◌∷◌, some, ◌≡◌, refl, length, at, Option-cases, inl, inr, All, All-append,
  Bool-cases, eqb, String,
}
use orpal.Dict
use orpal.NumberMap
use orpal.NumberMap.{NumberMap, sorted_entries}
use orpal.NumberMap.Laws.{add-IsDistinct, All-add}
use orpal.FileTransfer.{Bytes}
use orpal.FileTransfer.Sink.{finalize}
use orpal.FileTransfer.Receiver.{
  Receiver, ReceivingFile, Task, flushing, finalizing, put, find, store, spawn, write, mark,
  emit_progress, complete, complete_if_full, flush,
}
use orpal.FileTransfer.Receiver.Heap.{
  FileOk, HeapOk, IndexOk, TaskOk, Keeps, IndexOk-Keeps, tasks-Keeps, put-HeapOk, put-Keeps,
  find-at,
}

pub record Inv (r : Receiver) : Type 0 where
  pub heap_ok : HeapOk r.heap
  pub tasks_ok : All (TaskOk r.heap) r.tasks

pub store-Inv :
    (a : ℕ) (f g : ReceivingFile) (r : Receiver)
    → Inv r
    → at a r.heap ≡ some g
    → f.offer ≡ g.offer
    → FileOk f
    → Inv (store a f r)
store-Inv a f g r v found same ok = record {
  heap_ok = put-HeapOk a f r.heap v.heap_ok ok;
  tasks_ok =
      tasks-Keeps r.heap (put a f r.heap) r.tasks (put-Keeps a f g r.heap found same) v.tasks_ok;
}

pub spawn-Inv : (t : Task) (r : Receiver) → Inv r → TaskOk r.heap t → Inv (spawn t r)
spawn-Inv t r v ok = record {
  heap_ok = v.heap_ok;
  tasks_ok = All-append (TaskOk r.heap) r.tasks (t ∷ []) v.tasks_ok (ok, tt);
}

pub emit-Inv : (id : String) (r : Receiver) → Inv r → Inv (emit_progress id r)
unfolding emit_progress
emit-Inv id r v = elim (Option-cases (find id r)) [
  | inl gone ↦ rw (emit_progress, gone) v
  | inr ((a, f), found) ↦
      rw (emit_progress, found) (record { heap_ok = v.heap_ok; tasks_ok = v.tasks_ok })
]

pub complete-Inv :
    (hash : Bytes → String) (id : String) (r : Receiver) → Inv r → Inv (complete hash id r)
unfolding complete
complete-Inv hash id r v = elim (Option-cases (find id r)) [
  | inl gone ↦ rw (complete, gone) v
  | inr ((a, f), found) ↦ elim (Option-cases f.sink) [
    | inl dry ↦ rw (complete, found, dry) v
    | inr (s, sunk) ↦ elim (Option-cases (finalize hash s)) [
      | inl thrown ↦
          rw (complete, found, sunk, thrown) (record { heap_ok = v.heap_ok; tasks_ok = v.tasks_ok })
      | inr ((got, s'), final) ↦
          let ok : FileOk f = v.heap_ok a f (find-at id r a f found) in
          let forgotten : Receiver = record r { files = Dict.delete id r.files } in
          let w : Inv forgotten = record { heap_ok = v.heap_ok; tasks_ok = v.tasks_ok } in
          let done : ReceivingFile = record f { sink = some s' } in
          rw (complete, found, sunk, final)
            (spawn-Inv (finalizing a id got) (store a done forgotten)
              (store-Inv a done f forgotten w (find-at id r a f found) refl
                (record { distinct = ok.distinct; below = ok.below; buffered = ok.buffered }))
              tt)
    ]
  ]
]

pub complete_if_full-Inv :
    (hash : Bytes → String) (f : ReceivingFile) (id : String) (r : Receiver)
    → Inv r
    → Inv (complete_if_full hash f id r)
unfolding complete_if_full
complete_if_full-Inv hash f id r v = elim (Bool-cases (eqb (length f.received) f.offer.chunks)) [
  | inl full ↦ rw (complete_if_full, full) (complete-Inv hash id r v)
  | inr partial ↦ rw (complete_if_full, partial) v
]

pub mark-FileOk :
    (i : ℕ) (bytes : Bytes) (f : ReceivingFile)
    → FileOk f
    → i < f.offer.chunks
    → FileOk (mark i bytes f)
unfolding mark
mark-FileOk i bytes f ok l = record {
  distinct = add-IsDistinct i f.received ok.distinct;
  below = All-add (λ j. j < f.offer.chunks) i f.received l ok.below;
  buffered = ok.buffered;
}

pub mark-offer : (i : ℕ) (bytes : Bytes) (f : ReceivingFile) → (mark i bytes f).offer ≡ f.offer
unfolding mark
mark-offer i bytes f = refl

pub indices-Keeps :
    (heap heap' : List ReceivingFile) (a : ℕ) (es : NumberMap Bytes)
    → Keeps heap heap'
    → All (λ e. IndexOk heap a e.0) es
    → All (λ e. IndexOk heap' a e.0) es
indices-Keeps heap heap' a [] k h = tt
indices-Keeps heap heap' a (e ∷ es) k (h, hs) =
    (IndexOk-Keeps heap heap' a e.0 k h, indices-Keeps heap heap' a es k hs)

pub flush-Inv :
    (hash : Bytes → String) (a : ℕ) (rest : NumberMap Bytes) (r : Receiver)
    → Inv r
    → All (λ e. IndexOk r.heap a e.0) rest
    → Inv (flush hash a rest r)
unfolding flush
flush-Inv hash a [] r v h = elim (Option-cases (at a r.heap)) [
  | inl gone ↦ rw (flush, gone) v
  | inr (f, found) ↦
      let ok : FileOk f = v.heap_ok a f found in
      let cleared : ReceivingFile = record f { buffer = [] } in
      rw (flush, found)
        (complete_if_full-Inv hash cleared f.offer.file_id _ (
          emit-Inv f.offer.file_id (store a cleared r) (
            store-Inv a cleared f r v found refl
              (record { distinct = ok.distinct; below = ok.below; buffered = tt }))))
]
flush-Inv hash a ((i, bytes) ∷ rest) r v (h, hs) = elim (Option-cases (at a r.heap)) [
  | inl gone ↦ rw (flush, gone) v
  | inr (f, found) ↦ elim (Bool-cases (NumberMap.contains i f.received)) [
    | inl known ↦ rw (flush, found, known) (flush-Inv hash a rest r v hs)
    | inr fresh ↦ elim (Option-cases f.sink) [
      | inl dry ↦ rw (flush, found, fresh, dry) v
      | inr (s, sunk) ↦
          let ok : FileOk f = v.heap_ok a f found in
          let k = put-Keeps a (write i bytes f s) f r.heap found refl in
          rw (flush, found, fresh, sunk)
            (spawn-Inv (flushing a i bytes rest) (store a (write i bytes f s) r)
              (store-Inv a (write i bytes f s) f r v found refl
                (record { distinct = ok.distinct; below = ok.below; buffered = ok.buffered }))
              (IndexOk-Keeps r.heap _ a i k h, indices-Keeps r.heap _ a rest k hs))
    ]
  ]
]
