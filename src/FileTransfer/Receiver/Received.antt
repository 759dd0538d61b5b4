-- ===== src/FileTransfer/Receiver/Received.antt =====
-- The receiver's methods keep the indices that it has received distinct and within the offer.
use orpal.Base.{
  ℕ, ◌<◌, List, [], ◌∷◌, ◌++◌, none, some, ◌≡◌, refl, sym, ◌∙◌, subst, length, at, Option-cases,
  inl, inr, All, Bool-cases, String, true, false, Bool,
}
use mathlib.Core.Option.{some-injective}
use orpal.Dict
use orpal.NumberMap.{NumberMap, sorted_entries}
use orpal.NumberMap.Laws.{All-sorted_entries}
use orpal.Frames.{FileOfferFrame}
use orpal.FileTransfer.{Bytes}
use orpal.FileTransfer.Sink
use orpal.FileTransfer.Sink.{Sink, new_sink, write_chunk, finalize}
use orpal.FileTransfer.Receiver.{
  Receiver, ReceivingFile, Task, creating, flushing, writing, finalizing, aborting, find, store,
  mark, emit_progress, on_offer, sink_created, on_done, on_abort, resume, settle,
}
use orpal.FileTransfer.Receiver.Heap.{
  FileOk, IndexOk, TaskOk, tasks-Keeps, put-Keeps, append-HeapOk, append-Keeps, at-length, find-at,
}
use orpal.FileTransfer.Receiver.Counts.{
  Inv, store-Inv, spawn-Inv, emit-Inv, complete_if_full-Inv, mark-FileOk, mark-offer, indices-Keeps,
  flush-Inv,
}

pub on_offer-Inv : (offer : FileOfferFrame) (r : Receiver) → Inv r → Inv (on_offer offer r)
unfolding on_offer
on_offer-Inv offer r v = elim (Bool-cases (Dict.has offer.file_id r.files)) [
  | inl known ↦ rw (on_offer, known) v
  | inr unknown ↦
      let f : ReceivingFile = record {
        offer = offer;
        sink = none;
        received = [];
        transferred = 0;
        buffer = [];
        ready = false;
      } in
      let registered : Receiver = record r {
        heap = r.heap ++ f ∷ [];
        files = Dict.set offer.file_id (length r.heap) r.files;
      } in
      rw (on_offer, unknown)
        (spawn-Inv (creating (length r.heap)) (emit_progress offer.file_id registered)
          (emit-Inv offer.file_id registered (record {
            heap_ok =
                append-HeapOk f r.heap v.heap_ok
                  (record { distinct = tt; below = tt; buffered = tt });
            tasks_ok =
                tasks-Keeps r.heap (r.heap ++ f ∷ []) r.tasks (append-Keeps f r.heap) v.tasks_ok;
          }))
          tt)
]

-- What a file buffers is in the range of its offer.
buffer-IndexOk :
    (a : ℕ) (f : ReceivingFile) (heap : List ReceivingFile)
    → at a heap ≡ some f
    → (es : NumberMap Bytes) → All (λ e. e.0 < f.offer.chunks) es
    → All (λ e. IndexOk heap a e.0) es
buffer-IndexOk a f heap found [] h = tt
buffer-IndexOk a f heap found (e ∷ es) (h, hs) = (
  (
    at-length a f heap found,
    λ g there.
        subst (λ (x : ReceivingFile). e.0 < x.offer.chunks) (some-injective f g (sym found ∙ there))
          h,
  ),
  buffer-IndexOk a f heap found es hs,
)

sink_created-Inv :
    (hash : Bytes → String) (ok : Bool) (a : ℕ) (r : Receiver)
    → Inv r
    → Inv (sink_created hash ok a r)
unfolding sink_created
sink_created-Inv hash ok a r v = elim (Option-cases (at a r.heap)) [
  | inl gone ↦ rw (sink_created, gone) v
  | inr (f, found) ↦ elim (Bool-cases ok) [
    | inr rejects ↦
        rw (sink_created, found, rejects) (record { heap_ok = v.heap_ok; tasks_ok = v.tasks_ok })
    | inl resolves ↦
        let f_ok : FileOk f = v.heap_ok a f found in
        let open_file : ReceivingFile = record f { sink = some new_sink; ready = true } in
        let k = put-Keeps a open_file f r.heap found refl in
        rw (sink_created, found, resolves)
          (flush-Inv hash a (sorted_entries f.buffer) (store a open_file r)
            (store-Inv a open_file f r v found refl
              (record { distinct = f_ok.distinct; below = f_ok.below; buffered = f_ok.buffered }))
            (indices-Keeps r.heap _ a (sorted_entries f.buffer) k (
              buffer-IndexOk a f r.heap found (sorted_entries f.buffer)
                (All-sorted_entries (λ e. e.0 < f.offer.chunks) f.buffer f_ok.buffered))))
  ]
]

pub on_done-Inv :
    (hash : Bytes → String) (id : String) (r : Receiver) → Inv r → Inv (on_done hash id r)
unfolding on_done
on_done-Inv hash id r v = elim (Option-cases (find id r)) [
  | inl gone ↦ rw (on_done, gone) v
  | inr ((a, f), found) ↦ rw (on_done, found) (complete_if_full-Inv hash f id r v)
]

pub on_abort-Inv : (id : String) (r : Receiver) → Inv r → Inv (on_abort id r)
unfolding on_abort
on_abort-Inv id r v = elim (Option-cases (find id r)) [
  | inl gone ↦ rw (on_abort, gone) v
  | inr ((a, f), found) ↦
      let forgotten : Receiver = record r { files = Dict.delete id r.files } in
      let w : Inv forgotten = record { heap_ok = v.heap_ok; tasks_ok = v.tasks_ok } in
      elim (Option-cases f.sink) [
        | inl dry ↦ rw (on_abort, found, dry) (spawn-Inv (aborting id) forgotten w tt)
        | inr (s, sunk) ↦
            let ok : FileOk f = v.heap_ok a f (find-at id r a f found) in
            let dropped : ReceivingFile = record f { sink = some (Sink.abort s) } in
            rw (on_abort, found, sunk)
              (spawn-Inv (aborting id) (store a dropped forgotten)
                (store-Inv a dropped f forgotten w (find-at id r a f found) refl
                  (record { distinct = ok.distinct; below = ok.below; buffered = ok.buffered }))
                tt)
      ]
]

marked-Inv :
    (a i : ℕ) (bytes : Bytes) (f : ReceivingFile) (r : Receiver)
    → Inv r
    → at a r.heap ≡ some f
    → IndexOk r.heap a i
    → Inv (store a (mark i bytes f) r)
marked-Inv a i bytes f r v found h =
    store-Inv a (mark i bytes f) f r v found (mark-offer i bytes f)
      (mark-FileOk i bytes f (v.heap_ok a f found) (h.1 f found))

pub resume-Inv :
    (hash : Bytes → String) (t : Task) (r : Receiver)
    → Inv r
    → TaskOk r.heap t
    → Inv (resume hash t r)
unfolding resume
resume-Inv hash (creating a) r v h = spawn-Inv (creating a) r v tt
resume-Inv hash (flushing a i bytes rest) r v (h, hs) = elim (Option-cases (at a r.heap)) [
  | inl gone ↦ rw (resume, gone) v
  | inr (f, found) ↦
      let k = put-Keeps a (mark i bytes f) f r.heap found (mark-offer i bytes f) in
      rw (resume, found)
        (flush-Inv hash a rest (store a (mark i bytes f) r) (marked-Inv a i bytes f r v found h)
          (indices-Keeps r.heap _ a rest k hs))
]
resume-Inv hash (writing a id i bytes) r v h = elim (Option-cases (at a r.heap)) [
  | inl gone ↦ rw (resume, gone) v
  | inr (f, found) ↦
      rw (resume, found)
        (complete_if_full-Inv hash (mark i bytes f) id _
          (emit-Inv id (store a (mark i bytes f) r) (marked-Inv a i bytes f r v found h)))
]
resume-Inv hash (finalizing a id got) r v h = elim (Option-cases (at a r.heap)) [
  | inl gone ↦ rw (resume, gone) v
  | inr (f, found) ↦ rw (resume, found) (record { heap_ok = v.heap_ok; tasks_ok = v.tasks_ok })
]
resume-Inv hash (aborting id) r v h = record { heap_ok = v.heap_ok; tasks_ok = v.tasks_ok }

pub settle-Inv :
    (hash : Bytes → String) (ok : Bool) (t : Task) (r : Receiver)
    → Inv r
    → TaskOk r.heap t
    → Inv (settle hash ok t r)
unfolding settle
settle-Inv hash ok (creating a) r v h = sink_created-Inv hash ok a r v
settle-Inv hash ok (flushing a i bytes rest) r v h = spawn-Inv _ r v h
settle-Inv hash ok (writing a id i bytes) r v h = spawn-Inv _ r v h
settle-Inv hash ok (finalizing a id got) r v h = spawn-Inv _ r v h
settle-Inv hash ok (aborting id) r v h = spawn-Inv _ r v h
