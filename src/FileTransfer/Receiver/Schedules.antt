-- ===== src/FileTransfer/Receiver/Schedules.antt =====
-- The receiver over every schedule.
use mathlib.Core.Option.{some-injective, none-ne-some}
use orpal.Base.{
  arith, refl, ℕ, ◌≤◌, ◌<◌, List, [], ◌∷◌, Option, none, some, ◌≡◌, length, at, Option-cases, inl,
  inr, All, Bool-cases, String, leb, if◌then◌else◌, sym, ◌∙◌, subst,
}
use orpal.Base.Tasks.{pick, All-pick}
use orpal.NumberMap
use orpal.NumberMap.Laws.{All-set}
use orpal.NumberMap.Count.{length_bound}
use orpal.Frames.{FileChunkFrame}
use orpal.FileTransfer.{Bytes}
use orpal.FileTransfer.Sink.{Sink}
use orpal.FileTransfer.Receiver.{
  Receiver, ReceivingFile, Move, writing, find, store, spawn, write, on_chunk, step, run, offers,
  chunks, dones, aborts, resumes, settles, new_receiver,
}
use orpal.FileTransfer.Receiver.Heap.{FileOk, IndexOk-Keeps, put-Keeps, at-length, find-at}
use orpal.FileTransfer.Receiver.Counts.{Inv, store-Inv, spawn-Inv}
use orpal.FileTransfer.Receiver.Received.{
  on_offer-Inv, on_done-Inv, on_abort-Inv, resume-Inv, settle-Inv,
}

module _ (r : Receiver) (v : Inv r) (a : ℕ) (f : ReceivingFile) (found : at a r.heap ≡ some f) where
  f_ok : FileOk f
  f_ok = v.heap_ok a f found

  buffered-Inv :
      (i : ℕ) (bytes : Bytes)
      → i < f.offer.chunks
      → Inv (store a (record f { buffer = NumberMap.set i bytes f.buffer }) r)
  buffered-Inv i bytes l =
      store-Inv a (record f { buffer = NumberMap.set i bytes f.buffer }) f r v found refl
        (record {
          distinct = f_ok.distinct;
          below = f_ok.below;
          buffered =
              All-set (λ e. e.0 < f.offer.chunks) i bytes f.buffer (λ j same. ground arith) l
                f_ok.buffered;
        })

  written-Inv :
      (id : String) (i : ℕ) (bytes : Bytes) (s : Sink)
      → i < f.offer.chunks
      → Inv (spawn (writing a id i bytes) (store a (write i bytes f s) r))
  written-Inv id i bytes s l =
      spawn-Inv (writing a id i bytes) (store a (write i bytes f s) r)
        (store-Inv a (write i bytes f s) f r v found refl
          (record { distinct = f_ok.distinct; below = f_ok.below; buffered = f_ok.buffered }))
        (IndexOk-Keeps r.heap _ a i (put-Keeps a (write i bytes f s) f r.heap found refl) (
          at-length a f r.heap found,
          λ g there.
              subst (λ (x : ReceivingFile). i < x.offer.chunks)
                (some-injective f g (sym found ∙ there)) l,
        ))

module _ (decode : String → Option Bytes) (hash : Bytes → String) where
  on_chunk-Inv : (c : FileChunkFrame) (r : Receiver) → Inv r → Inv (on_chunk decode c r)
  unfolding on_chunk
  on_chunk-Inv c r v = elim (Option-cases (find c.file_id r)) [
    | inl gone ↦ rw (on_chunk, gone) v
    | inr ((a, f), known) ↦ elim (Bool-cases (leb f.offer.chunks c.i)) [
      | inl beyond ↦ rw (on_chunk, known, beyond) v
      | inr within ↦ elim (Bool-cases (NumberMap.contains c.i f.received)) [
        | inl again ↦ rw (on_chunk, known, within, again) v
        | inr fresh ↦ elim (Option-cases (decode c.data_b64u)) [
          | inl thrown ↦ rw (on_chunk, known, within, fresh, thrown) v
          | inr (bytes, decoded) ↦ elim (Option-cases (if f.ready then f.sink else none)) [
            | inl early ↦
                rw (on_chunk, known, within, fresh, decoded, early)
                  (buffered-Inv r v a f (find-at c.file_id r a f known) c.i bytes (ground arith))
            | inr (s, sunk) ↦
                rw (on_chunk, known, within, fresh, decoded, sunk)
                  (written-Inv r v a f (find-at c.file_id r a f known) c.file_id c.i bytes s
                    (ground arith))
          ]
        ]
      ]
    ]
  ]

  step-Inv : (m : Move) (r : Receiver) → Inv r → Inv (step decode hash m r)
  unfolding step
  step-Inv (offers offer) r v = on_offer-Inv offer r v
  step-Inv (chunks c) r v = on_chunk-Inv c r v
  step-Inv (dones id) r v = on_done-Inv hash id r v
  step-Inv (aborts id) r v = on_abort-Inv id r v
  step-Inv (resumes n) r v = elim (Option-cases (pick n r.tasks)) [
    | inl out ↦ rw (step, out) v
    | inr ((t, ts), picked) ↦
        let (h, hs) = All-pick _ n r.tasks t ts picked v.tasks_ok in
        rw (step, picked)
          (resume-Inv hash t (record r { tasks = ts })
            (record { heap_ok = v.heap_ok; tasks_ok = hs }) h)
  ]
  step-Inv (settles n ok) r v = elim (Option-cases (pick n r.tasks)) [
    | inl out ↦ rw (step, out) v
    | inr ((t, ts), picked) ↦
        let (h, hs) = All-pick _ n r.tasks t ts picked v.tasks_ok in
        rw (step, picked)
          (settle-Inv hash ok t (record r { tasks = ts })
            (record { heap_ok = v.heap_ok; tasks_ok = hs }) h)
  ]

  run-Inv : (moves : List Move) (r : Receiver) → Inv r → Inv (run decode hash moves r)
  unfolding run
  run-Inv [] r v = v
  run-Inv (m ∷ moves) r v = run-Inv moves (step decode hash m r) (step-Inv m r v)

new-Inv : Inv new_receiver
new-Inv = record { heap_ok = λ a f e. absurd (none-ne-some f e); tasks_ok = tt }

-- For offers and chunk frames whose sizes, counts and indices are natural numbers, as they are in this
-- model (the decoder lets other numbers through, and of those this says nothing), and over every schedule
-- of them, of markers, aborts and the steps of what is under way: no transfer ever counts a chunk index
-- twice or counts one beyond its offer, so that it has never more chunks done than its offer has.
pub run-received :
    (decode : String → Option Bytes) (hash : Bytes → String) (moves : List Move) (a : ℕ)
    (f : ReceivingFile)
    → at a (run decode hash moves new_receiver).heap ≡ some f
    → NumberMap.IsDistinct f.received
      × All (λ i. i < f.offer.chunks) f.received
      × (length f.received ≤ f.offer.chunks)
run-received decode hash moves a f found =
    let ok = (run-Inv decode hash moves new_receiver new-Inv).heap_ok a f found in
    (ok.distinct, ok.below, length_bound f.offer.chunks f.received ok.distinct ok.below)
