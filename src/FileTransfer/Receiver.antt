-- ===== src/FileTransfer/Receiver.antt =====
-- `FileReceiver`, over in-memory sinks. A transfer is an object of `heap`, at an address, which
-- `files` finds by the file's id; a method that waits holds on to its object even after the id is
-- gone, or stands for another one. A sink's operation takes effect where it is called. `decode` is
-- the base64 of the ORP library, which may throw, and `hash` the hex digest of the hash library. The
-- numbers of a frame are natural: the test `chunk.i < 0` has no counterpart, and the fractional numbers
-- that the decoder lets through are not modelled.
pub mod Heap
pub mod Counts
pub mod Received
pub mod Schedules
mod Examples
use orpal.Base.{
  ℕ, zero, suc, ◌+◌, ◌*◌, String, Bool, true, false, List, [], ◌∷◌, ◌++◌, Option, none, some, ◌==◌,
  length, leb, eqb, if◌then◌else◌, at,
}
use orpal.Base.Tasks.{pick}
use orpal.Dict
use orpal.Dict.{Dict}
use orpal.NumberMap
use orpal.NumberMap.{NumberMap, sorted_entries}
use orpal.Frames.{FileOfferFrame, FileChunkFrame}
use orpal.FileTransfer.{Bytes}
use orpal.FileTransfer.Sink
use orpal.FileTransfer.Sink.{Sink, new_sink, write_chunk, finalize}
use orpal.FileTransfer.Sender.{TransferProgress}

pub record ReceivingFile : Type 0 where
  pub offer : FileOfferFrame
  pub sink : Option Sink
  pub received : List ℕ
  pub transferred : ℕ
  pub buffer : NumberMap Bytes
  pub ready : Bool

pub data Outcome : Type 0 where
  received_ok : (file_id sha256 : String) → Outcome
  integrity_failed aborted : (file_id : String) → Outcome

-- A method at an `await`.
pub data Task : Type 0 where
  creating : ℕ → Task
  flushing : (address : ℕ) (i : ℕ) → Bytes → NumberMap Bytes → Task
  writing : (address : ℕ) (file_id : String) (i : ℕ) → Bytes → Task
  finalizing : (address : ℕ) (file_id got : String) → Task
  aborting : (file_id : String) → Task

pub record Receiver : Type 0 where
  pub heap : List ReceivingFile
  pub files : Dict ℕ
  pub tasks : List Task
  pub progress : List TransferProgress
  pub outcomes : List Outcome

abbrev pub new_receiver : Receiver
new_receiver = record { heap = []; files = []; tasks = []; progress = []; outcomes = [] }

-- The object at an address is replaced.
unfoldable pub put : ℕ → ReceivingFile → List ReceivingFile → List ReceivingFile
put a f [] = []
put zero f (g ∷ heap) = f ∷ heap
put (suc a) f (g ∷ heap) = g ∷ put a f heap

abbrev pub store : ℕ → ReceivingFile → Receiver → Receiver
store a f r = record r { heap = put a f r.heap }

abbrev pub spawn : Task → Receiver → Receiver
spawn t r = record r { tasks = r.tasks ++ t ∷ [] }

abbrev pub report : Outcome → Receiver → Receiver
report o r = record r { outcomes = r.outcomes ++ o ∷ [] }

-- The object that `files` has for the id, with its address.
unfoldable pub find : String → Receiver → Option (ℕ × ReceivingFile)
find id r = elim (Dict.get id r.files) [
  | none ↦ none
  | some a ↦ elim (at a r.heap) [ none ↦ none | some f ↦ some (a, f) ]
]

unfoldable pub emit_progress : String → Receiver → Receiver
unfolding find
emit_progress id r = elim (find id r) [
  | none ↦ r
  | some (a, f) ↦ record r {
    progress =
        r.progress
        ++ record {
          file_id = id;
          name = f.offer.name;
          transferred = f.transferred;
          total = f.offer.size;
          chunks_done = length f.received;
          chunks_total = f.offer.chunks;
        }
          ∷ [];
  }
]

-- A rejected `finalize` ends the method.
unfoldable pub complete : (Bytes → String) → String → Receiver → Receiver
complete hash id r = elim (find id r) [
  | none ↦ r
  | some (a, f) ↦ elim f.sink [
    | none ↦ r
    | some s ↦
        let forgotten = record r { files = Dict.delete id r.files } in
        elim (finalize hash s) [
          | none ↦ forgotten
          | some (got, s') ↦
              spawn (finalizing a id got) (store a (record f { sink = some s' }) forgotten)
        ]
  ]
]

-- `f.received.size === f.offer.chunks`
unfoldable pub complete_if_full : (Bytes → String) → ReceivingFile → String → Receiver → Receiver
complete_if_full hash f id r =
    if eqb (length f.received) f.offer.chunks then complete hash id r else r

-- `f.received.add(i); f.transferred += bytes.length`
unfoldable pub mark : ℕ → Bytes → ReceivingFile → ReceivingFile
mark i bytes f = record f {
  received = NumberMap.add i f.received;
  transferred = f.transferred + length bytes;
}

abbrev pub write : ℕ → Bytes → ReceivingFile → Sink → ReceivingFile
write i bytes f s = record f { sink = some (write_chunk (i * f.offer.chunk_size) bytes s) }

unfoldable pub on_offer : FileOfferFrame → Receiver → Receiver
on_offer offer r =
    if Dict.has offer.file_id r.files
    then r
    else (let a = length r.heap in
        let f : ReceivingFile = record {
          offer = offer;
          sink = none;
          received = [];
          transferred = 0;
          buffer = [];
          ready = false;
        } in
        spawn (creating a) (
          emit_progress offer.file_id
            (record r { heap = r.heap ++ f ∷ []; files = Dict.set offer.file_id a r.files })))

-- The rest of the loop over the buffered chunks.
unfoldable pub flush : (Bytes → String) → ℕ → NumberMap Bytes → Receiver → Receiver
flush hash a [] r = elim (at a r.heap) [
  | none ↦ r
  | some f ↦
      let cleared = record f { buffer = [] } in
      complete_if_full hash cleared f.offer.file_id
        (emit_progress f.offer.file_id (store a cleared r))
]
flush hash a ((i, bytes) ∷ rest) r =
    let skipped = flush hash a rest r in
    elim (at a r.heap) [
      | none ↦ r
      | some f ↦ if NumberMap.contains i f.received then skipped else elim f.sink [
        | none ↦ r
        | some s ↦ spawn (flushing a i bytes rest) (store a (write i bytes f s) r)
      ]
    ]

-- `createSink` resolves, with a new sink, or rejects.
unfoldable pub sink_created : (Bytes → String) → Bool → ℕ → Receiver → Receiver
sink_created hash ok a r = elim (at a r.heap) [
  | none ↦ r
  | some f ↦
      if ok
      then flush hash a (sorted_entries f.buffer)
          (store a (record f { sink = some new_sink; ready = true }) r)
      else report (aborted f.offer.file_id)
          (record r { files = Dict.delete f.offer.file_id r.files })
]

-- A chunk for an unknown or a finished file, out of range or received before is dropped.
unfoldable pub on_chunk : (String → Option Bytes) → FileChunkFrame → Receiver → Receiver
on_chunk decode chunk r = elim (find chunk.file_id r) [
  | none ↦ r
  | some (a, f) ↦
      if leb f.offer.chunks chunk.i
      then r
      else if NumberMap.contains chunk.i f.received
      then r
      else elim (decode chunk.data_b64u) [
        | none ↦ r
        | some bytes ↦ elim (if f.ready then f.sink else none) [
          | none ↦ store a (record f { buffer = NumberMap.set chunk.i bytes f.buffer }) r
          | some s ↦
              spawn (writing a chunk.file_id chunk.i bytes) (store a (write chunk.i bytes f s) r)
        ]
      ]
]

unfoldable pub on_done : (Bytes → String) → String → Receiver → Receiver
on_done hash id r = elim (find id r) [ none ↦ r | some (a, f) ↦ complete_if_full hash f id r ]

unfoldable pub on_abort : String → Receiver → Receiver
on_abort id r = elim (find id r) [
  | none ↦ r
  | some (a, f) ↦
      let forgotten = record r { files = Dict.delete id r.files } in
      spawn (aborting id) (elim f.sink [
        | none ↦ forgotten
        | some s ↦ store a (record f { sink = some (Sink.abort s) }) forgotten
      ])
]

-- A method goes on behind its `await`. A sink that is being created is none of these.
unfoldable pub resume : (Bytes → String) → Task → Receiver → Receiver
resume hash (creating a) r = spawn (creating a) r
resume hash (flushing a i bytes rest) r = elim (at a r.heap) [
  | none ↦ r
  | some f ↦ flush hash a rest (store a (mark i bytes f) r)
]
resume hash (writing a id i bytes) r = elim (at a r.heap) [
  | none ↦ r
  | some f ↦
      let marked = mark i bytes f in
      complete_if_full hash marked id (emit_progress id (store a marked r))
]
resume hash (finalizing a id got) r = elim (at a r.heap) [
  | none ↦ r
  | some f ↦ report (if got == f.offer.sha256 then received_ok id got else integrity_failed id) r
]
resume hash (aborting id) r = report (aborted id) r

unfoldable pub settle : (Bytes → String) → Bool → Task → Receiver → Receiver
settle hash ok (creating a) r = sink_created hash ok a r
settle hash ok t r = spawn t r

pub data Move : Type 0 where
  offers : FileOfferFrame → Move
  chunks : FileChunkFrame → Move
  dones : String → Move
  aborts : String → Move
  resumes : ℕ → Move
  settles : ℕ → Bool → Move

module _ (decode : String → Option Bytes) (hash : Bytes → String) where
  unfoldable pub step : Move → Receiver → Receiver
  step (offers offer) r = on_offer offer r
  step (chunks chunk) r = on_chunk decode chunk r
  step (dones id) r = on_done hash id r
  step (aborts id) r = on_abort id r
  step (resumes n) r = elim (pick n r.tasks) [
    | none ↦ r
    | some (t, ts) ↦ resume hash t (record r { tasks = ts })
  ]
  step (settles n ok) r = elim (pick n r.tasks) [
    | none ↦ r
    | some (t, ts) ↦ settle hash ok t (record r { tasks = ts })
  ]

  unfoldable pub run : List Move → Receiver → Receiver
  run [] r = r
  run (m ∷ moves) r = run moves (step m r)
