-- ===== src/FileTransfer/Receiver/Examples.antt =====
-- Transfers of a file of three bytes in two chunks.
use orpal.Base.{
  All, ◌<◌, ◌≤◌, length, ℕ, String, true, List, [], ◌∷◌, none, some, Option, ◌≡◌, refl, length, at,
  eqb, ◌==◌, if◌then◌else◌,
}
use orpal.Base.Tasks.{pick}
use orpal.Dict
use orpal.NumberMap
use orpal.NumberMap.{sorted_entries, insert_entry}
use orpal.Frames.{FileOfferFrame, FileChunkFrame}
use orpal.FileTransfer.{Bytes}
use orpal.FileTransfer.Sink
use orpal.FileTransfer.Sink.{finalize, assemble, put_all, put_at, zeros, write_chunk}
use orpal.FileTransfer.Receiver.{
  ReceivingFile, Move, received_ok, integrity_failed, aborted, new_receiver, offers, chunks, aborts,
  resumes, settles, run, step, on_offer, on_chunk, on_abort, resume, settle, sink_created, flush,
  complete, complete_if_full, emit_progress, find, mark, put,
}
use orpal.FileTransfer.Receiver.Schedules.{run-received}

-- Stand for the libraries' base64 and hash.
abbrev decode : String → Option Bytes
decode s = if s == "c0" then some (10 ∷ 20 ∷ []) else if s == "c1" then some (30 ∷ []) else none

abbrev hash : Bytes → String
hash bytes = if eqb (length bytes) 3 then "whole" else "part"

abbrev offer : FileOfferFrame
offer = record {
  file_id = "f1";
  name = "a.txt";
  size = 3;
  mime = "text/plain";
  chunk_size = 2;
  chunks = 2;
  sha256 = "whole";
  ts = 7;
}

abbrev first : FileChunkFrame
first = record { file_id = "f1"; i = 0; data_b64u = "c0" }

abbrev second : FileChunkFrame
second = record { file_id = "f1"; i = 1; data_b64u = "c1" }

-- The last chunk comes before the sink is there, and the first one comes twice.
abbrev early : List Move
early =
    offers offer
    ∷ chunks second
    ∷ settles 0 true
    ∷ resumes 0
    ∷ chunks first
    ∷ chunks first
    ∷ resumes 0
    ∷ resumes 0
    ∷ resumes 0
    ∷ []

-- A write is under way when the file is aborted and offered again.
abbrev stale : List Move
stale =
    offers offer
    ∷ settles 0 true
    ∷ chunks first
    ∷ resumes 0
    ∷ chunks second
    ∷ aborts "f1"
    ∷ offers offer
    ∷ settles 2 true
    ∷ resumes 0
    ∷ resumes 0
    ∷ resumes 0
    ∷ []

abbrev transferred_of : Option ReceivingFile → ℕ
transferred_of none = 0
transferred_of (some f) = f.transferred

-- The file arrives. Its first chunk is written and counted twice, since it is not yet marked when it
-- comes again: 5 bytes of 3.
duplicates :
    ((run decode hash early new_receiver).outcomes ≡ received_ok "f1" "whole" ∷ [])
    × (transferred_of (at 0 (run decode hash early new_receiver).heap) ≡ 5)
unfolding run step on_offer on_chunk on_abort resume settle sink_created flush complete
    complete_if_full emit_progress find mark put pick Dict.has Dict.get Dict.set Dict.delete
    NumberMap.contains NumberMap.add NumberMap.has NumberMap.set sorted_entries insert_entry
    finalize assemble put_all put_at zeros write_chunk
duplicates = (refl, refl)

-- The stale write completes the new transfer, none of whose chunks has come.
stale_write :
    (run decode hash stale new_receiver).outcomes ≡ aborted "f1" ∷ integrity_failed "f1" ∷ []
unfolding run step on_offer on_chunk on_abort resume settle sink_created flush complete
    complete_if_full emit_progress find mark put pick Dict.has Dict.get Dict.set Dict.delete
    NumberMap.contains NumberMap.add NumberMap.has NumberMap.set sorted_entries insert_entry
    finalize assemble put_all put_at zeros write_chunk Sink.abort
stale_write = refl

abbrev arrived : ReceivingFile
arrived = record {
  offer = offer;
  sink = some (record {
    parts = (2, 30 ∷ []) ∷ (0, 10 ∷ 20 ∷ []) ∷ [];
    total = 3;
    assembled = some (10 ∷ 20 ∷ 30 ∷ []);
  });
  received = 1 ∷ 0 ∷ [];
  transferred = 5;
  buffer = [];
  ready = true;
}

arrives : at 0 (run decode hash early new_receiver).heap ≡ some arrived
unfolding run step on_offer on_chunk on_abort resume settle sink_created flush complete
    complete_if_full emit_progress find mark put pick Dict.has Dict.get Dict.set Dict.delete
    NumberMap.contains NumberMap.add NumberMap.has NumberMap.set sorted_entries insert_entry
    finalize assemble put_all put_at zeros write_chunk
arrives = refl

run-received_example :
    NumberMap.IsDistinct arrived.received
    × All (λ i. i < 2) arrived.received
    × (length arrived.received ≤ 2)
run-received_example = run-received decode hash early 0 arrived arrives
