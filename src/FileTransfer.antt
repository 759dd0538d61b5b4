-- ===== src/FileTransfer.antt =====
-- packages/orpal-core/src/transfer/file-transfer.ts: a file is cut into chunks, each sent in a frame
-- of its own, and written back by offset. A byte is a number; sizes are below 2^53, where the
-- program's numbers are exact. This module has the cutting, which the parts share.
pub mod Sender
pub mod Receiver
pub mod Sink
pub mod Reassembly
pub mod AnyOrder
pub mod Assembled
mod Examples
use orpal.Base.{length, ℕ, ◌+◌, ◌-◌, ◌*◌, ◌/◌, List, eqb, if◌then◌else◌, take, drop, min}

abbrev pub Bytes : Type 0
Bytes = List ℕ

-- `Math.ceil(size / chunkSize)`, for a positive chunk size.
unfoldable pub chunk_count : ℕ → ℕ → ℕ
chunk_count size chunk_size = if eqb size 0 then 0 else (size + chunk_size - 1) / chunk_size

-- The in-memory source's `readChunk`: `bytes.slice(offset, offset + length)`.
unfoldable pub read_chunk : Bytes → (offset count : ℕ) → Bytes
read_chunk bytes offset count = take count (drop offset bytes)

-- What the sender reads for the chunk `i`.
unfoldable pub chunk : (chunk_size : ℕ) → Bytes → ℕ → Bytes
unfolding read_chunk
chunk chunk_size bytes i =
    let offset = i * chunk_size in read_chunk bytes offset (min chunk_size (length bytes - offset))
