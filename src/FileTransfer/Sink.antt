-- ===== src/FileTransfer/Sink.antt =====
-- `InMemoryFileSink`: the parts by byte offset, put together where the file is finalized.
use orpal.Base.{
  String, ℕ, zero, suc, ◌+◌, [], ◌∷◌, Option, none, some, length, if◌then◌else◌, ◌>>=◌,
}
use orpal.NumberMap
use orpal.NumberMap.{NumberMap, sorted_entries}
use orpal.FileTransfer.{Bytes}

pub record Sink : Type 0 where
  pub parts : NumberMap Bytes
  pub total : ℕ
  pub assembled : Option Bytes

abbrev pub new_sink : Sink
new_sink = record { parts = []; total = 0; assembled = none }

unfoldable pub write_chunk : ℕ → Bytes → Sink → Sink
write_chunk offset bytes s = record s {
  total = if NumberMap.has offset s.parts then s.total else s.total + length bytes;
  parts = NumberMap.set offset bytes s.parts;
}

-- `new Uint8Array(n)`
unfoldable pub zeros : ℕ → Bytes
zeros zero = []
zeros (suc n) = 0 ∷ zeros n

-- `out.set(bytes, offset)`, which throws where the bytes do not fit.
unfoldable pub put_at : ℕ → Bytes → Bytes → Option Bytes
put_at zero [] out = some out
put_at zero (b ∷ bytes) [] = none
put_at zero (b ∷ bytes) (o ∷ out) = put_at zero bytes out >>= λ rest. some (b ∷ rest)
put_at (suc n) bytes [] = none
put_at (suc n) bytes (o ∷ out) = put_at n bytes out >>= λ rest. some (o ∷ rest)

unfoldable pub put_all : NumberMap Bytes → Bytes → Option Bytes
put_all [] out = some out
put_all ((offset, bytes) ∷ parts) out = put_at offset bytes out >>= put_all parts

-- The file as `finalize` puts it together; its hash is taken of that.
unfoldable pub assemble : Sink → Option Bytes
assemble s = put_all (sorted_entries s.parts) (zeros s.total)

-- `finalize`; `hash` is the hex digest of the hash library.
unfoldable pub finalize : (Bytes → String) → Sink → Option (String × Sink)
finalize hash s = assemble s >>= λ out. some (hash out, record s { assembled = some out })

unfoldable pub abort : Sink → Sink
abort s = record s { parts = []; total = 0 }
