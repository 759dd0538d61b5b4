-- ===== src/Frames/Decode.antt =====
-- `decodeAppFrame` of frames.ts: parse and shape-validate an incoming frame.
use orpal.Base.{String, Option, none, some, ◌==◌, ◌>>=◌, ◌>>◌, guard, eqb, if◌then◌else◌}
use orpal.Json.{Json, Fields, object, text_at, number_at, record_at}
use orpal.Frames.{
  AppFrame, Target, old, new, text_frame, awk, file_offer, file_chunk, file_done, sealed, hello,
  key_migration, migration_ack, migration_challenge, migration_challenge_response, seal_alg,
}

abbrev pub target_of : String → Option Target
target_of s = if s == "old" then some old else if s == "new" then some new else none

-- The cases of the switch on `f.t`.
unfoldable pub decode_text : Fields → Option AppFrame
decode_text f = do
  id ← text_at "id" f
  body ← text_at "text" f
  ts ← number_at "ts" f
  some (text_frame (record { id = id; body = body; ts = ts }))

unfoldable pub decode_awk : Fields → Option AppFrame
decode_awk f = do
  id ← text_at "id" f
  ts ← number_at "ts" f
  some (awk (record { id = id; ts = ts }))

unfoldable pub decode_offer : Fields → Option AppFrame
decode_offer f = do
  file_id ← text_at "fileId" f
  name ← text_at "name" f
  size ← number_at "size" f
  mime ← text_at "mime" f
  chunk_size ← number_at "chunkSize" f
  chunks ← number_at "chunks" f
  sha256 ← text_at "sha256" f
  ts ← number_at "ts" f
  some (
      file_offer (record {
        file_id = file_id;
        name = name;
        size = size;
        mime = mime;
        chunk_size = chunk_size;
        chunks = chunks;
        sha256 = sha256;
        ts = ts;
      }))

unfoldable pub decode_chunk : Fields → Option AppFrame
decode_chunk f = do
  file_id ← text_at "fileId" f
  i ← number_at "i" f
  data_b64u ← text_at "data" f
  some (file_chunk (record { file_id = file_id; i = i; data_b64u = data_b64u }))

unfoldable pub decode_done : Fields → Option AppFrame
decode_done f = do file_id ← text_at "fileId" f; some (file_done file_id)

unfoldable pub decode_sealed : Fields → Option AppFrame
decode_sealed f = do
  alg ← text_at "alg" f
  guard (alg == seal_alg)
  box ← text_at "box" f
  some (sealed box)

unfoldable pub decode_hello : Fields → Option AppFrame
decode_hello f = do card ← text_at "card" f; some (hello card)

unfoldable pub decode_migration : Fields → Option AppFrame
decode_migration f = do migration ← record_at "migration" f; some (key_migration migration)

unfoldable pub decode_migration_ack : Fields → Option AppFrame
decode_migration_ack f = do ack ← record_at "ack" f; some (migration_ack ack)

unfoldable pub decode_challenge : Fields → Option AppFrame
decode_challenge f = do
  target ← text_at "target" f >>= target_of
  sealed_nonce ← text_at "sealed_nonce" f
  ack_pubkey ← text_at "ack_pubkey" f
  some (
      migration_challenge
        (record { target = target; sealed_nonce = sealed_nonce; ack_pubkey = ack_pubkey }))

unfoldable pub decode_response : Fields → Option AppFrame
decode_response f = do
  target ← text_at "target" f >>= target_of
  sealed_echo ← text_at "sealed_echo" f
  some (migration_challenge_response (record { target = target; sealed_echo = sealed_echo }))

-- The switch itself.
unfoldable pub decode_kind : String → Fields → Option AppFrame
decode_kind t f =
    if t == "text"
    then decode_text f
    else if t == "awk"
    then decode_awk f
    else if t == "file-offer"
    then decode_offer f
    else if t == "file-chunk"
    then decode_chunk f
    else if t == "file-done"
    then decode_done f
    else if t == "sealed"
    then decode_sealed f
    else if t == "hello"
    then decode_hello f
    else if t == "key-migration"
    then decode_migration f
    else if t == "migration-ack"
    then decode_migration_ack f
    else if t == "migration-challenge"
    then decode_challenge f
    else if t == "migration-challenge-response"
    then decode_response f
    else none

-- `decodeAppFrame`, from the value that `JSON.parse` gives.
unfoldable pub decode_app_frame : Json → Option AppFrame
decode_app_frame (object f) = do
  v ← number_at "v" f
  guard (eqb v 1)
  t ← text_at "t" f
  decode_kind t f
decode_app_frame _ = none
