-- ===== src/Frames.antt =====
-- packages/orpal-core/src/messaging/frames.ts: the application frames, and the JSON values that they
-- are written as and read from. Numbers on the wire are naturals. The text of a JSON value is not
-- modelled here.
pub mod Decode
pub mod Wire
pub mod Sound
pub mod RoundTrip
mod Examples
use orpal.Base.{
  ℕ, String, Bool, true, false, Option, none, some, ◌==◌, ◌||◌, ◌>>=◌, ◌>>◌, guard, eqb,
  if◌then◌else◌,
}
use orpal.Json.{
  Json, Fields, object, text, number, end, field, lookup, text_at, number_at, record_at,
}

pub record TextFrame : Type 0 where
  pub id : String
  pub body : String
  pub ts : ℕ

pub record AckFrame : Type 0 where
  pub id : String
  pub ts : ℕ

-- The program's sizes and counts are numbers of any kind, and so is the index of a chunk: `decodeAppFrame`
-- tests no more than `typeof`. Those that are not natural numbers are not modelled.
pub record FileOfferFrame : Type 0 where
  pub file_id : String
  pub name : String
  pub size : ℕ
  pub mime : String
  pub chunk_size : ℕ
  pub chunks : ℕ
  pub sha256 : String
  pub ts : ℕ

pub record FileChunkFrame : Type 0 where
  pub file_id : String
  pub i : ℕ
  pub data_b64u : String

abbrev pub seal_alg : String
seal_alg = "orp-sealedbox-v1"

-- The key that a liveness challenge is about.
pub data Target : Type 0 where
  old new : Target

pub record ChallengeFrame : Type 0 where
  pub target : Target
  pub sealed_nonce : String
  pub ack_pubkey : String

pub record ChallengeResponseFrame : Type 0 where
  pub target : Target
  pub sealed_echo : String

-- The version is 1 in each frame, and the algorithm of a sealed one is `seal_alg`.
pub data AppFrame : Type 0 where
  text_frame : TextFrame → AppFrame
  awk : AckFrame → AppFrame
  file_offer : FileOfferFrame → AppFrame
  file_chunk : FileChunkFrame → AppFrame
  file_done : (file_id : String) → AppFrame
  sealed : (box : String) → AppFrame
  hello : (card : String) → AppFrame
  key_migration : (migration : Json) → AppFrame
  migration_ack : (ack : Json) → AppFrame
  migration_challenge : ChallengeFrame → AppFrame
  migration_challenge_response : ChallengeResponseFrame → AppFrame

abbrev tagged : String → Fields → Fields
tagged t fs = field "v" (number 1) (field "t" (text t) fs)

abbrev pub target_name : Target → String
target_name old = "old"
target_name new = "new"

-- `encodeAppFrame`, as far as the value that `JSON.stringify` is given.
unfoldable pub encode_fields : AppFrame → Fields
encode_fields (text_frame f) =
    tagged "text"
      (field "id" (text f.id) (field "text" (text f.body) (field "ts" (number f.ts) end)))
encode_fields (awk f) = tagged "awk" (field "id" (text f.id) (field "ts" (number f.ts) end))
encode_fields (file_offer f) = tagged "file-offer" (
    field "fileId" (text f.file_id) (
      field "name" (text f.name) (
        field "size" (number f.size) (
          field "mime" (text f.mime) (
            field "chunkSize" (number f.chunk_size) (
              field "chunks" (number f.chunks)
                (field "sha256" (text f.sha256) (field "ts" (number f.ts) end))))))))
encode_fields (file_chunk f) =
    tagged "file-chunk" (
      field "fileId" (text f.file_id)
        (field "i" (number f.i) (field "data" (text f.data_b64u) end)))
encode_fields (file_done id) = tagged "file-done" (field "fileId" (text id) end)
encode_fields (sealed box) =
    tagged "sealed" (field "alg" (text seal_alg) (field "box" (text box) end))
encode_fields (hello card) = tagged "hello" (field "card" (text card) end)
encode_fields (key_migration m) = tagged "key-migration" (field "migration" m end)
encode_fields (migration_ack a) = tagged "migration-ack" (field "ack" a end)
encode_fields (migration_challenge f) = tagged "migration-challenge" (
    field "target" (text (target_name f.target))
      (field "sealed_nonce" (text f.sealed_nonce) (field "ack_pubkey" (text f.ack_pubkey) end)))
encode_fields (migration_challenge_response f) =
    tagged "migration-challenge-response"
      (field "target" (text (target_name f.target)) (field "sealed_echo" (text f.sealed_echo) end))

unfoldable pub encode_app_frame : AppFrame → Json
encode_app_frame f = object (encode_fields f)
