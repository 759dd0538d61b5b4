-- ===== src/Sealed/RoundTrip.antt =====
-- What a sealed frame opens to, and for whom.
use orpal.Base.{String, Option, none, some, ◌>>=◌, ◌≡◌, refl, arith}
use orpal.Json.{Json}
use orpal.Frames.Wire.{IsWire}
use orpal.MigrationManager.Answers.{Opens}
use orpal.Frames.{
  migration_challenge_response, migration_challenge, migration_ack, key_migration, hello, file_done,
  file_chunk, awk, AppFrame, text_frame, file_offer, sealed, encode_app_frame,
}
use orpal.Frames.Decode.{decode_app_frame}
use orpal.Frames.RoundTrip.{decode-encode_app_frame}
use orpal.Keys.{Bytes, Orp}
use orpal.Sealed.{sealable, seal_app_frame, open_sealed_frame}

abbrev pub IsSealable : AppFrame → Type 0
IsSealable f = sealable f ≡ some f

IsSealable-IsWire : (f : AppFrame) → IsSealable f → IsWire f
IsSealable-IsWire (text_frame f) h = tt
IsSealable-IsWire (file_offer f) h = tt
IsSealable-IsWire (awk f) h = ground arith
IsSealable-IsWire (file_chunk f) h = ground arith
IsSealable-IsWire (file_done f) h = ground arith
IsSealable-IsWire (sealed f) h = ground arith
IsSealable-IsWire (hello f) h = ground arith
IsSealable-IsWire (key_migration f) h = ground arith
IsSealable-IsWire (migration_ack f) h = ground arith
IsSealable-IsWire (migration_challenge f) h = ground arith
IsSealable-IsWire (migration_challenge_response f) h = ground arith

sealable-IsSealable : (f g : AppFrame) → sealable f ≡ some g → IsSealable g
sealable-IsSealable (text_frame f) g h = ground arith
sealable-IsSealable (file_offer f) g h = ground arith
sealable-IsSealable (awk f) g h = ground arith
sealable-IsSealable (file_chunk f) g h = ground arith
sealable-IsSealable (file_done f) g h = ground arith
sealable-IsSealable (sealed f) g h = ground arith
sealable-IsSealable (hello f) g h = ground arith
sealable-IsSealable (key_migration f) g h = ground arith
sealable-IsSealable (migration_ack f) g h = ground arith
sealable-IsSealable (migration_challenge f) g h = ground arith
sealable-IsSealable (migration_challenge_response f) g h = ground arith

bind-IsSealable :
    {A : Type 0} (o : Option A) (k : A → Option AppFrame) (f : AppFrame)
    → ((a : A) → k a ≡ some f → IsSealable f)
    → (o >>= k) ≡ some f
    → IsSealable f
bind-IsSealable none k f each h = ground arith
bind-IsSealable (some a) k f each h = each a h

module _ (orp : Orp) (to_bytes : Json → Bytes) (of_bytes : Bytes → Option Json) where
  open orp use {seal, unseal, b64u_encode, b64u_decode}

  -- Whatever box is opened, with whatever keys, what comes out is a text or a file offer.
  pub open-IsSealable :
      (box : String) (priv_key pub_key : Bytes) (f : AppFrame)
      → open_sealed_frame orp to_bytes of_bytes box priv_key pub_key ≡ some f
      → IsSealable f
  unfolding open_sealed_frame
  open-IsSealable box priv_key pub_key f = bind-IsSealable (b64u_decode box) _ f (λ bytes.
      bind-IsSealable (unseal bytes priv_key pub_key) _ f (λ plaintext.
        bind-IsSealable (of_bytes plaintext) _ f (λ value.
          bind-IsSealable (decode_app_frame value) _ f (λ inner. sealable-IsSealable inner f))))

  -- A text or a file offer that is sealed to a key is what the holder of that key reads, where the library
  -- seals to the key and opens with it, base64 is read back, and so is the JSON of the frame.
  pub open-seal :
      (inner : AppFrame) (key : String) (randomness priv_key pub_key : Bytes)
      → IsSealable inner
      → b64u_decode key ≡ some pub_key
      → Opens orp pub_key priv_key
      → ((b : Bytes) → b64u_decode (b64u_encode b) ≡ some b)
      → of_bytes (to_bytes (encode_app_frame inner)) ≡ some (encode_app_frame inner)
      → (box : String) × (seal_app_frame orp to_bytes of_bytes inner key randomness
          ≡ some (sealed box))
        × (open_sealed_frame orp to_bytes of_bytes box priv_key pub_key ≡ some inner)
  unfolding seal_app_frame encode_app_frame open_sealed_frame
  open-seal inner key randomness priv_key pub_key kind decodes opens encoding json =
      let (box, sealed_to, opened) = opens (to_bytes (encode_app_frame inner)) randomness in
      (
        b64u_encode box,
        rw (seal_app_frame, decodes, sealed_to) refl,
        rw
            (
              open_sealed_frame,
              encoding box,
              opened,
              json,
              decode-encode_app_frame inner (IsSealable-IsWire inner kind),
            )
            kind,
      )
