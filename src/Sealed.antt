-- ===== src/Sealed.antt =====
-- packages/orpal-core/src/messaging/sealed.ts: a text or a file offer sealed to the transport key of its
-- recipient. `to_bytes` is `utf8` after `JSON.stringify`, and `of_bytes` is `JSON.parse` after `fromUtf8`;
-- the boxes are the ORP library's, and `randomness` is what `seal` draws.
pub mod RoundTrip
mod Examples
use orpal.Base.{String, Option, none, some, ◌>>=◌}
use orpal.Json.{Json}
use orpal.Frames.{AppFrame, text_frame, file_offer, sealed, encode_app_frame}
use orpal.Frames.Decode.{decode_app_frame}
use orpal.Keys.{Bytes, Orp}

-- Only a text and a file offer are sealed.
abbrev pub sealable : AppFrame → Option AppFrame
sealable (text_frame f) = some (text_frame f)
sealable (file_offer f) = some (file_offer f)
sealable _ = none

module _ (orp : Orp) (to_bytes : Json → Bytes) (of_bytes : Bytes → Option Json) where
  open orp use {seal, unseal, b64u_encode, b64u_decode}

  -- `none` where `seal` or the decoding of the key throws.
  unfoldable pub seal_app_frame :
      (inner : AppFrame) (recipient_transport_key : String) (randomness : Bytes) → Option AppFrame
  seal_app_frame inner recipient_transport_key randomness = do
    key ← b64u_decode recipient_transport_key
    box ← seal (to_bytes (encode_app_frame inner)) key randomness
    some (sealed (b64u_encode box))

  -- The box of a sealed frame, whose algorithm the decoder has checked.
  unfoldable pub open_sealed_frame :
      (box : String) (transport_priv transport_pub : Bytes) → Option AppFrame
  open_sealed_frame box transport_priv transport_pub = do
    bytes ← b64u_decode box
    plaintext ← unseal bytes transport_priv transport_pub
    value ← of_bytes plaintext
    inner ← decode_app_frame value
    sealable inner
