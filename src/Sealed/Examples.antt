-- ===== src/Sealed/Examples.antt =====
-- A text sealed to the key of a toy library's identity.
use orpal.Base.{String, [], ◌∷◌, ◌++◌, some, ◌≡◌, refl, Option}
use orpal.Json.{Json}
use orpal.Frames.{AppFrame, text_frame, sealed, encode_app_frame}
use orpal.Keys.{Bytes}
use orpal.Keys.Toy.{toy, encode, decode-encode, strip-append}
use orpal.MigrationManager.Answers.{Opens}
use orpal.Sealed.{seal_app_frame, open_sealed_frame}
use orpal.Sealed.RoundTrip.{open-seal}

abbrev note : AppFrame
note = text_frame (record { id = "m1"; body = "hi"; ts = 7 })

abbrev to_bytes : Json → Bytes
to_bytes j = 1 ∷ []

abbrev of_bytes : Bytes → Option Json
of_bytes b = some (encode_app_frame note)

opens : Opens toy (4 ∷ []) (4 ∷ [])
opens t randomness = ((4 ∷ []) ++ t, refl, strip-append (4 ∷ []) t)

open-seal_example :
    (box : String) × (seal_app_frame toy to_bytes of_bytes note (encode (4 ∷ [])) []
      ≡ some (sealed box))
    × (open_sealed_frame toy to_bytes of_bytes box (4 ∷ []) (4 ∷ []) ≡ some note)
open-seal_example =
    open-seal toy to_bytes of_bytes note (encode (4 ∷ [])) [] (4 ∷ []) (4 ∷ []) refl
      (decode-encode (4 ∷ [])) opens decode-encode refl
