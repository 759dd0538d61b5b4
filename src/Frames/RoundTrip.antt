-- ===== src/Frames/RoundTrip.antt =====
-- The frames that `decodeAppFrame` accepts, and the round trip through `encodeAppFrame`.
use mathlib.Core.Option.{none-ne-some}
use orpal.Base.{
  some, ◌≡◌, refl, Gives, Gives-bind, Gives-guard, Gives-some, eqb, ◌∙◌, ap, ℕ, arith, ◌↔◌, true,
}
use orpal.Json.{
  Fields, Json, lookup, object, array, null, boolean, number, text, text_at-lookup,
  number_at-lookup,
}
use orpal.Frames.{
  AppFrame, encode_fields, encode_app_frame, text_frame, awk, file_offer, file_chunk, file_done,
  sealed, hello, key_migration, migration_ack, migration_challenge, migration_challenge_response,
}
use orpal.Frames.Decode.{decode_app_frame}
use orpal.Frames.Wire.{IsWire, Includes, decode_of_Includes}
use orpal.Frames.Sound.{Sound, decode_kind-Sound}

-- The value is an object that has every field of the encoded frame.
abbrev pub Carries : Json → AppFrame → Type 0
Carries (object fs) f = Sound fs f
Carries _ f = ⊥

one_of_test : (n : ℕ) → eqb n 1 ≡ true → n ≡ 1
one_of_test n e = ground arith

decode-Sound : (fs : Fields) → Gives (Sound fs) (decode_app_frame (object fs))
unfolding decode_app_frame
decode-Sound fs = Gives-bind (Sound fs) _ _ (λ n a. Gives-guard (Sound fs) (eqb n 1) _ (λ one.
    Gives-bind (Sound fs) _ _ (λ t b.
      decode_kind-Sound fs
        (number_at-lookup "v" fs n a ∙ ap (λ k. some (number k)) (one_of_test n one)) t
        (text_at-lookup "t" fs t b))))

-- The decoder gives a frame exactly for an object that has every field of the encoded frame, with the
-- value that it has there, and, in a migration frame, a record that is an object. So no field of a
-- frame is invented, unknown fields are ignored, and all else is dropped. The numbers of a JSON value are
-- natural numbers here.
pub decode_app_frame_iff : (j : Json) (f : AppFrame) → (decode_app_frame j ≡ some f) ↔ Carries j f
unfolding decode_app_frame
decode_app_frame_iff (object fs) f =
    (λ e. Gives-some (Sound fs) _ f (decode-Sound fs) e, λ h. decode_of_Includes f fs h.0 h.1)
decode_app_frame_iff null f = (λ e. none-ne-some f e, λ h. absurd h)
decode_app_frame_iff (boolean b) f = (λ e. none-ne-some f e, λ h. absurd h)
decode_app_frame_iff (number n) f = (λ e. none-ne-some f e, λ h. absurd h)
decode_app_frame_iff (text s) f = (λ e. none-ne-some f e, λ h. absurd h)
decode_app_frame_iff (array a) f = (λ e. none-ne-some f e, λ h. absurd h)

encode-Includes : (f : AppFrame) → Includes (encode_fields f) (encode_fields f)
unfolding encode_fields lookup
encode-Includes (text_frame f) = (refl, (refl, (refl, (refl, (refl, tt)))))
encode-Includes (awk f) = (refl, (refl, (refl, (refl, tt))))
encode-Includes (file_offer f) =
    (refl, (refl, (refl, (refl, (refl, (refl, (refl, (refl, (refl, (refl, tt))))))))))
encode-Includes (file_chunk f) = (refl, (refl, (refl, (refl, (refl, tt)))))
encode-Includes (file_done i) = (refl, (refl, (refl, tt)))
encode-Includes (sealed b) = (refl, (refl, (refl, (refl, tt))))
encode-Includes (hello c) = (refl, (refl, (refl, tt)))
encode-Includes (key_migration m) = (refl, (refl, (refl, tt)))
encode-Includes (migration_ack a) = (refl, (refl, (refl, tt)))
encode-Includes (migration_challenge f) = (refl, (refl, (refl, (refl, (refl, tt)))))
encode-Includes (migration_challenge_response f) = (refl, (refl, (refl, (refl, tt))))

-- Decoding undoes encoding, for every frame whose migration record, if it has one, is an object.
pub decode-encode_app_frame :
    (f : AppFrame) → IsWire f → decode_app_frame (encode_app_frame f) ≡ some f
unfolding encode_app_frame
decode-encode_app_frame f w = decode_of_Includes f (encode_fields f) w (encode-Includes f)
