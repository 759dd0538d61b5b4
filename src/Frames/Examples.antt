-- ===== src/Frames/Examples.antt =====
-- Frames decoded from concrete values.
use orpal.Base.{true, none, some, ◌≡◌, refl, ◌↔◌}
use orpal.Json.{Json, object, field, end, text, number, boolean, lookup}
use orpal.Frames.{AppFrame, awk, key_migration, encode_app_frame}
use orpal.Frames.Decode.{decode_app_frame, decode_kind, decode_awk}
use orpal.Frames.RoundTrip.{Carries, decode_app_frame_iff, decode-encode_app_frame}

abbrev acked : AppFrame
acked = awk (record { id = "m1"; ts = 90 })

-- The fields in another order, and one more.
abbrev acked_value : Json
acked_value = object (
    field "id" (text "m1") (
      field "extra" (boolean true)
        (field "ts" (number 90) (field "t" (text "awk") (field "v" (number 1) end)))))

decode-acked : decode_app_frame acked_value ≡ some acked
unfolding decode_app_frame decode_kind decode_awk lookup
decode-acked = refl

-- Another version is dropped.
decode-newer : decode_app_frame (object (field "v" (number 2) (field "t" (text "awk") end))) ≡ none
unfolding decode_app_frame lookup
decode-newer = refl

abbrev migrated : AppFrame
migrated = key_migration (object (field "type" (text "key_migration") end))

decode_app_frame_iff_example :
    (decode_app_frame acked_value ≡ some acked) ↔ Carries acked_value acked
decode_app_frame_iff_example = decode_app_frame_iff acked_value acked

decode-encode_app_frame_example : decode_app_frame (encode_app_frame migrated) ≡ some migrated
decode-encode_app_frame_example = decode-encode_app_frame migrated refl
