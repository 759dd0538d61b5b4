-- ===== src/Frames/Wire.antt =====
-- What the decoder accepts: exactly the objects that carry every field of an encoded frame.
use orpal.Base.{true, some, ◌≡◌, refl}
use orpal.Json.{Fields, object, end, field, lookup, is_record}
use orpal.Frames.{
  AppFrame, Target, old, new, text_frame, awk, file_offer, file_chunk, file_done, sealed, hello,
  key_migration, migration_ack, migration_challenge, migration_challenge_response, target_name,
  encode_fields,
}
use orpal.Frames.Decode.{
  decode_app_frame, decode_kind, target_of, decode_text, decode_awk, decode_offer, decode_chunk,
  decode_done, decode_sealed, decode_hello, decode_migration, decode_migration_ack,
  decode_challenge, decode_response,
}

-- The object has every field of the other, with the value that it has there.
abbrev pub Includes : Fields → Fields → Type 0
Includes fs end = Unit {0}
Includes fs (field k v rest) = (lookup k fs ≡ some v) × Includes fs rest

-- What a migration frame carries is an object.
abbrev pub IsWire : AppFrame → Type 0
IsWire (key_migration m) = is_record m ≡ true
IsWire (migration_ack a) = is_record a ≡ true
IsWire _ = Unit {0}

target_of-target_name : (t : Target) → target_of (target_name t) ≡ some t
target_of-target_name old = refl
target_of-target_name new = refl

pub decode_of_Includes :
    (f : AppFrame) (fs : Fields)
    → IsWire f
    → Includes fs (encode_fields f)
    → decode_app_frame (object fs) ≡ some f
unfolding encode_fields decode_app_frame decode_kind decode_text decode_awk decode_offer
    decode_chunk decode_done decode_sealed decode_hello decode_migration decode_migration_ack
    decode_challenge decode_response
decode_of_Includes (text_frame f) fs w (p, (q, (r0, (r1, (r2, _))))) = simp (p, q, r0, r1, r2) refl
decode_of_Includes (awk f) fs w (p, (q, (r0, (r1, _)))) = simp (p, q, r0, r1) refl
decode_of_Includes (file_offer f) fs w (p, (q, (r0, (r1, (r2, (r3, (r4, (r5, (r6, (r7, _)))))))))) =
    simp (p, q, r0, r1, r2, r3, r4, r5, r6, r7) refl
decode_of_Includes (file_chunk f) fs w (p, (q, (r0, (r1, (r2, _))))) = simp (p, q, r0, r1, r2) refl
decode_of_Includes (file_done i) fs w (p, (q, (r0, _))) = simp (p, q, r0) refl
decode_of_Includes (sealed b) fs w (p, (q, (r0, (r1, _)))) = simp (p, q, r0, r1) refl
decode_of_Includes (hello c) fs w (p, (q, (r0, _))) = simp (p, q, r0) refl
decode_of_Includes (key_migration m) fs w (p, (q, (r0, _))) = simp (p, q, r0, w) refl
decode_of_Includes (migration_ack m) fs w (p, (q, (r0, _))) = simp (p, q, r0, w) refl
decode_of_Includes (migration_challenge f) fs w (p, (q, (r0, (r1, (r2, _))))) =
    simp (p, q, r0, r1, r2, target_of-target_name f.target) refl
decode_of_Includes (migration_challenge_response f) fs w (p, (q, (r0, (r1, _)))) =
    simp (p, q, r0, r1, target_of-target_name f.target) refl
