-- ===== src/Keys/Toy.antt =====
-- A library that meets what the theorems ask of the one that the program calls: an identity is a number,
-- its own public and private key; a box is the key and the text; bytes are written in strokes.
use Prim.Native.Char.{code}
use mathlib.Core.Option
use orpal.Base.{
  ◌++◌, ◌>>=◌, ℕ, zero, suc, ◌+◌, String, Bool, true, false, [], ◌∷◌, Option, none, some, eqb,
  if◌then◌else◌, ◌≡◌, refl, ◌∙◌, ap, arith,
}
use orpal.Json.{Json, text, object, field, end, text_at, Fields}
use orpal.Keys.{Bytes, KeyMigration, MigrationAck, Checked, refused, verified, Orp}

unfoldable pub strokes : ℕ → String → String
strokes zero s = String.◌∷◌ "b" s
strokes (suc n) s = String.◌∷◌ "a" (strokes n s)

unfoldable pub encode : Bytes → String
encode [] = ""
encode (n ∷ bytes) = strokes n (encode bytes)

unfoldable pub decode_from : ℕ → String → Option Bytes
decode_from n String.[] = some []
decode_from n (String.◌∷◌ c s) =
    let next = decode_from (suc n) s in
    let done = Option.map (λ bytes. n ∷ bytes) (decode_from zero s) in
    if eqb (code c) 97 then next else done

decode-strokes :
    (k n : ℕ) (s : String)
    → decode_from k (strokes n s) ≡ Option.map (λ bytes. (k + n) ∷ bytes) (decode_from zero s)
unfolding decode_from strokes
decode-strokes k zero s =
    ap (λ (i : ℕ). Option.map {A = Bytes} (λ bytes. i ∷ bytes) (decode_from zero s)) (omega arith)
decode-strokes k (suc n) s =
    decode-strokes (suc k) n s
    ∙ ap (λ (i : ℕ). Option.map {A = Bytes} (λ bytes. i ∷ bytes) (decode_from zero s)) (omega arith)

pub decode-encode : (b : Bytes) → decode_from zero (encode b) ≡ some b
unfolding encode
decode-encode [] = unfold decode_from in refl
decode-encode (n ∷ bytes) =
    decode-strokes zero n (encode bytes)
    ∙ ap (Option.map (λ bytes. (zero + n) ∷ bytes)) (decode-encode bytes)
    ∙ ap (λ (i : ℕ). some (i ∷ bytes)) (omega arith)

unfoldable pub strip : Bytes → Bytes → Option Bytes
strip [] box = some box
strip (k ∷ key) [] = none
strip (k ∷ key) (n ∷ box) = let rest = strip key box in if eqb k n then rest else none

pub strip-append : (key text : Bytes) → strip key (key ++ text) ≡ some text
unfolding strip
strip-append [] t = refl
strip-append (k ∷ key) t = ground (arith, strip-append key t)

unfoldable pub same_bytes : Bytes → Bytes → Bool
same_bytes [] [] = true
same_bytes [] (n ∷ b) = false
same_bytes (k ∷ a) [] = false
same_bytes (k ∷ a) (n ∷ b) = let rest = same_bytes a b in if eqb k n then rest else false

pub same_bytes_refl : (b : Bytes) → same_bytes b b ≡ true
unfolding same_bytes
same_bytes_refl [] = refl
same_bytes_refl (k ∷ b) = ground (arith, same_bytes_refl b)

unfoldable pub first_byte : Bytes → Option ℕ
first_byte [] = none
first_byte (n ∷ b) = some n

unfoldable pub keys_of : String → Option ℕ
keys_of s = decode_from zero s >>= first_byte

-- A record of two keys that verifies as soon as it names them.
abbrev pub two_keys : (old_key new_key : String) → Json
two_keys old_key new_key =
    object (field "old_key" (text old_key) (field "new_key" (text new_key) end))

abbrev pub migration_of : (old_key new_key : String) → KeyMigration
migration_of old_key new_key = record {
  old_key = old_key;
  new_key = new_key;
  new_binding = text new_key;
  new_transport_key = new_key;
  issued_utc = "now";
  document = two_keys old_key new_key;
}

abbrev pub ack_of : (old_key new_key : String) → MigrationAck
ack_of old_key new_key = record {
  old_key = old_key;
  new_key = new_key;
  document = two_keys old_key new_key;
}

abbrev or_refused : {A : Type 0} → Option A → Checked A
or_refused none = refused "malformed"
or_refused (some a) = verified a

abbrev fields_of : Json → Fields
fields_of (object fs) = fs
fields_of _ = end

unfoldable pub read_migration : Json → Checked KeyMigration
read_migration document = or_refused (do
  old_key ← text_at "old_key" (fields_of document)
  new_key ← text_at "new_key" (fields_of document)
  some (migration_of old_key new_key))

unfoldable pub read_ack : Json → Checked MigrationAck
read_ack document = or_refused (do
  old_key ← text_at "old_key" (fields_of document)
  new_key ← text_at "new_key" (fields_of document)
  some (ack_of old_key new_key))

abbrev pub toy : Orp
toy = record {
  Identity = ℕ;
  from_private_keys = λ keys. keys_of keys.signing_priv;
  identity_key = λ n. encode (n ∷ []);
  transport_private = λ n. n ∷ [];
  transport_pub = λ n. n ∷ [];
  make_key_migration = λ current replacement retire_after_utc now.
      migration_of (encode (current ∷ [])) (encode (replacement ∷ []));
  verify_key_migration = read_migration;
  make_migration_ack = λ i m now. ack_of m.old_key m.new_key;
  verify_migration_ack = λ document key. read_ack document;
  seal = λ text pub_key randomness. some (pub_key ++ text);
  unseal = λ box priv_key pub_key. strip pub_key box;
  b64u_encode = encode;
  b64u_decode = decode_from zero;
  bytes_equal = same_bytes;
}
