-- ===== src/Frames/Sound.antt =====
-- A frame that the decoder gives carries only what stands in the object that it was read from.
use orpal.Base.{
  eq_iff, some, ◌≡◌, String, Gives, Gives-bind, Gives-guard, Gives-if, ◌==◌, eq_of_test, ap, ◌∙◌,
  sym, arith, true, ◌>>=◌, Option-cases, inl, inr,
}
use orpal.Json.{
  Fields, lookup, number, text, text_at-lookup, number_at-lookup, record_at-lookup, text_at,
}
use mathlib.Core.Option.{none-ne-some}
use orpal.Frames.{seal_alg, AppFrame, encode_fields, Target, target_name, old, new}
use orpal.Frames.Decode.{
  decode_kind, target_of, decode_text, decode_awk, decode_offer, decode_chunk, decode_done,
  decode_hello, decode_challenge, decode_response, decode_sealed, decode_migration,
  decode_migration_ack,
}
use orpal.Frames.Wire.{IsWire, Includes}

abbrev pub Sound : Fields → AppFrame → Type 0
Sound fs f = IsWire f × Includes fs (encode_fields f)

both {ℓ κ} : {A : Type ℓ} {B : Type κ} → A → B → A × B
both a b = (a, b)

target_of-name : (s : String) (t : Target) → target_of s ≡ some t → s ≡ target_name t
target_of-name s old e = ground (arith, eq_iff s "old", eq_iff s "new")
target_of-name s new e = ground (arith, eq_iff s "old", eq_iff s "new")

module _ (fs : Fields) (v : lookup "v" fs ≡ some (number 1)) where
  target_at :
      (t : Target)
      → (text_at "target" fs >>= target_of) ≡ some t
      → lookup "target" fs ≡ some (text (target_name t))
  target_at t e = elim (Option-cases (text_at "target" fs)) [
    | inl gone ↦ absurd (none-ne-some t (sym (ap (λ o. o >>= target_of) gone) ∙ e))
    | inr (s, a) ↦
        text_at-lookup "target" fs s a
        ∙ ap (λ n. some (text n)) (target_of-name s t (sym (ap (λ o. o >>= target_of) a) ∙ e))
  ]

  decode_text-Sound : lookup "t" fs ≡ some (text "text") → Gives (Sound fs) (decode_text fs)
  unfolding decode_text encode_fields
  decode_text-Sound t = Gives-bind (Sound fs) _ _ (λ x0 a. Gives-bind (Sound fs) _ _ (λ x1 b.
      Gives-bind (Sound fs) _ _ (λ x2 c. both tt (
        both v (
          both t (
            both (text_at-lookup "id" fs x0 a)
              (both (text_at-lookup "text" fs x1 b) (both (number_at-lookup "ts" fs x2 c) tt))))))))

  decode_awk-Sound : lookup "t" fs ≡ some (text "awk") → Gives (Sound fs) (decode_awk fs)
  unfolding decode_awk encode_fields
  decode_awk-Sound t = Gives-bind (Sound fs) _ _ (λ x0 a. Gives-bind (Sound fs) _ _ (λ x1 b.
      both tt (
        both v
          (both t (both (text_at-lookup "id" fs x0 a) (both (number_at-lookup "ts" fs x1 b) tt))))))

  decode_offer-Sound : lookup "t" fs ≡ some (text "file-offer") → Gives (Sound fs) (decode_offer fs)
  unfolding decode_offer encode_fields
  decode_offer-Sound t = Gives-bind (Sound fs) _ _ (λ x0 a. Gives-bind (Sound fs) _ _ (λ x1 b.
      Gives-bind (Sound fs) _ _ (λ x2 c. Gives-bind (Sound fs) _ _ (λ x3 d.
        Gives-bind (Sound fs) _ _ (λ x4 e. Gives-bind (Sound fs) _ _ (λ x5 f.
          Gives-bind (Sound fs) _ _ (λ x6 g. Gives-bind (Sound fs) _ _ (λ x7 h. both tt (
            both v (
              both t (
                both (text_at-lookup "fileId" fs x0 a) (
                  both (text_at-lookup "name" fs x1 b) (
                    both (number_at-lookup "size" fs x2 c) (
                      both (text_at-lookup "mime" fs x3 d) (
                        both (number_at-lookup "chunkSize" fs x4 e) (
                          both (number_at-lookup "chunks" fs x5 f) (
                            both (text_at-lookup "sha256" fs x6 g)
                              (both (number_at-lookup "ts" fs x7 h) tt))))))))))))))))))

  decode_chunk-Sound : lookup "t" fs ≡ some (text "file-chunk") → Gives (Sound fs) (decode_chunk fs)
  unfolding decode_chunk encode_fields
  decode_chunk-Sound t = Gives-bind (Sound fs) _ _ (λ x0 a. Gives-bind (Sound fs) _ _ (λ x1 b.
      Gives-bind (Sound fs) _ _ (λ x2 c. both tt (
        both v (
          both t (
            both (text_at-lookup "fileId" fs x0 a)
              (both (number_at-lookup "i" fs x1 b) (both (text_at-lookup "data" fs x2 c) tt))))))))

  decode_done-Sound : lookup "t" fs ≡ some (text "file-done") → Gives (Sound fs) (decode_done fs)
  unfolding decode_done encode_fields
  decode_done-Sound t =
      Gives-bind (Sound fs) _ _
        (λ x0 a. both tt (both v (both t (both (text_at-lookup "fileId" fs x0 a) tt))))

  decode_hello-Sound : lookup "t" fs ≡ some (text "hello") → Gives (Sound fs) (decode_hello fs)
  unfolding decode_hello encode_fields
  decode_hello-Sound t =
      Gives-bind (Sound fs) _ _
        (λ x0 a. both tt (both v (both t (both (text_at-lookup "card" fs x0 a) tt))))

  decode_challenge-Sound :
      lookup "t" fs ≡ some (text "migration-challenge") → Gives (Sound fs) (decode_challenge fs)
  unfolding decode_challenge encode_fields
  decode_challenge-Sound t = Gives-bind (Sound fs) _ _ (λ x0 a. Gives-bind (Sound fs) _ _ (λ x1 b.
      Gives-bind (Sound fs) _ _ (λ x2 c. both tt (
        both v (
          both t (
            both (target_at x0 a) (
              both (text_at-lookup "sealed_nonce" fs x1 b)
                (both (text_at-lookup "ack_pubkey" fs x2 c) tt))))))))

  decode_response-Sound :
      lookup "t" fs ≡ some (text "migration-challenge-response")
      → Gives (Sound fs) (decode_response fs)
  unfolding decode_response encode_fields
  decode_response-Sound t = Gives-bind (Sound fs) _ _ (λ x0 a. Gives-bind (Sound fs) _ _ (λ x1 b.
      both tt
        (both v (both t (both (target_at x0 a) (both (text_at-lookup "sealed_echo" fs x1 b) tt))))))

  decode_migration-Sound :
      lookup "t" fs ≡ some (text "key-migration") → Gives (Sound fs) (decode_migration fs)
  unfolding decode_migration encode_fields
  decode_migration-Sound t = Gives-bind (Sound fs) _ _ (λ x0 a.
      both (record_at-lookup "migration" fs x0 a).1
        (both v (both t (both (record_at-lookup "migration" fs x0 a).0 tt))))

  decode_migration_ack-Sound :
      lookup "t" fs ≡ some (text "migration-ack") → Gives (Sound fs) (decode_migration_ack fs)
  unfolding decode_migration_ack encode_fields
  decode_migration_ack-Sound t = Gives-bind (Sound fs) _ _ (λ x0 a.
      both (record_at-lookup "ack" fs x0 a).1
        (both v (both t (both (record_at-lookup "ack" fs x0 a).0 tt))))

  decode_sealed-Sound : lookup "t" fs ≡ some (text "sealed") → Gives (Sound fs) (decode_sealed fs)
  unfolding decode_sealed encode_fields
  decode_sealed-Sound t = Gives-bind (Sound fs) _ _ (λ alg a.
      Gives-guard (Sound fs) (alg == seal_alg) _ (λ same. Gives-bind (Sound fs) _ _ (λ box b.
        both tt (
          both v (
            both t (
              both
                (text_at-lookup "alg" fs alg a
                  ∙ ap (λ n. some (text n)) (eq_of_test alg seal_alg same))
                (both (text_at-lookup "box" fs box b) tt)))))))

  pub decode_kind-Sound :
      (s : String) → lookup "t" fs ≡ some (text s) → Gives (Sound fs) (decode_kind s fs)
  unfolding decode_kind
  decode_kind-Sound s t =
      Gives-if (Sound fs) _ _ _ (λ e. decode_text-Sound (at "text" e))
        (λ _.
          Gives-if (Sound fs) _ _ _ (λ e. decode_awk-Sound (at "awk" e))
            (λ _.
              Gives-if (Sound fs) _ _ _ (λ e. decode_offer-Sound (at "file-offer" e))
                (λ _.
                  Gives-if (Sound fs) _ _ _ (λ e. decode_chunk-Sound (at "file-chunk" e))
                    (λ _.
                      Gives-if (Sound fs) _ _ _ (λ e. decode_done-Sound (at "file-done" e))
                        (λ _.
                          Gives-if (Sound fs) _ _ _ (λ e. decode_sealed-Sound (at "sealed" e))
                            (λ _.
                              Gives-if (Sound fs) _ _ _ (λ e. decode_hello-Sound (at "hello" e))
                                (λ _.
                                  Gives-if (Sound fs) _ _ _
                                    (λ e. decode_migration-Sound (at "key-migration" e))
                                    (λ _.
                                      Gives-if (Sound fs) _ _ _
                                        (λ e. decode_migration_ack-Sound (at "migration-ack" e))
                                        (λ _.
                                          Gives-if (Sound fs) _ _ _
                                            (λ e.
                                              decode_challenge-Sound (at "migration-challenge" e))
                                            (λ _.
                                              Gives-if (Sound fs) _ _ _
                                                (λ e.
                                                  decode_response-Sound
                                                    (at "migration-challenge-response" e))
                                                (λ _. tt)))))))))))
    where
      at : (tag : String) → (s == tag) ≡ true → lookup "t" fs ≡ some (text tag)
      at tag e = t ∙ ap (λ n. some (text n)) (eq_of_test s tag e)
