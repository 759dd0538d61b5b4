-- ===== src/Client/Untouched/Frames.antt =====
-- What a whole frame leaves alone.
use orpal.Client.Untouched.Migrations.{on_ack-Same, on_challenge-Same, on_key_migration-Same}
use orpal.Sealed.{open_sealed_frame}
use orpal.Sealed.RoundTrip.{open-IsSealable, IsSealable}
use orpal.Frames.{
  migration_challenge, migration_ack, key_migration, file_done, file_chunk, sealed,
  migration_challenge_response, hello, text_frame, file_offer, FileOfferFrame,
}
use orpal.Client.Incoming.{Moment, process_outer, process_frame}
use orpal.Base.{String, refl, inl, inr, Option-cases, arith}
use orpal.Keys.{Orp}
use orpal.Client.{Outside, AppFrame, Client}
use orpal.Client.Untouched.{
  on_awk-Same, to_receiver-Same, get_message, awk, on_text-Same, Same, same_by, same,
}

-- The frames that write neither to the contacts nor to the requests.
abbrev pub IsPlain : AppFrame → Type 0
IsPlain (hello card) = ⊥
IsPlain (migration_challenge_response f) = ⊥
IsPlain _ = Unit {0}

module _ (orp : Orp) (out : Outside) where
  offer-Same :
      (key : String) (f : FileOfferFrame) (t : Moment) (c : Client orp)
      → Same orp c (process_frame orp out key (file_offer f) t c)
  unfolding process_frame
  offer-Same key f t c = elim (Option-cases (get_message f.file_id c.store)) [
    | inl fresh ↦ rw (process_frame, fresh) (to_receiver-Same orp out key (file_offer f) c)
    | inr (m, found) ↦ rw (process_frame, found) (same orp c)
  ]

  pub process-Same :
      (key : String) (f : AppFrame) (t : Moment) (c : Client orp)
      → IsPlain f
      → Same orp c (process_frame orp out key f t c)
  unfolding process_frame
  process-Same key (text_frame f) t c h = on_text-Same orp out key f t c
  process-Same key (awk f) t c h = on_awk-Same orp out f.id c
  process-Same key (file_offer f) t c h = offer-Same key f t c
  process-Same key (file_chunk f) t c h = to_receiver-Same orp out key (file_chunk f) c
  process-Same key (file_done id) t c h = to_receiver-Same orp out key (file_done id) c
  process-Same key (key_migration m) t c h = on_key_migration-Same orp out key m t c
  process-Same key (migration_challenge f) t c h = on_challenge-Same orp out key f t c
  process-Same key (migration_ack ack) t c h = on_ack-Same orp out key ack c
  process-Same key (sealed box) t c h = same orp c
  process-Same key (hello card) t c h = elim h [ ]
  process-Same key (migration_challenge_response f) t c h = elim h [ ]

  IsSealable-IsPlain : (f : AppFrame) → IsSealable f → IsPlain f
  IsSealable-IsPlain (text_frame f) h = tt
  IsSealable-IsPlain (file_offer f) h = tt
  IsSealable-IsPlain (awk f) h = tt
  IsSealable-IsPlain (file_chunk f) h = tt
  IsSealable-IsPlain (file_done f) h = tt
  IsSealable-IsPlain (sealed f) h = tt
  IsSealable-IsPlain (hello f) h = ground arith
  IsSealable-IsPlain (key_migration f) h = tt
  IsSealable-IsPlain (migration_ack f) h = tt
  IsSealable-IsPlain (migration_challenge f) h = tt
  IsSealable-IsPlain (migration_challenge_response f) h = ground arith

  pub sealed-Same :
      (key box : String) (t : Moment) (c : Client orp)
      → Same orp c (process_outer orp out key (sealed box) t c)
  unfolding process_outer
  sealed-Same key box t c =
      let priv_key = orp.transport_private c.identity in
      let pub_key = orp.transport_pub c.identity in
      elim (Option-cases (open_sealed_frame orp out.to_bytes out.of_bytes box priv_key pub_key)) [
        | inl bad ↦ rw (process_outer, bad) (same_by orp refl refl refl refl)
        | inr (inner, opened) ↦
            rw (process_outer, opened)
              (process-Same key inner t c (
                IsSealable-IsPlain inner (
                  open-IsSealable orp out.to_bytes out.of_bytes box priv_key pub_key inner opened)))
      ]
