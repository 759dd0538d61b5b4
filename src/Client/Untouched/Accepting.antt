-- ===== src/Client/Untouched/Accepting.antt =====
-- A property of clients that holds through every frame, as soon as it does so where a frame writes to the
-- contacts or to the requests.
use orpal.MigrationManager.Challenges.{verify_challenge_response}
use orpal.Frames.{ChallengeResponseFrame}
use orpal.Client.Incoming.{Moment, on_verdict, on_response}
use orpal.Client.Migration.{accept_migration, replace_contact}
use orpal.MigrationManager.Incoming.{accept_incoming_migration, Accepted}
use orpal.Base.{String, Bool, true, false, some, if◌then◌else◌, refl, inl, inr, Option-cases}
use orpal.Keys.{Orp}
use orpal.Client.{Outside, Client}
use orpal.Client.Untouched.{send-Same, Same, same_by}

abbrev pub kept_if {ℓ} :
    {A : Type ℓ} (P : A → Type 0) {x y : A} (b : Bool) → P x → P y → P (if b then x else y)
kept_if P true p q = p
kept_if P false p q = q

module _ (orp : Orp) (P : Client orp → Type 0)
    (along : (c d : Client orp) → Same orp c d → P c → P d)
    (replaced : (key : String) (a : Accepted) (c : Client orp)
      → P c
      → P (replace_contact orp key a c)) where
  accept_migration-kept :
      (key now : String) (c : Client orp) → P c → P ((accept_migration orp key now c).1)
  unfolding accept_migration
  accept_migration-kept key now c p = elim (Option-cases c.migration) [
    | inl missing ↦ simp (accept_migration, missing) p
    | inr (m, found) ↦ elim (Option-cases ((accept_incoming_migration orp key m).0)) [
      | inl nothing ↦
          simp (accept_migration, found, nothing) (along c _ (same_by orp refl refl refl refl) p)
      | inr (a, pending) ↦
          simp (accept_migration, found, pending)
            (along _ _ (send-Same orp key _ _)
              (replaced key a _ (along c _ (same_by orp refl refl refl refl) p)))
    ]
  ]

  module _ (out : Outside) where
    on_verdict-kept :
        (key : String) (t : Moment) (both : Bool) (c : Client orp)
        → P c
        → P (on_verdict orp out key t both c)
    unfolding on_verdict
    on_verdict-kept key t both c p =
        let q = accept_migration-kept key t.now_utc c p in
        kept_if P both
          (kept_if P ((accept_migration orp key t.now_utc c).0)
            (along _ _ (same_by orp refl refl refl refl) q) q)
          p

    pub on_response-kept :
        (key : String) (f : ChallengeResponseFrame) (t : Moment) (c : Client orp)
        → P c
        → P (on_response orp out key f t c)
    unfolding on_response
    on_response-kept key f t c p = elim (Option-cases c.migration) [
      | inl missing ↦ simp (on_response, missing) p
      | inr (m, found) ↦
          let known =
            along c
              (record c {
                migration = some ((verify_challenge_response orp key f.target f.sealed_echo m).1);
              })
              (same_by orp refl refl refl refl) p in
          simp (on_response, found)
            (on_verdict-kept key t _ _ (
              kept_if P ((verify_challenge_response orp key f.target f.sealed_echo m).0.valid) known
                (along _ _ (same_by orp refl refl refl refl) known)))
    ]
