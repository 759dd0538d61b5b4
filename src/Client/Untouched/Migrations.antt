-- ===== src/Client/Untouched/Migrations.antt =====
-- What a frame about a key migration leaves alone.
use orpal.MigrationManager.Incoming.{handle_incoming_migration, Handled}
use orpal.Client.Incoming.{
  on_handled, challenge_contact, on_valid_migration, on_key_migration, on_ack, on_challenge,
}
use orpal.Frames.{ChallengeFrame}
use orpal.Base.{String, List, Option, some, ◌≡◌, refl, inl, inr, ◌⊎◌, Option-cases}
use orpal.Json.{Json}
use orpal.Keys.{Orp}
use orpal.ContactRegistry
use orpal.MigrationManager as Migrations
use orpal.MigrationManager.Incoming as Handling
use orpal.MigrationManager.Challenges.{
  answer_challenge, create_challenges, Created, created, nothing_pending, throws, Answered, answer,
  no_answer, answer_throws,
}
use orpal.Client.{Outside, Client}
use orpal.Client.Untouched.{
  send_challenges-Same, send-Same, report_progress-Same, report_incoming-Same, OutboundChallenge,
  Moment, Same, same_by, same_if, same_trans, same,
}

Created-cases :
    (r : Created)
    → ((challenges : List OutboundChallenge) × (r ≡ created challenges))
      ⊎ ((r ≡ nothing_pending) ⊎ (r ≡ throws))
Created-cases (created challenges) = inl (challenges, refl)
Created-cases nothing_pending = inr (inl refl)
Created-cases throws = inr (inr refl)

Answered-cases :
    (r : Answered) → ((echo : String) × (r ≡ answer echo)) ⊎ ((r ≡ no_answer) ⊎ (r ≡ answer_throws))
Answered-cases (answer echo) = inl (echo, refl)
Answered-cases no_answer = inr (inl refl)
Answered-cases answer_throws = inr (inr refl)

Handled-cases :
    (r : Handling.Handled)
    → ((reason : String) × (r ≡ Handling.invalid reason)) ⊎ (r ≡ Handling.valid)
Handled-cases (Handling.invalid reason) = inl (reason, refl)
Handled-cases Handling.valid = inr refl

module _ (orp : Orp) (out : Outside) where
  -- The manager is written first.
  after :
      (m : Option (Migrations.Manager orp.Identity)) (c d : Client orp)
      → Same orp (record c { migration = m }) d
      → Same orp c d
  after m c d s = same_trans orp (same_by orp refl refl refl refl) s

  challenge_contact-Same :
      (key old_key : String) (t : Moment) (m : Migrations.Manager orp.Identity) (c : Client orp)
      → Same orp c (challenge_contact orp out key old_key t m c)
  unfolding challenge_contact
  challenge_contact-Same key old_key t m c =
      elim (Created-cases ((create_challenges orp t.drawn key old_key m).0)) [
        | inl (challenges, made) ↦
            rw (challenge_contact, made)
              (after _ c _ (send_challenges-Same orp out key challenges _))
        | inr (inl nothing) ↦
            rw (challenge_contact, nothing)
              (after (some ((create_challenges orp t.drawn key old_key m).1)) c _ (
                report_incoming-Same orp out (record c {
                  migration = some ((create_challenges orp t.drawn key old_key m).1);
                })))
        | inr (inr threw) ↦ rw (challenge_contact, threw) (same_by orp refl refl refl refl)
      ]

  on_valid-Same :
      (key : String) (t : Moment) (m : Migrations.Manager orp.Identity) (c : Client orp)
      → Same orp c (on_valid_migration orp out key t m c)
  unfolding on_valid_migration
  on_valid-Same key t m c = elim (Option-cases (ContactRegistry.transport_key key c.contacts)) [
    | inl unknown ↦
        rw (on_valid_migration, unknown)
          (after (some m) c _ (report_incoming-Same orp out (record c { migration = some m })))
    | inr (old_key, known) ↦
        rw (on_valid_migration, known)
          (same_if orp _ (after (some m) c _ (challenge_contact-Same key old_key t m _))
            (after (some m) c _ (report_incoming-Same orp out (record c { migration = some m }))))
  ]

  handled-Same :
      (key : String) (migration : Json) (t : Moment) (name : String)
      (m : Migrations.Manager orp.Identity) (c : Client orp)
      → Same orp c (on_handled orp out key migration t name m c)
  unfolding on_handled
  handled-Same key migration t name m c =
      elim (Handled-cases ((handle_incoming_migration orp migration key name m).0)) [
        | inl (reason, bad) ↦ rw (on_handled, bad) (same_by orp refl refl refl refl)
        | inr good ↦
            rw (on_handled, good)
              (on_valid-Same key t ((handle_incoming_migration orp migration key name m).1) c)
      ]

  pub on_key_migration-Same :
      (key : String) (migration : Json) (t : Moment) (c : Client orp)
      → Same orp c (on_key_migration orp out key migration t c)
  unfolding on_key_migration
  on_key_migration-Same key migration t c = elim (Option-cases c.migration) [
    | inl missing ↦ simp (on_key_migration, missing) (same orp c)
    | inr (m, found) ↦ simp (on_key_migration, found) (handled-Same key migration t _ m c)
  ]

  pub on_challenge-Same :
      (key : String) (f : ChallengeFrame) (t : Moment) (c : Client orp)
      → Same orp c (on_challenge orp out key f t c)
  unfolding on_challenge
  on_challenge-Same key f t c = elim (Option-cases c.migration) [
    | inl missing ↦ simp (on_challenge, missing) (same orp c)
    | inr (m, found) ↦
        elim (Answered-cases
          (answer_challenge orp t.box c.identity f.target f.sealed_nonce f.ack_pubkey m)) [
            | inl (echo, said) ↦
                simp (on_challenge, found, said)
                  (same_if orp (Migrations.active orp m) (send-Same orp key _ c) (same orp c))
            | inr (inl nothing) ↦
                simp (on_challenge, found, nothing)
                  (same_if orp (Migrations.active orp m) (same orp c) (same orp c))
            | inr (inr threw) ↦
                simp (on_challenge, found, threw)
                  (same_if orp (Migrations.active orp m) (same orp c) (same orp c))
          ]
  ]

  pub on_ack-Same :
      (key : String) (ack : Json) (c : Client orp) → Same orp c (on_ack orp out key ack c)
  unfolding on_ack
  on_ack-Same key ack c = elim (Option-cases c.migration) [
    | inl missing ↦ simp (on_ack, missing) (same orp c)
    | inr (m, found) ↦
        simp (on_ack, found)
          (same_if orp ((Migrations.handle_migration_ack orp ack key m).0)
            (after _ c _ (report_progress-Same orp _)) (same_by orp refl refl refl refl))
  ]
