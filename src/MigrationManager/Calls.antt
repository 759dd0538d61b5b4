-- ===== src/MigrationManager/Calls.antt =====
-- The calls of the contact's side in any order, and what a lookup among the pending migrations gives.
use orpal.Base.{◌⊎◌, String, true, false, List, [], ◌∷◌, none, some, ◌==◌, ◌≡◌, refl, inl, inr}
use orpal.Json.{Json}
use orpal.Frames.{Target}
use orpal.Keys.{Checked, refused, verified, Orp}
use orpal.MigrationManager.{Manager, PendingMigration}
use orpal.MigrationManager.Incoming.{
  accepted_of, handle_incoming_migration, accept_incoming_migration, decline_incoming_migration,
  find_pending,
}
use orpal.MigrationManager.Challenges.{Randomness, create_challenges, verify_challenge_response}

pub find_pending_head :
    (key : String) (q : PendingMigration) (ps : List PendingMigration)
    → (q.contact_key == key) ≡ true
    → find_pending key (q ∷ ps) ≡ some q
unfolding find_pending
find_pending_head key q ps same = rw (same, find_pending) refl

pub find_pending_tail :
    (key : String) (q : PendingMigration) (ps : List PendingMigration)
    → (q.contact_key == key) ≡ false
    → find_pending key (q ∷ ps) ≡ find_pending key ps
unfolding find_pending
find_pending_tail key q ps apart = rw (apart, find_pending) refl

pub Checked-cases :
    {A : Type 0} (c : Checked A)
    → ((reason : String) × (c ≡ refused reason)) ⊎ ((a : A) × (c ≡ verified a))
Checked-cases (refused reason) = inl (reason, refl)
Checked-cases (verified a) = inr (a, refl)

-- The calls of the contact's side, with what comes in over the wire.
pub data Call : Type 0 where
  arrives : Json → (contact_key contact_name : String) → Call
  challenges : Randomness → (contact_key old_transport_key : String) → Call
  responds : (contact_key : String) → Target → (sealed_echo : String) → Call
  accepts declines : (contact_key : String) → Call

module _ (orp : Orp) where
  open orp use {Identity}

  unfoldable pub call : Call → Manager Identity → Manager Identity
  call (arrives document key name) m = (handle_incoming_migration orp document key name m).1
  call (challenges r key old_key) m = (create_challenges orp r key old_key m).1
  call (responds key target echo) m = (verify_challenge_response orp key target echo m).1
  call (accepts key) m = (accept_incoming_migration orp key m).1
  call (declines key) m = decline_incoming_migration orp key m

  unfoldable pub run : List Call → Manager Identity → Manager Identity
  run [] m = m
  run (c ∷ cs) m = run cs (call c m)

  pub accepted_found :
      (key : String) (m : Manager Identity) (p : PendingMigration)
      → find_pending key m.pending_incoming ≡ some p
      → (accept_incoming_migration orp key m).0 ≡ some (accepted_of p)
  unfolding accept_incoming_migration
  accepted_found key m p found = rw (found, accept_incoming_migration) refl

  pub accepted_absent :
      (key : String) (m : Manager Identity)
      → find_pending key m.pending_incoming ≡ none
      → (accept_incoming_migration orp key m).0 ≡ none
  unfolding accept_incoming_migration
  accepted_absent key m absent = rw (absent, accept_incoming_migration) refl
