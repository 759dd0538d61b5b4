-- ===== src/MigrationManager/Incoming.antt =====
-- The other side of migration-manager.ts: a contact's migration that comes in.
use orpal.Base.{
  String, Bool, true, false, List, [], ◌∷◌, ◌++◌, Option, none, some, ◌==◌, ◌&&◌, if◌then◌else◌,
}
use orpal.Json.{Json}
use orpal.Keys.{KeyMigration, MigrationAck, refused, verified, Orp}
use orpal.MigrationManager.{Manager, PendingMigration}

pub data Handled : Type 0 where
  invalid : (reason : String) → Handled
  valid : Handled

unfoldable pub is_pending : String → KeyMigration → List PendingMigration → Bool
is_pending contact_key migration [] = false
is_pending contact_key migration (p ∷ pending) =
    let rest = is_pending contact_key migration pending in
    if (p.contact_key == contact_key) && (p.migration.new_key == migration.new_key)
    then true
    else rest

-- The first of a contact, as `find` and `findIndex` have it.
unfoldable pub find_pending : String → List PendingMigration → Option PendingMigration
find_pending contact_key [] = none
find_pending contact_key (p ∷ pending) =
    let rest = find_pending contact_key pending in
    if p.contact_key == contact_key then some p else rest

-- `splice(idx, 1)` at that one.
unfoldable pub remove_pending : String → List PendingMigration → List PendingMigration
remove_pending contact_key [] = []
remove_pending contact_key (p ∷ pending) =
    let rest = remove_pending contact_key pending in
    if p.contact_key == contact_key then pending else p ∷ rest

pub record Accepted : Type 0 where
  pub migration : KeyMigration
  pub identity_key : String
  pub transport_key : String
  pub binding : Json

abbrev pub accepted_of : PendingMigration → Accepted
accepted_of p = record {
  migration = p.migration;
  identity_key = p.migration.new_key;
  transport_key = p.migration.new_transport_key;
  binding = p.migration.new_binding;
}

module _ (orp : Orp) where
  open orp use {
    Identity, verify_key_migration, make_migration_ack, seal, unseal, b64u_encode, b64u_decode,
    bytes_equal, transport_private, transport_pub,
  }

  unfoldable pub enqueue_incoming :
      String → String → KeyMigration → Manager Identity → Manager Identity
  unfolding is_pending
  enqueue_incoming contact_key contact_name migration m =
      if is_pending contact_key migration m.pending_incoming then m else record m {
        pending_incoming =
            m.pending_incoming
            ++ (record {
              contact_key = contact_key;
              contact_name = contact_name;
              migration = migration;
            }
                ∷ []);
      }

  unfoldable pub handle_incoming_migration :
      Json → (contact_key contact_name : String) → Manager Identity → Handled × Manager Identity
  unfolding enqueue_incoming
  handle_incoming_migration migration_record contact_key contact_name m =
      elim (verify_key_migration migration_record) [
        | refused reason ↦ (invalid reason, m)
        | verified migration ↦
            if migration.old_key == contact_key
            then (valid, enqueue_incoming contact_key contact_name migration m)
            else (invalid "migration-sender-mismatch", m)
      ]

  unfoldable pub accept_incoming_migration :
      String → Manager Identity → Option Accepted × Manager Identity
  unfolding find_pending remove_pending
  accept_incoming_migration contact_key m = elim (find_pending contact_key m.pending_incoming) [
    | none ↦ (none, m)
    | some p ↦ (
      some (accepted_of p),
      record m {
        pending_incoming = remove_pending contact_key m.pending_incoming;
        registry = m.registry ++ (p.migration ∷ []);
      },
    )
  ]

  unfoldable pub decline_incoming_migration : String → Manager Identity → Manager Identity
  unfolding remove_pending
  decline_incoming_migration contact_key m = record m {
    pending_incoming = remove_pending contact_key m.pending_incoming;
  }

  unfoldable pub build_migration_ack : Identity → KeyMigration → (now : String) → MigrationAck
  build_migration_ack recipient migration now = make_migration_ack recipient migration now
