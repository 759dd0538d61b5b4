-- ===== src/Keys.antt =====
-- The private keys of a device, of packages/orpal-core/src/identity/secure-store.ts, and what the
-- program calls of the ORP library on identities, key migrations and sealed boxes: a parameter of all
-- that uses it. A function that may throw gives `none`; one that draws random bytes is given them.
pub mod Toy
use orpal.Base.{ℕ, String, Bool, List, Option, none, some, ◌≡◌, ◌↔◌, true}
use orpal.Json.{Json}

abbrev pub Bytes : Type 0
Bytes = List ℕ

pub record StoredKeys : Type 0 where
  pub signing_priv : String
  pub transport_priv : String
  pub created_utc : String

-- The fields of a migration record that the program reads, and the record.
pub record KeyMigration : Type 0 where
  pub old_key : String
  pub new_key : String
  pub new_binding : Json
  pub new_transport_key : String
  pub issued_utc : String
  pub document : Json

pub record MigrationAck : Type 0 where
  pub old_key : String
  pub new_key : String
  pub document : Json

pub data Checked (A : Type 0) : Type 0 where
  refused : (reason : String) → Checked A
  verified : A → Checked A

pub record Orp : Type 1 where
  pub Identity : Type 0
  -- `DeviceIdentity.fromPrivateKeys`, of the decoded keys.
  pub from_private_keys : StoredKeys → Option Identity
  pub identity_key : Identity → String
  pub transport_private : Identity → Bytes
  pub transport_pub : Identity → Bytes
  pub make_key_migration :
      (current replacement : Identity) (retire_after_utc now : String) → KeyMigration
  pub verify_key_migration : Json → Checked KeyMigration
  pub make_migration_ack : Identity → KeyMigration → (now : String) → MigrationAck
  -- `verifyMigrationAck`, for the recipient's key.
  pub verify_migration_ack : Json → String → Checked MigrationAck
  pub seal : (plaintext recipient_pub randomness : Bytes) → Option Bytes
  pub unseal : (box transport_priv transport_pub : Bytes) → Option Bytes
  pub b64u_encode : Bytes → String
  pub b64u_decode : String → Option Bytes
  pub bytes_equal : Bytes → Bytes → Bool
