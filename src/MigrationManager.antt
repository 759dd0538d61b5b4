-- ===== src/MigrationManager.antt =====
-- packages/orpal-core/src/messaging/migration-manager.ts: the replacement of a device's keys, here the
-- side of the device that migrates. The three stores that the manager is given are part of its state;
-- an in-memory store holds the object that the manager goes on to write and saves again at once, so
-- that a copy is the same.
pub mod Incoming
pub mod Challenges
pub mod Answers
mod Examples
pub mod Stored
pub mod Calls
pub mod Restart
pub mod Verified
pub mod Challenged
use orpal.Base.{
  ℕ, String, Bool, true, false, List, [], ◌∷◌, ◌++◌, Option, none, some, ◌==◌, ◌&&◌, not, leb,
  length, if◌then◌else◌, map,
}
use orpal.Base.KeySet
use orpal.Dict
use orpal.Dict.{Dict}
use orpal.Json.{Json}
use orpal.Contacts.{Contact}
use orpal.Keys.{Bytes, StoredKeys, KeyMigration, MigrationAck, Checked, refused, verified, Orp}

pub data MigrationPhase : Type 0 where
  notifying dual_validity retiring complete : MigrationPhase

-- `new_stored_keys` is the field of a state from before the keys had a store of their own.
pub record MigrationState : Type 0 where
  pub phase : MigrationPhase
  pub old_identity_key : String
  pub new_identity_key : String
  pub migration : KeyMigration
  pub retire_after_utc : String
  pub issued_utc : String
  pub notified_contacts : List String
  pub acknowledged_contacts : List String
  pub new_stored_keys : Option StoredKeys

pub record PendingMigration : Type 0 where
  pub contact_key : String
  pub contact_name : String
  pub migration : KeyMigration

-- The challenges that a contact has to answer with its old key and with its new one.
pub record ChallengeSet : Type 0 where
  pub migration : KeyMigration
  pub old_nonce : Bytes
  pub new_nonce : Bytes
  pub old_ack_priv : Bytes
  pub old_ack_pub : Bytes
  pub new_ack_priv : Bytes
  pub new_ack_pub : Bytes
  pub old_verified : Bool
  pub new_verified : Bool

pub record MigrationProgress : Type 0 where
  pub phase : MigrationPhase
  pub total_contacts : ℕ
  pub acknowledged : ℕ
  pub retire_after_utc : String

abbrev pub is_complete : MigrationPhase → Bool
is_complete complete = true
is_complete _ = false

abbrev pub is_notifying : MigrationPhase → Bool
is_notifying notifying = true
is_notifying _ = false

abbrev pub identity_keys : List Contact → List String
identity_keys [] = []
identity_keys (c ∷ contacts) = c.identity_key ∷ identity_keys contacts

-- `Identity` is the library's.
pub record Manager (Identity : Type 0) : Type 0 where
  pub key_store : Option StoredKeys
  pub pending_key_store : Option StoredKeys
  pub migration_store : Option MigrationState
  pub state : Option MigrationState
  pub new_identity : Option Identity
  pub pending_incoming : List PendingMigration
  pub pending_challenges : Dict ChallengeSet
  -- The migrations that the library's registry was given.
  pub registry : List KeyMigration

module _ (orp : Orp) where
  open orp use {Identity, from_private_keys, identity_key, make_key_migration, verify_migration_ack}

  -- A manager over stores that are there.
  unfoldable pub new_manager :
      (keys pending : Option StoredKeys) → Option MigrationState → Manager Identity
  new_manager keys pending saved = record {
    key_store = keys;
    pending_key_store = pending;
    migration_store = saved;
    state = none;
    new_identity = none;
    pending_incoming = [];
    pending_challenges = [];
    registry = [];
  }

  -- Keys in a state from before are moved to the store of their own. The second part is whether `init`
  -- ends without throwing.
  unfoldable pub promote_legacy : MigrationState → Manager Identity → Bool × Manager Identity
  promote_legacy st m = elim st.new_stored_keys [
    | none ↦ (true, m)
    | some legacy ↦
        let saved = record m { pending_key_store = some legacy } in
        elim (from_private_keys legacy) [
          | none ↦ (false, saved)
          | some identity ↦
              let stripped = record st { new_stored_keys = none } in
              (
                true,
                record saved {
                  new_identity = some identity;
                  state = some stripped;
                  migration_store = some stripped;
                },
              )
        ]
  ]

  unfoldable pub load_identity : MigrationState → Manager Identity → Bool × Manager Identity
  unfolding promote_legacy
  load_identity st m = elim m.pending_key_store [
    | none ↦ promote_legacy st m
    | some stored ↦ elim (from_private_keys stored) [
      | none ↦ (false, m)
      | some identity ↦ (true, record m { new_identity = some identity })
    ]
  ]

  unfoldable pub init : Manager Identity → Bool × Manager Identity
  unfolding load_identity
  init m =
      let loaded = record m { state = m.migration_store } in
      elim m.migration_store [
        | none ↦ (true, loaded)
        | some st ↦ if is_complete st.phase then (true, loaded) else load_identity st loaded
      ]

  unfoldable pub active : Manager Identity → Bool
  active m = elim m.state [ none ↦ false | some st ↦ not (is_complete st.phase) ]

  unfoldable pub progress : Manager Identity → Option MigrationProgress
  progress m = elim m.state [
    | none ↦ none
    | some st ↦ some (record {
      phase = st.phase;
      total_contacts = length st.notified_contacts;
      acknowledged = length st.acknowledged_contacts;
      retire_after_utc = st.retire_after_utc;
    })
  ]

  unfoldable pub new_identity_if_active : Manager Identity → Option Identity
  unfolding active
  new_identity_if_active m = if active m then m.new_identity else none

  pub data Started : Type 0 where
    already_in_progress unusable_keys : Started
    started : KeyMigration → Identity → Started

  unfoldable pub begin_migration :
      Identity
      → List Contact
      → (retire_after_utc now : String) → StoredKeys
      → Identity
      → Manager Identity
      → Started × Manager Identity
  begin_migration current contacts retire_after_utc now minted new_id m =
      let migration = make_key_migration current new_id retire_after_utc now in
      let st : MigrationState = record {
        phase = notifying;
        old_identity_key = identity_key current;
        new_identity_key = identity_key new_id;
        migration = migration;
        retire_after_utc = retire_after_utc;
        issued_utc = migration.issued_utc;
        notified_contacts = identity_keys contacts;
        acknowledged_contacts = [];
        new_stored_keys = none;
      } in
      (
        started migration new_id,
        record m {
          pending_key_store = some minted;
          new_identity = some new_id;
          state = some st;
          migration_store = some st;
        },
      )

  -- `minted` is what `mintStoredKeys` draws.
  unfoldable pub start_migration :
      Identity
      → List Contact
      → (retire_after_utc now : String) → (minted : StoredKeys) → Manager Identity
      → Started × Manager Identity
  unfolding active begin_migration
  start_migration current contacts retire_after_utc now minted m =
      if active m then (already_in_progress, m) else elim (from_private_keys minted) [
        | none ↦ (unusable_keys, m)
        | some new_id ↦ begin_migration current contacts retire_after_utc now minted new_id m
      ]

  unfoldable pub mark_notified : Manager Identity → Manager Identity
  mark_notified m = elim m.state [
    | none ↦ m
    | some st ↦
        let next = record st { phase = dual_validity } in
        if is_notifying st.phase
        then record m { state = some next; migration_store = some next }
        else m
  ]

  unfoldable pub acknowledge : MigrationState → String → Manager Identity → Manager Identity
  acknowledge st from_contact_key m =
      let next = record st {
        acknowledged_contacts = st.acknowledged_contacts ++ (from_contact_key ∷ []);
      } in
      if KeySet.contains from_contact_key st.acknowledged_contacts
      then m
      else record m { state = some next; migration_store = some next }

  unfoldable pub handle_migration_ack : Json → String → Manager Identity → Bool × Manager Identity
  unfolding acknowledge
  handle_migration_ack ack_record from_contact_key m = elim m.state [
    | none ↦ (false, m)
    | some st ↦ elim (verify_migration_ack ack_record from_contact_key) [
      | refused reason ↦ (false, m)
      | verified ack ↦
          if (ack.old_key == st.old_identity_key) && (ack.new_key == st.new_identity_key)
          then (true, acknowledge st from_contact_key m)
          else (false, m)
    ]
  ]

  unfoldable pub retire : Manager Identity → Manager Identity
  retire m = elim m.state [
    | none ↦ m
    | some st ↦ elim m.pending_key_store [
      | none ↦ m
      | some stored ↦ record m {
        key_store = some stored;
        pending_key_store = none;
        state = some (record st { phase = complete });
        migration_store = none;
      }
    ]
  ]

  -- `parse_date` is `Date.parse`, `none` where it is not a number.
  unfoldable pub is_retirement_due :
      (parse_date : String → Option ℕ) (now : ℕ) → Manager Identity → Bool
  is_retirement_due parse_date now m = elim m.state [
    | none ↦ false
    | some st ↦ elim (parse_date st.retire_after_utc) [ none ↦ false | some t ↦ leb t now ]
  ]
