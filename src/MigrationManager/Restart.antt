-- ===== src/MigrationManager/Restart.antt =====
-- A device that is started again in the middle of a migration, and one that retires its old keys.
use orpal.Base.{true, false, List, Option, none, some, ◌≡◌, refl, ◌∙◌, ap, sym, inl, inr}
use orpal.Keys.{StoredKeys, Orp}
use orpal.MigrationManager.{
  Manager, MigrationState, is_complete, new_manager, init, load_identity, active, retire,
}
use orpal.MigrationManager.Stored.{Initiator, initiate_all, Holds, IsStored, initiate_all-IsStored}

module _ (orp : Orp) where
  open orp use {Identity, from_private_keys, identity_key, verify_migration_ack}

  -- A new manager over the same stores.
  unfoldable pub restarted : Manager Identity → Manager Identity
  restarted m = (init orp (new_manager orp m.key_store m.pending_key_store m.migration_store)).1

  held_of :
      (m : Manager Identity)
      → IsStored orp m
      → active orp m ≡ true
      → (st : MigrationState) × (keys : StoredKeys) × (identity : Identity) × Holds orp st keys
          identity m
  held_of m (inl idle) busy = cc
  held_of m (inr held) busy = held

  init_saved :
      (main : Option StoredKeys) (keys : StoredKeys) (st : MigrationState) (identity : Identity)
      → is_complete st.phase ≡ false
      → from_private_keys keys ≡ some identity
      → ((init orp (new_manager orp main (some keys) (some st))).1.state ≡ some st)
        × ((init orp (new_manager orp main (some keys) (some st))).1.new_identity ≡ some identity)
  unfolding init new_manager
  init_saved main keys st identity running usable = rw (running, usable, load_identity) (refl, refl)

  restarted_held :
      (st : MigrationState) (keys : StoredKeys) (identity : Identity) (m : Manager Identity)
      → Holds orp st keys identity m
      → ((restarted m).state ≡ m.state) × ((restarted m).new_identity ≡ m.new_identity)
  unfolding restarted
  restarted_held st keys identity m h =
      let found = init_saved m.key_store keys st identity h.running h.usable in
      let same : restarted m ≡ (init orp (new_manager orp m.key_store (some keys) (some st))).1 =
        ap (λ stores. (init orp (new_manager orp m.key_store stores m.migration_store)).1)
          h.sealed_keys
        ∙ ap (λ saved. (init orp (new_manager orp m.key_store (some keys) saved)).1) h.saved in
      (
        ap (λ r. r.state) same ∙ found.0 ∙ sym h.current,
        ap (λ r. r.new_identity) same ∙ found.1 ∙ sym h.known,
      )

  retired_held :
      (st : MigrationState) (keys : StoredKeys) (identity : Identity) (m : Manager Identity)
      → Holds orp st keys identity m
      → ((retire orp m).key_store ≡ some keys)
        × ((retire orp m).pending_key_store ≡ none)
        × ((retire orp m).migration_store ≡ none)
        × (active orp (retire orp m) ≡ false)
  unfolding retire active
  retired_held st keys identity m h = rw (h.current, h.sealed_keys) (refl, refl, refl, refl)

  -- After any calls of a manager that was not migrating, while a migration is going on: a new manager over
  -- the same stores comes back to the same state and the same new identity.
  pub restarted-state :
      (cs : List (Initiator orp)) (m : Manager Identity)
      → active orp m ≡ false
      → active orp (initiate_all orp cs m) ≡ true
      → ((restarted (initiate_all orp cs m)).state ≡ (initiate_all orp cs m).state)
        × ((restarted (initiate_all orp cs m)).new_identity ≡ (initiate_all orp cs m).new_identity)
  restarted-state cs m idle busy =
      let (st, keys, identity, h) =
        held_of (initiate_all orp cs m) (initiate_all-IsStored orp cs m (inl idle)) busy in
      restarted_held st keys identity (initiate_all orp cs m) h

  -- After any calls of a manager that was not migrating, retiring the old keys in the middle of a migration
  -- puts into the main store the keys of the identity that the migration announced, empties the two other
  -- stores and ends the migration.
  pub retire-announced :
      (cs : List (Initiator orp)) (m : Manager Identity)
      → active orp m ≡ false
      → active orp (initiate_all orp cs m) ≡ true
      → let before = initiate_all orp cs m in
        let after = retire orp before in
        (st : MigrationState) × (keys : StoredKeys) × (identity : Identity) × (before.state
          ≡ some st)
        × (after.key_store ≡ some keys)
        × (from_private_keys keys ≡ some identity)
        × (identity_key identity ≡ st.new_identity_key)
        × (after.pending_key_store ≡ none)
        × (after.migration_store ≡ none)
        × (active orp after ≡ false)
  retire-announced cs m idle busy =
      let (st, keys, identity, h) =
        held_of (initiate_all orp cs m) (initiate_all-IsStored orp cs m (inl idle)) busy in
      let done = retired_held st keys identity (initiate_all orp cs m) h in
      (st, keys, identity, h.current, done.0, h.usable, sym h.announced, done.1, done.2, done.3)
