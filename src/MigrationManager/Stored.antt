-- ===== src/MigrationManager/Stored.antt =====
-- What the stores hold while a device migrates, under all calls of that side.
use mathlib.Core.Option.{some-injective}
use orpal.Base.{
  ◌⊎◌, subst, String, true, false, List, [], ◌∷◌, ◌++◌, some, ◌==◌, ◌&&◌, ◌≡◌, refl, ◌∙◌, sym, inl,
  inr, Bool-cases, Option-cases, arith,
}
use orpal.Base.KeySet
use orpal.Json.{Json}
use orpal.Contacts.{Contact}
use orpal.Keys.{StoredKeys, Orp}
use orpal.MigrationManager.{
  Manager, MigrationState, dual_validity, is_complete, is_notifying, active, start_migration,
  begin_migration, mark_notified, handle_migration_ack, acknowledge, retire,
}
use orpal.MigrationManager.Calls.{Checked-cases}

module _ (orp : Orp) where
  open orp use {Identity, from_private_keys, identity_key, verify_migration_ack}

  -- The calls of the side that migrates.
  pub data Initiator : Type 0 where
    starts : Identity → List Contact → (retire_after_utc now : String) → StoredKeys → Initiator
    notified : Initiator
    acked : Json → (from_contact_key : String) → Initiator
    retires : Initiator

  unfoldable pub initiate : Initiator → Manager Identity → Manager Identity
  initiate (starts current contacts retire_after now minted) m =
      (start_migration orp current contacts retire_after now minted m).1
  initiate notified m = mark_notified orp m
  initiate (acked document key) m = (handle_migration_ack orp document key m).1
  initiate retires m = retire orp m

  unfoldable pub initiate_all : List Initiator → Manager Identity → Manager Identity
  initiate_all [] m = m
  initiate_all (c ∷ cs) m = initiate_all cs (initiate c m)

  -- What the stores hold of a migration that is not over.
  pub record Holds (st : MigrationState) (keys : StoredKeys) (identity : Identity)
      (m : Manager Identity) : Type 0 where
    pub current : m.state ≡ some st
    pub saved : m.migration_store ≡ some st
    pub running : is_complete st.phase ≡ false
    pub sealed_keys : m.pending_key_store ≡ some keys
    pub usable : from_private_keys keys ≡ some identity
    pub known : m.new_identity ≡ some identity
    pub announced : st.new_identity_key ≡ identity_key identity

  -- No migration is going on, or its state and its keys are in the stores.
  abbrev pub IsStored : Manager Identity → Type 0
  IsStored m =
      (active orp m ≡ false)
      ⊎ ((st : MigrationState) × (keys : StoredKeys) × (identity : Identity) × Holds st keys
            identity m)

  starts-IsStored :
      (current : Identity) (contacts : List Contact) (retire_after now : String)
      (minted : StoredKeys) (m : Manager Identity)
      → IsStored m
      → IsStored (start_migration orp current contacts retire_after now minted m).1
  unfolding start_migration begin_migration
  starts-IsStored current contacts retire_after now minted m h = elim (Bool-cases (active orp m)) [
    | inl busy ↦ rw (busy) h
    | inr idle ↦ elim (Option-cases (from_private_keys minted)) [
      | inl bad ↦ rw (idle, bad, start_migration) (inl idle)
      | inr (new_id, good) ↦
          rw (idle, good, start_migration)
            (inr (
              _,
              minted,
              new_id,
              record {
                current = refl;
                saved = refl;
                running = refl;
                sealed_keys = refl;
                usable = good;
                known = refl;
                announced = refl;
              },
            ))
    ]
  ]

  -- The state is written anew, and saved, with the migration as it was.
  abbrev rewritten : MigrationState → Manager Identity → Manager Identity
  rewritten st m = record m { state = some st; migration_store = some st }

  rewritten-Holds :
      (st next : MigrationState) (keys : StoredKeys) (identity : Identity) (m : Manager Identity)
      → Holds st keys identity m
      → is_complete next.phase ≡ false
      → next.new_identity_key ≡ st.new_identity_key
      → Holds next keys identity (rewritten next m)
  rewritten-Holds st next keys identity m h open_still same = record {
    current = refl;
    saved = refl;
    running = open_still;
    sealed_keys = h.sealed_keys;
    usable = h.usable;
    known = h.known;
    announced = same ∙ h.announced;
  }

  active-Holds :
      (st : MigrationState) (keys : StoredKeys) (identity : Identity) (m : Manager Identity)
      → Holds st keys identity m
      → active orp m ≡ true
  unfolding active
  active-Holds st keys identity m h = rw (active, h.current, h.running) refl

  notified_idle :
      (m : Manager Identity) → active orp m ≡ false → active orp (mark_notified orp m) ≡ false
  unfolding mark_notified active
  notified_idle m idle = ground arith

  acknowledge_idle :
      (st : MigrationState) (key : String) (m : Manager Identity)
      → m.state ≡ some st
      → active orp m ≡ false
      → active orp (acknowledge orp st key m) ≡ false
  unfolding acknowledge active
  acknowledge_idle st key m e idle = ground arith

  retire_idle : (m : Manager Identity) → active orp m ≡ false → active orp (retire orp m) ≡ false
  unfolding retire active
  retire_idle m idle = ground arith

  notified-IsStored : (m : Manager Identity) → IsStored m → IsStored (mark_notified orp m)
  unfolding mark_notified
  notified-IsStored m (inl idle) = inl (notified_idle m idle)
  notified-IsStored m (inr (st, keys, identity, h)) = elim (Bool-cases (is_notifying st.phase)) [
    | inl fresh ↦
        rw (mark_notified, h.current, fresh)
          (inr (
            _,
            keys,
            identity,
            rewritten-Holds st (record st { phase = dual_validity }) keys identity m h refl refl,
          ))
    | inr later ↦ rw (mark_notified, h.current, later) (inr (st, keys, identity, h))
  ]

  acknowledge-IsStored :
      (st : MigrationState) (key : String) (m : Manager Identity)
      → m.state ≡ some st
      → IsStored m
      → IsStored (acknowledge orp st key m)
  unfolding acknowledge
  acknowledge-IsStored st key m e (inl idle) = inl (acknowledge_idle st key m e idle)
  acknowledge-IsStored st key m e (inr (held, keys, identity, h)) =
      elim (Bool-cases (KeySet.contains key st.acknowledged_contacts)) [
        | inl again ↦ rw (again) (inr (held, keys, identity, h))
        | inr first ↦
            let same : held ≡ st = some-injective held st (sym h.current ∙ e) in
            let h' = subst (λ x. Holds x keys identity m) same h in
            rw (first) (
              inr (
                _,
                keys,
                identity,
                rewritten-Holds st
                    (record st { acknowledged_contacts = st.acknowledged_contacts ++ (key ∷ []) })
                    keys identity m h' h'.running refl,
              ))
      ]

  acked-IsStored :
      (document : Json) (key : String) (m : Manager Identity)
      → IsStored m
      → IsStored (handle_migration_ack orp document key m).1
  unfolding handle_migration_ack
  acked-IsStored document key m h = elim (Option-cases m.state) [
    | inl nothing ↦ rw (nothing, handle_migration_ack) h
    | inr (st, e) ↦ elim (Checked-cases (verify_migration_ack document key)) [
      | inl (reason, bad) ↦ rw (e, bad, handle_migration_ack) h
      | inr (ack, good) ↦
          elim (Bool-cases
            ((ack.old_key == st.old_identity_key) && (ack.new_key == st.new_identity_key))) [
              | inl own ↦
                  rw (e, good, own, handle_migration_ack) (acknowledge-IsStored st key m e h)
              | inr other ↦ rw (e, good, other, handle_migration_ack) h
            ]
    ]
  ]

  retires-IsStored : (m : Manager Identity) → IsStored m → IsStored (retire orp m)
  retires-IsStored m (inl idle) = inl (retire_idle m idle)
  retires-IsStored m (inr (st, keys, identity, h)) =
      unfold retire active in rw (h.current, h.sealed_keys) (inl refl)

  initiate-IsStored : (c : Initiator) (m : Manager Identity) → IsStored m → IsStored (initiate c m)
  unfolding initiate
  initiate-IsStored (starts current contacts retire_after now minted) m h =
      starts-IsStored current contacts retire_after now minted m h
  initiate-IsStored notified m h = notified-IsStored m h
  initiate-IsStored (acked document key) m h = acked-IsStored document key m h
  initiate-IsStored retires m h = retires-IsStored m h

  pub initiate_all-IsStored :
      (cs : List Initiator) (m : Manager Identity) → IsStored m → IsStored (initiate_all cs m)
  unfolding initiate_all
  initiate_all-IsStored [] m h = h
  initiate_all-IsStored (c ∷ cs) m h =
      initiate_all-IsStored cs (initiate c m) (initiate-IsStored c m h)
