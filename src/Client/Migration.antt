-- ===== src/Client/Migration.antt =====
-- The client's key migration: its own, and that of a contact, whose record it replaces by one with the new
-- keys. `MigrationManager` has the state of both.
use orpal.Base.{String, Bool, true, false, List, [], ◌∷◌, Option, none, some, ◌==◌, if◌then◌else◌}
use orpal.Contacts.{Contact}
use orpal.ContactRegistry
use orpal.ContactRegistry.{record_of}
use orpal.ConversationStore.{upsert_contact, get_contact, list_contacts}
use orpal.Frames.{key_migration, migration_ack, AppFrame}
use orpal.Keys.{Orp, StoredKeys, KeyMigration}
use orpal.MigrationManager as Migrations
use orpal.MigrationManager.{MigrationProgress, PendingMigration}
use orpal.MigrationManager.Incoming.{
  Accepted, accept_incoming_migration, decline_incoming_migration, build_migration_ack,
}
use orpal.Client.{Client, migration_progressed, emit}
use orpal.Client.Messages.{send_if_connected}

abbrev pub with_keys_of : Accepted → Contact → Contact
with_keys_of a old = record old {
  identity_key = a.identity_key;
  transport_key = a.transport_key;
  binding = a.binding;
}

module _ (orp : Orp) where
  unfoldable pub migration_active : Client orp → Bool
  migration_active c = elim c.migration [ none ↦ false | some m ↦ Migrations.active orp m ]

  unfoldable pub migration_progress : Client orp → Option MigrationProgress
  migration_progress c = elim c.migration [ none ↦ none | some m ↦ Migrations.progress orp m ]

  unfoldable pub pending_incoming_migrations : Client orp → List PendingMigration
  pending_incoming_migrations c = elim c.migration [ none ↦ [] | some m ↦ m.pending_incoming ]

  unfoldable pub report_progress : Client orp → Client orp
  unfolding migration_progress
  report_progress c = elim (migration_progress c) [
    | none ↦ c
    | some p ↦ emit orp (migration_progressed (some p)) c
  ]

  -- The loop over the contacts.
  unfoldable pub broadcast : AppFrame → List Contact → Client orp → Client orp
  broadcast f [] c = c
  broadcast f (contact ∷ contacts) c =
      broadcast f contacts (send_if_connected orp contact.identity_key f c)

  unfoldable pub announce_migration :
      KeyMigration → List Contact → Migrations.Manager orp.Identity → Client orp → Client orp
  unfolding broadcast report_progress
  announce_migration migration contacts m c =
      let told =
        broadcast (key_migration migration.document) contacts (record c { migration = some m }) in
      report_progress (record told { migration = some (Migrations.mark_notified orp m) })

  -- The first part is whether it ends without throwing.
  unfoldable pub start_migration :
      (retire_after_utc now : String) → (minted : StoredKeys) → Client orp → Bool × Client orp
  unfolding announce_migration
  start_migration retire_after_utc now minted c = elim c.migration [
    | none ↦ (false, c)
    | some m ↦
        let contacts = list_contacts c.store in
        let (result, n) =
          Migrations.start_migration orp c.identity contacts retire_after_utc now minted m in
        elim result [
          | Migrations.started migration new_id ↦ (true, announce_migration migration contacts n c)
          | Migrations.already_in_progress ↦ (false, record c { migration = some n })
          | Migrations.unusable_keys ↦ (false, record c { migration = some n })
        ]
  ]

  -- The contact with its new keys, if the old one is in the store.
  unfoldable pub replace_contact : String → Accepted → Client orp → Client orp
  replace_contact contact_key a c = elim (get_contact contact_key c.store) [
    | none ↦ c
    | some old ↦
        let updated = with_keys_of a old in
        if a.identity_key == "" then c else record c {
          store = upsert_contact updated c.store;
          contacts = ContactRegistry.set updated.identity_key (record_of updated) c.contacts;
        }
  ]

  unfoldable pub accept_migration : String → (now : String) → Client orp → Bool × Client orp
  unfolding replace_contact
  accept_migration contact_key now c = elim c.migration [
    | none ↦ (false, c)
    | some m ↦
        let (result, n) = accept_incoming_migration orp contact_key m in
        elim result [
          | none ↦ (false, record c { migration = some n })
          | some a ↦
              let replaced = replace_contact contact_key a (record c { migration = some n }) in
              let ack = build_migration_ack orp c.identity a.migration now in
              (true, send_if_connected orp contact_key (migration_ack ack.document) replaced)
        ]
  ]

  unfoldable pub decline_migration : String → Client orp → Client orp
  decline_migration contact_key c = elim c.migration [
    | none ↦ c
    | some m ↦ record c { migration = some (decline_incoming_migration orp contact_key m) }
  ]

  unfoldable pub retire_migration : Client orp → Client orp
  unfolding report_progress
  retire_migration c = elim c.migration [
    | none ↦ c
    | some m ↦ report_progress (record c { migration = some (Migrations.retire orp m) })
  ]
