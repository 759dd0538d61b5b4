-- ===== src/Client/Backup.antt =====
-- `restoreBackup`: what a backup that has been opened is restored to. The shell's key store and migration
-- store are the migration manager's; a client without key migration has neither. The settings and the
-- comparison of the identities, which change nothing, are left out.
pub mod Merge
use orpal.Base.{
  ℕ, suc, ◌+◌, String, Bool, true, false, List, [], ◌∷◌, Option, none, some, ◌==◌, ◌&&◌,
  if◌then◌else◌,
}
use orpal.Base.KeySet
use orpal.Contacts.{
  Contact, ContactCard, ParsedCard, invalid, valid, parse_contact_card, serialize_card,
}
use orpal.ContactRegistry
use orpal.ConversationStore
use orpal.ConversationStore.{StoredMessage, get_message, append_message, list_contacts}
use orpal.PendingQueue
use orpal.PendingQueue.{PendingMessage}
use orpal.Keys.{Orp, StoredKeys}
use orpal.MigrationManager.{Manager, MigrationState}
use orpal.Client.{Client, Outside}
use orpal.Client.Contacts.{register_contact, keys_of, set_of, add_all, set_blocked_keys}
use orpal.Client.Messages.{enqueue}

pub data RestoreMode : Type 0 where
  merge replace : RestoreMode

pub record BackupPayload : Type 0 where
  pub contacts : List Contact
  pub messages : List (List StoredMessage)
  pub pending : List PendingMessage
  pub blocked_keys : List String
  pub migration_state : Option MigrationState
  pub identity : StoredKeys

pub record RestoreResult : Type 0 where
  pub contacts_imported : ℕ
  pub contacts_skipped : ℕ
  pub contacts_rejected : ℕ
  pub messages_imported : ℕ
  pub messages_skipped : ℕ
  pub pending_imported : ℕ
  pub migration_restored : Bool
  pub blocked_keys : List String
  pub identity_imported : Bool
  pub restart_required : Bool

abbrev pub nothing_restored : RestoreResult
nothing_restored = record {
  contacts_imported = 0;
  contacts_skipped = 0;
  contacts_rejected = 0;
  messages_imported = 0;
  messages_skipped = 0;
  pending_imported = 0;
  migration_restored = false;
  blocked_keys = [];
  identity_imported = false;
  restart_required = false;
}

abbrev pub is_merge : RestoreMode → Bool
is_merge merge = true
is_merge replace = false

abbrev pub restored_card : Contact → ContactCard
restored_card c = record {
  identity_key = c.identity_key;
  transport_key = c.transport_key;
  binding = c.binding;
  name = some c.display_name;
}

module _ (orp : Orp) (out : Outside) where
  abbrev pub is_bound : Contact → Bool
  is_bound c = elim (parse_contact_card out.verify_binding (serialize_card (restored_card c))) [
    | invalid reason ↦ false
    | valid card ↦ true
  ]

  -- The loop over the contacts, with the keys that are there.
  unfoldable pub restore_contacts :
      RestoreMode
      → List Contact
      → (existing : List String) → RestoreResult
      → Client orp
      → RestoreResult × Client orp
  restore_contacts mode [] existing r c = (r, c)
  restore_contacts mode (contact ∷ contacts) existing r c =
      let rejected =
        restore_contacts mode contacts existing
          (record r { contacts_rejected = suc r.contacts_rejected }) c in
      let skipped =
        restore_contacts mode contacts existing
          (record r { contacts_skipped = suc r.contacts_skipped }) c in
      let imported =
        restore_contacts mode contacts (KeySet.add contact.identity_key existing)
          (record r { contacts_imported = suc r.contacts_imported })
          (register_contact orp out contact c) in
      if is_bound contact
      then (if is_merge mode && KeySet.contains contact.identity_key existing
          then skipped
          else imported)
      else rejected

  abbrev pub has_message : String → Client orp → Bool
  has_message id c = elim (get_message id c.store) [ none ↦ false | some m ↦ true ]

  unfoldable pub restore_messages :
      RestoreMode → List StoredMessage → RestoreResult → Client orp → RestoreResult × Client orp
  restore_messages mode [] r c = (r, c)
  restore_messages mode (m ∷ messages) r c =
      let skipped =
        restore_messages mode messages (record r { messages_skipped = suc r.messages_skipped }) c in
      let imported =
        restore_messages mode messages (record r { messages_imported = suc r.messages_imported })
          (record c { store = append_message m c.store }) in
      if is_merge mode && has_message m.id c then skipped else imported

  unfoldable pub restore_lists :
      RestoreMode
      → List (List StoredMessage)
      → RestoreResult
      → Client orp
      → RestoreResult × Client orp
  unfolding restore_messages
  restore_lists mode [] r c = (r, c)
  restore_lists mode (list ∷ lists) r c =
      let done = restore_messages mode list r c in restore_lists mode lists (done.0) (done.1)

  abbrev pub is_queued : String → Client orp → Bool
  is_queued id c = elim c.queue [
    | none ↦ false
    | some rows ↦ elim (PendingQueue.get id rows) [ none ↦ false | some m ↦ true ]
  ]

  -- The count goes up whether or not there is a queue.
  unfoldable pub restore_pending :
      RestoreMode → List PendingMessage → RestoreResult → Client orp → RestoreResult × Client orp
  restore_pending mode [] r c = (r, c)
  restore_pending mode (p ∷ pending) r c =
      let skipped = restore_pending mode pending r c in
      let imported =
        restore_pending mode pending (record r { pending_imported = suc r.pending_imported })
          (enqueue orp p c) in
      if is_merge mode && is_queued p.message_id c then skipped else imported

  abbrev pub has_stores : Client orp → Bool
  has_stores c = elim c.migration [ none ↦ false | some m ↦ true ]

  -- A write to the stores of the migration manager.
  abbrev pub on_stores : (Manager orp.Identity → Manager orp.Identity) → Client orp → Client orp
  on_stores write c = record c {
    migration = elim c.migration [ none ↦ none | some m ↦ some (write m) ];
  }

  unfoldable pub wipe : RestoreMode → Client orp → Client orp
  wipe merge c = c
  wipe replace c =
      on_stores (λ m. record m { migration_store = none })
        (record c {
          store = ConversationStore.clear c.store;
          contacts = ContactRegistry.clear c.contacts;
          queue = elim c.queue [ none ↦ none | some rows ↦ some (PendingQueue.clear rows) ];
        })

  unfoldable pub restore_migration :
      Option MigrationState → RestoreResult → Client orp → RestoreResult × Client orp
  restore_migration none r c = (r, c)
  restore_migration (some st) r c = (
    record r { migration_restored = has_stores c },
    on_stores (λ m. record m { migration_store = some st }) c,
  )

  unfoldable pub blocked_after : RestoreMode → (restored : List String) → Client orp → List String
  blocked_after merge restored c = add_all restored c.blocked_keys
  blocked_after replace restored c = set_of restored

  unfoldable pub restore_identity :
      (import_identity : Bool)
      → StoredKeys
      → RestoreResult
      → Client orp
      → RestoreResult × Client orp
  restore_identity false keys r c = (r, c)
  restore_identity true keys r c = (
    record r { identity_imported = has_stores c; restart_required = has_stores c },
    on_stores (λ m. record m { key_store = some keys }) c,
  )

  unfoldable pub restore_backup :
      RestoreMode
      → (import_identity : Bool) → BackupPayload
      → Client orp
      → RestoreResult × Client orp
  unfolding restore_contacts restore_lists restore_pending wipe blocked_after restore_migration
      restore_identity
  restore_backup mode import_identity payload c =
      let wiped = wipe mode c in
      let existing = set_of (keys_of (list_contacts wiped.store)) in
      let contacts = restore_contacts mode payload.contacts existing nothing_restored wiped in
      let messages = restore_lists mode payload.messages (contacts.0) (contacts.1) in
      let pending = restore_pending mode payload.pending (messages.0) (messages.1) in
      let migration = restore_migration payload.migration_state (pending.0) (pending.1) in
      let blocked = blocked_after mode payload.blocked_keys (migration.1) in
      restore_identity import_identity payload.identity
        (record (migration.0) { blocked_keys = blocked })
        (set_blocked_keys orp out blocked (migration.1))
