-- ===== src/Client/Backup/Merge.antt =====
-- The store through a backup that is restored by merging.
use mathlib.Core.Option.{some-injective, none-ne-some}
use orpal.Base.{
  subst, suc, String, Bool, true, false, List, [], ◌∷◌, Option, none, some, ◌==◌, if◌then◌else◌,
  ◌≡◌, refl, ◌∙◌, sym, ap, inl, inr, ◌⊎◌, Bool-cases, Option-cases, arith, eq_iff, eq_of_test,
}
use orpal.Base.KeySet.{contains, add, contains-add}
use orpal.Dict
use orpal.Dict.Laws.{get-set}
use orpal.Contacts.{Contact}
use orpal.ConversationStore.{
  Store, StoredMessage, get_contact, get_message, append_message, upsert_contact, list_contacts,
}
use orpal.PendingQueue.{PendingMessage}
use orpal.MigrationManager.{MigrationState}
use orpal.Keys.{Orp, StoredKeys}
use orpal.Client.{Client, Outside}
use orpal.Client.Contacts.{register_contact, keys_of, set_of, enforce_blocks, set_blocked_keys}
use orpal.Client.Messages.{enqueue}
use orpal.Client.Backup.{
  merge, BackupPayload, RestoreResult, nothing_restored, is_bound, restore_contacts, has_message,
  restore_messages, restore_lists, is_queued, restore_pending, wipe, blocked_after,
  restore_migration, restore_identity, restore_backup,
}

module _ (orp : Orp) (out : Outside) where
  -- Each contact that is there was there before, or its binding verifies and it stands under its key.
  abbrev pub IsKeptOrBound : Store → Store → Type 0
  IsKeptOrBound before after =
      (key : String) (contact : Contact)
      → get_contact key after ≡ some contact
      → (get_contact key before ≡ some contact)
        ⊎ ((is_bound orp out contact ≡ true) × (contact.identity_key ≡ key))

  -- The messages, and the contacts of these keys, are as they were.
  record IsKept (existing : List String) (before after : Store) : Type 0 where
    pub contacts_kept :
        (key : String)
        → contains key existing ≡ true
        → get_contact key after ≡ get_contact key before
    pub bound : IsKeptOrBound before after
    pub messages_kept : after.messages ≡ before.messages

  kept : (existing : List String) (s : Store) → IsKept existing s s
  kept existing s = record {
    contacts_kept = λ key h. refl;
    bound = λ key contact h. inl h;
    messages_kept = refl;
  }

  other_key :
      (a key : String) (existing : List String)
      → contains a existing ≡ false
      → contains key existing ≡ true
      → (a == key) ≡ false
  other_key a key existing fresh h = elim (Bool-cases (a == key)) [
    | inr apart ↦ apart
    | inl same ↦
        let clash : false ≡ true =
          sym fresh ∙ ap (λ j. contains j existing) (eq_of_test a key same) ∙ h in
        ground arith
  ]

  -- A contact that is found after an upsert was there before, or is the new one.
  found_after :
      (contact : Contact) (key : String) (found : Contact) (before : Store)
      → get_contact key (upsert_contact contact before) ≡ some found
      → (get_contact key before ≡ some found) ⊎ ((contact ≡ found) × (contact.identity_key ≡ key))
  unfolding upsert_contact get_contact
  found_after contact key found before h =
      let at = sym (get-set contact.identity_key key contact before.contacts) ∙ h in
      elim (Bool-cases (contact.identity_key == key)) [
        | inl same ↦ inr (
          some-injective contact found
              (ap (λ b. if b then some contact else Dict.get key before.contacts) (sym same) ∙ at),
          eq_of_test contact.identity_key key same,
        )
        | inr apart ↦
            inl
              (ap (λ b. if b then some contact else Dict.get key before.contacts) (sym apart) ∙ at)
      ]

  imported-IsKept :
      (existing : List String) (contact : Contact) (before after : Store)
      → is_bound orp out contact ≡ true
      → contains contact.identity_key existing ≡ false
      → IsKept (add contact.identity_key existing) (upsert_contact contact before) after
      → IsKept existing before after
  unfolding upsert_contact get_contact
  imported-IsKept existing contact before after good fresh k = record {
    contacts_kept = λ key h.
        k.contacts_kept key (
          ground (
            arith,
            contains-add contact.identity_key key existing,
            h,
            eq_iff contact.identity_key key,
          ))
        ∙ get-set contact.identity_key key contact before.contacts
        ∙ rw (other_key contact.identity_key key existing fresh h) refl;
    bound = λ key found h. elim (k.bound key found h) [
      | inr is ↦ inr is
      | inl e ↦ elim (found_after contact key found before e) [
        | inl was ↦ inl was
        | inr (is, at_key) ↦ inr (
          subst (λ f. is_bound orp out f ≡ true) is good,
          subst (λ f. f.identity_key ≡ key) is at_key,
        )
      ]
    ];
    messages_kept = k.messages_kept;
  }

  restore_contacts-IsKept :
      (contacts : List Contact) (existing : List String) (r : RestoreResult) (c : Client orp)
      → IsKept existing c.store ((restore_contacts orp out merge contacts existing r c).1.store)
  unfolding restore_contacts register_contact
  restore_contacts-IsKept [] existing r c = kept existing c.store
  restore_contacts-IsKept (contact ∷ contacts) existing r c =
      elim (Bool-cases (is_bound orp out contact)) [
        | inr bad ↦ rw (restore_contacts, bad) (restore_contacts-IsKept contacts existing _ c)
        | inl good ↦ elim (Bool-cases (contains contact.identity_key existing)) [
          | inl there ↦
              rw (restore_contacts, good, there) (restore_contacts-IsKept contacts existing _ c)
          | inr fresh ↦
              rw (restore_contacts, good, fresh)
                (imported-IsKept existing contact c.store _ good fresh (
                  restore_contacts-IsKept contacts (add contact.identity_key existing) _
                    (register_contact orp out contact c)))
        ]
      ]

  still :
      (n : StoredMessage) (id : String) (m : StoredMessage) (s : Store)
      → get_message n.id s ≡ none
      → get_message id s ≡ some m
      → get_message id (append_message n s) ≡ some m
  unfolding get_message append_message
  still n id m s fresh h = elim (Bool-cases (n.id == id)) [
    | inl same ↦
        absurd (
          none-ne-some m
            (sym fresh ∙ ap (λ j. Dict.get j s.messages) (eq_of_test n.id id same) ∙ h))
    | inr apart ↦ get-set n.id id n s.messages ∙ rw (apart) h
  ]

  fresh_message :
      (id : String) (c : Client orp)
      → has_message orp out id c ≡ false
      → get_message id c.store ≡ none
  fresh_message id c h = elim (Option-cases (get_message id c.store)) [
    | inl missing ↦ missing
    | inr (m, found) ↦ ground (arith, found)
  ]

  append-contacts : (n : StoredMessage) (s : Store) → (append_message n s).contacts ≡ s.contacts
  unfolding append_message
  append-contacts n s = refl

  messages_kept :
      (messages : List StoredMessage) (r : RestoreResult) (c : Client orp)
      → ((restore_messages orp out merge messages r c).1.store.contacts ≡ c.store.contacts)
        × ((id : String) (m : StoredMessage)
            → get_message id c.store ≡ some m
            → get_message id ((restore_messages orp out merge messages r c).1.store) ≡ some m)
  unfolding restore_messages
  messages_kept [] r c = (refl, λ id m h. h)
  messages_kept (n ∷ messages) r c = elim (Bool-cases (has_message orp out n.id c)) [
    | inl there ↦
        rw (restore_messages, there)
          (messages_kept messages (record r { messages_skipped = suc r.messages_skipped }) c)
    | inr fresh ↦
        let next : Client orp = record c { store = append_message n c.store } in
        let rest =
          messages_kept messages (record r { messages_imported = suc r.messages_imported }) next in
        rw (restore_messages, fresh)
          (
            rest.0 ∙ append-contacts n c.store,
            λ id m h. rest.1 id m (still n id m c.store (fresh_message n.id c fresh) h),
          )
  ]

  lists_kept :
      (lists : List (List StoredMessage)) (r : RestoreResult) (c : Client orp)
      → ((restore_lists orp out merge lists r c).1.store.contacts ≡ c.store.contacts)
        × ((id : String) (m : StoredMessage)
            → get_message id c.store ≡ some m
            → get_message id ((restore_lists orp out merge lists r c).1.store) ≡ some m)
  unfolding restore_lists
  lists_kept [] r c = (refl, λ id m h. h)
  lists_kept (list ∷ lists) r c =
      let one = messages_kept list r c in
      let done = restore_messages orp out merge list r c in
      let rest = lists_kept lists (done.0) (done.1) in
      (rest.0 ∙ one.0, λ id m h. rest.1 id m (one.1 id m h))

  enqueue-store : (p : PendingMessage) (c : Client orp) → (enqueue orp p c).store ≡ c.store
  unfolding enqueue
  enqueue-store p c = elim (Option-cases c.queue) [
    | inl missing ↦ rw (enqueue, missing) refl
    | inr (rows, found) ↦ rw (enqueue, found) refl
  ]

  pending-store :
      (pending : List PendingMessage) (r : RestoreResult) (c : Client orp)
      → (restore_pending orp out merge pending r c).1.store ≡ c.store
  unfolding restore_pending
  pending-store [] r c = refl
  pending-store (p ∷ pending) r c = elim (Bool-cases (is_queued orp out p.message_id c)) [
    | inl there ↦ rw (restore_pending, there) (pending-store pending r c)
    | inr fresh ↦
        rw (restore_pending, fresh)
          (pending-store pending (record r { pending_imported = suc r.pending_imported })
              (enqueue orp p c)
            ∙ enqueue-store p c)
  ]

  blocks-store :
      (keys : List String) (c : Client orp) → (enforce_blocks orp out keys c).store ≡ c.store
  unfolding enforce_blocks
  blocks-store [] c = refl
  blocks-store (key ∷ keys) c = blocks-store keys _

  migration-store :
      (st : Option MigrationState) (r : RestoreResult) (c : Client orp)
      → (restore_migration orp out st r c).1.store ≡ c.store
  unfolding restore_migration
  migration-store none r c = refl
  migration-store (some st) r c = refl

  identity-store :
      (b : Bool) (keys : StoredKeys) (r : RestoreResult) (c : Client orp)
      → (restore_identity orp out b keys r c).1.store ≡ c.store
  unfolding restore_identity
  identity-store true keys r c = refl
  identity-store false keys r c = refl

  -- The store of a merge is that of its contacts and its messages.
  restore-store :
      (import_identity : Bool) (payload : BackupPayload) (c : Client orp)
      → let contacts =
          restore_contacts orp out merge payload.contacts
            (set_of (keys_of (list_contacts c.store)))
            nothing_restored
            c in
        (restore_backup orp out merge import_identity payload c).1.store
        ≡ (restore_lists orp out merge payload.messages (contacts.0) (contacts.1)).1.store
  unfolding restore_backup wipe set_blocked_keys
  restore-store import_identity payload c =
      let existing : List String = set_of (keys_of (list_contacts c.store)) in
      let contacts = restore_contacts orp out merge payload.contacts existing nothing_restored c in
      let messages = restore_lists orp out merge payload.messages (contacts.0) (contacts.1) in
      let pending = restore_pending orp out merge payload.pending (messages.0) (messages.1) in
      let migration = restore_migration orp out payload.migration_state (pending.0) (pending.1) in
      let blocked : List String = blocked_after orp out merge payload.blocked_keys (migration.1) in
      let blocking : Client orp = record (migration.1) { blocked_keys = set_of blocked } in
      identity-store import_identity payload.identity
        (record (migration.0) { blocked_keys = blocked })
        (set_blocked_keys orp out blocked (migration.1))
      ∙ blocks-store (set_of blocked) blocking
      ∙ migration-store payload.migration_state (pending.0) (pending.1)
      ∙ pending-store payload.pending (messages.0) (messages.1)

  -- A backup that is merged leaves each contact whose key is among those of the store and each message that
  -- is there as they are; every contact that is there afterwards was there before, or its card verifies and
  -- it stands under its own key.
  pub restore-merge :
      (import_identity : Bool) (payload : BackupPayload) (c : Client orp)
      → let after = (restore_backup orp out merge import_identity payload c).1.store in
        ((key : String)
          → contains key (set_of (keys_of (list_contacts c.store))) ≡ true
          → get_contact key after ≡ get_contact key c.store)
        × IsKeptOrBound c.store after
        × ((id : String) (m : StoredMessage)
            → get_message id c.store ≡ some m
            → get_message id after ≡ some m)
  unfolding get_contact get_message
  restore-merge import_identity payload c =
      let existing : List String = set_of (keys_of (list_contacts c.store)) in
      let contacts = restore_contacts orp out merge payload.contacts existing nothing_restored c in
      let k = restore_contacts-IsKept payload.contacts existing nothing_restored c in
      let l = lists_kept payload.messages (contacts.0) (contacts.1) in
      rw (restore-store import_identity payload c) (
        λ key h. ap (Dict.get key) (l.0) ∙ k.contacts_kept key h,
        λ key contact h. k.bound key contact (sym (ap (Dict.get key) (l.0)) ∙ h),
        λ id m h. l.1 id m (ap (Dict.get id) k.messages_kept ∙ h),
      )
