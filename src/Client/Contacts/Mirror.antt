-- ===== src/Client/Contacts/Mirror.antt =====
-- When the client's registry mirrors the contacts in its store.
use mathlib.Core.Option
use mathlib.Core.Option.{some-injective, none-ne-some}
use orpal.Base.{
  String, none, some, ◌==◌, if◌then◌else◌, ◌≡◌, refl, ◌∙◌, ap, sym, inl, inr, Bool-cases, arith,
  eq_iff, eq_of_test,
}
use orpal.Dict.Laws.{get-set, get-delete}
use orpal.Contacts.{Contact}
use orpal.ContactRegistry
use orpal.ContactRegistry.{ContactRecord, RecordPatch, record_of, patched}
use orpal.ContactRegistry.View.{get-patch}
use orpal.ConversationStore.{Store, upsert_contact, get_contact, remove_contact}

-- What the registry has of a contact is the store's, and each contact stands under its own key.
pub record IsMirror (store : Store) (registry : ContactRegistry.Registry) : Type 0 where
  pub mirrors :
      (key : String)
      → ContactRegistry.get key registry ≡ Option.map record_of (get_contact key store)
  pub keyed :
      (key : String) (contact : Contact)
      → get_contact key store ≡ some contact
      → contact.identity_key ≡ key

get-upsert :
    (contact : Contact) (key : String) (s : Store)
    → get_contact key (upsert_contact contact s)
      ≡ (if contact.identity_key == key then some contact else get_contact key s)
unfolding get_contact upsert_contact
get-upsert contact key s = get-set contact.identity_key key contact s.contacts

get-remove :
    (gone key : String) (s : Store)
    → get_contact key (remove_contact gone s) ≡ (if gone == key then none else get_contact key s)
unfolding get_contact remove_contact
get-remove gone key s = get-delete gone key s.contacts

module _ (store : Store) (registry : ContactRegistry.Registry) (m : IsMirror store registry) where
  upsert-keyed :
      (contact : Contact) (key : String) (found : Contact)
      → get_contact key (upsert_contact contact store) ≡ some found
      → found.identity_key ≡ key
  upsert-keyed contact key found h =
      ground
        (arith, get-upsert contact key store, eq_iff contact.identity_key key, m.keyed key found)

  pub register-IsMirror :
      (contact : Contact)
      → IsMirror
          (upsert_contact contact store)
          (ContactRegistry.set contact.identity_key (record_of contact) registry)
  unfolding ContactRegistry.set ContactRegistry.get
  register-IsMirror contact = record {
    mirrors = λ key. elim (Bool-cases (contact.identity_key == key)) [
      | inl same ↦
          rw (get-upsert contact key store, same)
            (get-set contact.identity_key key (record_of contact) registry ∙ rw (same) refl)
      | inr apart ↦
          rw (get-upsert contact key store, apart)
            (get-set contact.identity_key key (record_of contact) registry
              ∙ rw (apart) (m.mirrors key))
    ];
    keyed = upsert-keyed contact;
  }

  -- A contact that is written back under its key, with the registry's part of it.
  pub rewrite-IsMirror :
      (key : String) (old contact : Contact) (p : RecordPatch)
      → get_contact key store ≡ some old
      → contact.identity_key ≡ key
      → patched p (record_of old) ≡ record_of contact
      → IsMirror (upsert_contact contact store) (ContactRegistry.patch key p registry)
  rewrite-IsMirror key old contact p found same agrees = record {
    mirrors = λ k. elim (Bool-cases (key == k)) [
      | inl this ↦
          let at_key : ContactRegistry.get k registry ≡ some (record_of old) =
            m.mirrors k
            ∙ ap (λ j. Option.map record_of (get_contact j store)) (sym (eq_of_test key k this))
            ∙ ap (Option.map record_of) found in
          rw (get-upsert contact k store, same, this)
            (get-patch key p registry k ∙ rw (this, at_key) (ap some agrees))
      | inr apart ↦
          rw (get-upsert contact k store, same, apart)
            (get-patch key p registry k ∙ rw (apart) (m.mirrors k))
    ];
    keyed = upsert-keyed contact;
  }

  pub remove-IsMirror :
      (gone : String) → IsMirror (remove_contact gone store) (ContactRegistry.remove gone registry)
  unfolding ContactRegistry.remove ContactRegistry.get
  remove-IsMirror gone = record {
    mirrors = λ key. elim (Bool-cases (gone == key)) [
      | inl same ↦
          rw (get-remove gone key store, same) (get-delete gone key registry ∙ rw (same) refl)
      | inr apart ↦
          rw (get-remove gone key store, apart)
            (get-delete gone key registry ∙ rw (apart) (m.mirrors key))
    ];
    keyed = λ key contact h. ground (arith, get-remove gone key store, m.keyed key contact);
  }

  -- A contact that is written back with the same part in the registry.
  pub rename-IsMirror :
      (key : String) (old contact : Contact)
      → get_contact key store ≡ some old
      → contact.identity_key ≡ key
      → record_of old ≡ record_of contact
      → IsMirror (upsert_contact contact store) registry
  rename-IsMirror key old contact found same agrees = record {
    mirrors = λ k. elim (Bool-cases (key == k)) [
      | inl this ↦
          rw (get-upsert contact k store, same, this)
            (m.mirrors k
              ∙ ap (λ j. Option.map record_of (get_contact j store)) (sym (eq_of_test key k this))
              ∙ ap (Option.map record_of) found
              ∙ ap some agrees)
      | inr apart ↦ rw (get-upsert contact k store, same, apart) (m.mirrors k)
    ];
    keyed = upsert-keyed contact;
  }
