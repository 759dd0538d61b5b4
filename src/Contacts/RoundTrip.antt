-- ===== src/Contacts/RoundTrip.antt =====
-- An export that is imported elsewhere gives the contacts back.
use orpal.Base.{
  suc, ◌>>=◌, String, Bool, true, false, List, [], ◌∷◌, ◌++◌, Option, none, some, ◌==◌, ◌≡◌, refl,
  sym, ap, ◌∙◌, if◌then◌else◌, All, arith, Bool-cases, inl, inr, eq_iff,
}
use mathlib.Core.List.{append-nil, append_assoc}
use orpal.Base.KeySet.{contains, add, contains-add}
use orpal.Json.{as_text, end, Json, is_record, lookup}
use orpal.Contacts.{
  optional, name_value, Contact, ContactCard, valid, or_else, contact_from_card, parse_contact_card,
  serialize_card,
}
use orpal.Contacts.Genuine.{IsBound, parse_contact_card_iff, IsCard}
use orpal.Contacts.Bundle.{
  ImportOptions, Imported, is_own, card_of, contact_of, accept, to_entry, entries_of, is_exported,
  export_contacts, import_card, import_entry, import_entries, import_contacts,
}
use orpal.Contacts.Import.{keys, IsDistinct}

-- What a contact is after its journey: lists and settings that were absent are the defaults.
abbrev pub restored : Contact → Contact
restored c = record c {
  preferred_boards = some (or_else c.preferred_boards []);
  fallback_boards = some (or_else c.fallback_boards []);
  auto_accept_migration = some (or_else c.auto_accept_migration false);
  is_loopback = none;
}

abbrev pub all_restored : List Contact → List Contact
all_restored [] = []
all_restored (c ∷ cs) = if is_exported c then restored c ∷ all_restored cs else all_restored cs

-- The contact can be imported: its binding is right, it has a time, and the importing device neither
-- is it nor has it.
pub record IsPortable (verify_binding : Json → Bool) (opts : ImportOptions) (c : Contact)
    : Type 0 where
  pub bound : IsBound verify_binding c.identity_key c.transport_key c.binding
  pub carried : is_record c.binding ≡ true
  pub dated : (c.added_utc == "") ≡ false
  pub foreign : is_own opts.own_key c.identity_key ≡ false
  pub absent : contains c.identity_key opts.existing_keys ≡ false

name_at : (n : Option String) → n ≡ (lookup "name" (optional "name" (name_value n) end) >>= as_text)
unfolding lookup
name_at none = refl
name_at (some s) = refl

serialize_card-IsCard :
    (verify_binding : Json → Bool) (c : ContactCard)
    → IsBound verify_binding c.identity_key c.transport_key c.binding
    → is_record c.binding ≡ true
    → IsCard verify_binding (serialize_card c) c
unfolding serialize_card lookup
serialize_card-IsCard verify_binding c b r = record {
  kind = refl;
  identity_field = refl;
  transport_field = refl;
  binding_field = refl;
  binding_record = r;
  name_field = name_at c.name;
  bound = b;
}

-- A serialized card is read back, where its binding is an object, verifies, and ties its two keys.
pub parse-serialize_card :
    (verify_binding : Json → Bool) (c : ContactCard)
    → IsBound verify_binding c.identity_key c.transport_key c.binding
    → is_record c.binding ≡ true
    → parse_contact_card verify_binding (serialize_card c) ≡ valid c
parse-serialize_card verify_binding c b r =
    (parse_contact_card_iff verify_binding (serialize_card c) c).1
      (serialize_card-IsCard verify_binding c b r)

-- The contacts ahead have other keys than the one that is imported.
later_unseen :
    (k : String) (seen : List String) (cs : List Contact)
    → contains k (keys cs) ≡ false
    → All (λ c. contains c.identity_key seen ≡ false) cs
    → All (λ c. contains c.identity_key (add k seen) ≡ false) cs
unfolding contains
later_unseen k seen [] h a = tt
later_unseen k seen (c ∷ cs) h (unseen, a) = (
  ground
      (arith, contains-add k c.identity_key seen, eq_iff k c.identity_key, eq_iff c.identity_key k),
  later_unseen k seen cs (ground arith) a,
)

-- The bookkeeping after a contact has been accepted.
accepted : ImportOptions → Contact → Imported → Imported
accepted opts c acc = record acc {
  contacts = acc.contacts ++ restored c ∷ [];
  seen = add c.identity_key acc.seen;
  imported = suc acc.imported;
}

module _ (verify_binding : Json → Bool) (opts : ImportOptions) where
  contact_of-to_entry :
      (c : Contact)
      → (c.added_utc == "") ≡ false
      → contact_of opts (to_entry c) (card_of (to_entry c)) ≡ restored c
  unfolding contact_of to_entry contact_from_card
  contact_of-to_entry c dated = simp dated refl

  import_entry-to_entry :
      (c : Contact) (acc : Imported)
      → IsPortable verify_binding opts c
      → contains c.identity_key acc.seen ≡ false
      → import_entry verify_binding opts (to_entry c) acc ≡ accepted opts c acc
  unfolding import_entry import_card accept accepted to_entry
  import_entry-to_entry c acc p unseen =
      simp
        (
          parse-serialize_card verify_binding (card_of (to_entry c)) p.bound p.carried,
          p.foreign,
          unseen,
          p.absent,
          contact_of-to_entry c p.dated,
        )
        refl

  import_entries-entries_of :
      (cs : List Contact) (acc : Imported)
      → All (IsPortable verify_binding opts) cs
      → IsDistinct cs
      → All (λ c. contains c.identity_key acc.seen ≡ false) cs
      → (import_entries verify_binding opts (entries_of cs) acc).contacts
        ≡ acc.contacts ++ all_restored cs
  unfolding import_entries accepted
  import_entries-entries_of [] acc p d u = sym (append-nil acc.contacts)
  import_entries-entries_of (c ∷ cs) acc (p, ps) (new, d) (u, us) =
      elim (Bool-cases (is_exported c)) [
        | inr own ↦ rw own (import_entries-entries_of cs acc ps d us)
        | inl out ↦ rw out (
            ap (λ a. (import_entries verify_binding opts (entries_of cs) a).contacts)
              (import_entry-to_entry c acc p u)
            ∙ (import_entries-entries_of cs (accepted opts c acc) ps d
                  (later_unseen c.identity_key acc.seen cs new us)
                ∙ append_assoc acc.contacts (restored c ∷ []) (all_restored cs)))
      ]

  nothing_seen : (cs : List Contact) → All (λ c. contains c.identity_key [] ≡ false) cs
  unfolding contains
  nothing_seen [] = tt
  nothing_seen (c ∷ cs) = (refl, nothing_seen cs)

-- The contacts of an export, imported where none of them is known, are the exported contacts, in
-- their order, without the diagnostic one, and with defaults for absent lists and settings. The
-- contacts have distinct keys, right bindings and times, and none is the importing device.
pub import-export_contacts :
    (verify_binding : Json → Bool) (opts : ImportOptions) (cs : List Contact) (now : String)
    → All (IsPortable verify_binding opts) cs
    → IsDistinct cs
    → (import_contacts verify_binding (export_contacts now cs) opts).contacts ≡ all_restored cs
unfolding import_contacts export_contacts
import-export_contacts verify_binding opts cs now p d =
    import_entries-entries_of verify_binding opts cs _ p d (nothing_seen verify_binding opts cs)
