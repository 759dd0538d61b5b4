-- ===== src/Contacts/Bundle.antt =====
-- packages/orpal-core/src/contacts/contact-export.ts: the bundle of contacts, and its import. The entries
-- have the fields of their declared type; the text of the bundle and its envelope are not modelled.
use orpal.Base.{
  ℕ, suc, String, Bool, true, false, List, [], ◌∷◌, ◌++◌, Option, none, some, ◌==◌, if◌then◌else◌,
  not, ◌&&◌, ◌||◌,
}
use orpal.Base.KeySet.{contains, add}
use orpal.Json.{Json}
use orpal.Contacts.{
  Contact, ContactCard, CardOptions, ParsedCard, invalid, valid, or_else, contact_from_card,
  parse_contact_card, serialize_card,
}

pub record ContactExportEntry : Type 0 where
  pub identity_key : String
  pub transport_key : String
  pub binding : Json
  pub display_name : String
  pub relay_only : Bool
  pub preferred_boards : Option (List String)
  pub fallback_boards : Option (List String)
  pub auto_accept_migration : Option Bool
  pub added_utc : String

pub record ContactsExport : Type 0 where
  pub exported_utc : String
  pub contacts : List ContactExportEntry

unfoldable pub to_entry : Contact → ContactExportEntry
to_entry c = record {
  identity_key = c.identity_key;
  transport_key = c.transport_key;
  binding = c.binding;
  display_name = c.display_name;
  relay_only = c.relay_only;
  preferred_boards = some (or_else c.preferred_boards []);
  fallback_boards = some (or_else c.fallback_boards []);
  auto_accept_migration = some (or_else c.auto_accept_migration false);
  added_utc = c.added_utc;
}

abbrev pub is_exported : Contact → Bool
is_exported c = not (or_else c.is_loopback false)

abbrev pub entries_of : List Contact → List ContactExportEntry
entries_of [] = []
entries_of (c ∷ cs) = if is_exported c then to_entry c ∷ entries_of cs else entries_of cs

-- `serializeContacts`, as far as the bundle.
unfoldable pub export_contacts : (now : String) → List Contact → ContactsExport
export_contacts now contacts = record { exported_utc = now; contacts = entries_of contacts }

pub data OnCollision : Type 0 where
  skip overwrite : OnCollision

pub record ImportOptions : Type 0 where
  pub on_collision : OnCollision
  pub existing_keys : List String
  pub own_key : Option String
  pub now : String

pub record Rejection : Type 0 where
  pub identity_key : String
  pub reason : String

pub record Imported : Type 0 where
  pub contacts : List Contact
  pub imported : ℕ
  pub skipped : ℕ
  pub rejected : List Rejection
  pub seen : List String

abbrev pub skips : OnCollision → Bool
skips skip = true
skips overwrite = false

-- `opts.ownKey && key === opts.ownKey`; the empty text counts as none.
abbrev pub is_own : Option String → String → Bool
is_own none key = false
is_own (some own) key = if own == "" then false else key == own

abbrev pub card_of : ContactExportEntry → ContactCard
card_of e = record {
  identity_key = e.identity_key;
  transport_key = e.transport_key;
  binding = e.binding;
  name = some e.display_name;
}

abbrev pub options_of : ImportOptions → ContactExportEntry → CardOptions
options_of opts e = record {
  display_name = some e.display_name;
  relay_only = some e.relay_only;
  preferred_boards = e.preferred_boards;
  fallback_boards = e.fallback_boards;
  now = opts.now;
}

unfoldable pub contact_of : ImportOptions → ContactExportEntry → ContactCard → Contact
contact_of opts e card =
    let contact = contact_from_card card (options_of opts e) in
    record contact {
      auto_accept_migration = some (or_else e.auto_accept_migration false);
      added_utc = if e.added_utc == "" then contact.added_utc else e.added_utc;
    }

unfoldable pub reject : ContactExportEntry → (reason : String) → Imported → Imported
reject e reason acc = record acc {
  rejected = acc.rejected ++ record { identity_key = e.identity_key; reason = reason } ∷ [];
}

unfoldable pub accept : ImportOptions → ContactExportEntry → ContactCard → Imported → Imported
accept opts e card acc =
    if is_own opts.own_key card.identity_key
    then reject e "that-is-your-own-card" acc
    else if (contains card.identity_key acc.seen || contains card.identity_key opts.existing_keys)
        && skips opts.on_collision
    then (record acc { skipped = suc acc.skipped })
    else (record acc {
      contacts = acc.contacts ++ contact_of opts e card ∷ [];
      seen = add card.identity_key acc.seen;
      imported = suc acc.imported;
    })

module _ (verify_binding : Json → Bool) where
  unfoldable pub import_card : ImportOptions → ContactExportEntry → ParsedCard → Imported → Imported
  import_card opts e (invalid reason) acc = reject e reason acc
  import_card opts e (valid card) acc = accept opts e card acc

  -- One round of the loop.
  unfoldable pub import_entry : ImportOptions → ContactExportEntry → Imported → Imported
  import_entry opts e acc =
      import_card opts e (parse_contact_card verify_binding (serialize_card (card_of e))) acc

  unfoldable pub import_entries : ImportOptions → List ContactExportEntry → Imported → Imported
  import_entries opts [] acc = acc
  import_entries opts (e ∷ entries) acc = import_entries opts entries (import_entry opts e acc)

  unfoldable pub import_contacts : ContactsExport → ImportOptions → Imported
  import_contacts bundle opts =
      import_entries opts bundle.contacts
        (record { contacts = []; imported = 0; skipped = 0; rejected = []; seen = [] })
