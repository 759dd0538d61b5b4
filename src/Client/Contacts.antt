-- ===== src/Client/Contacts.antt =====
-- orpal-client.ts, the contacts, in the store and in the registry, with the block list and the requests of
-- unknown senders.
pub mod Mirror
pub mod Calls
use Prim.Native.String
use Prim.Native.Char.{code}
use orpal.Base.{
  ℕ, String, Bool, true, false, List, [], ◌∷◌, ◌++◌, Option, none, some, ◌==◌, ◌&&◌, ◌||◌, not,
  if◌then◌else◌,
}
use orpal.Base.KeySet
use orpal.Dict
use orpal.Json.{Json}
use orpal.Contacts.{
  Contact, ContactCard, ParsedCard, CardOptions, invalid, valid, or_else, parse_contact_card,
  contact_from_card, serialize_card,
}
use orpal.Contacts.Bundle.{
  ContactsExport, ImportOptions, OnCollision, Imported, import_contacts, export_contacts,
}
use orpal.ContactRegistry
use orpal.ContactRegistry.{Boards, RecordPatch, record_of}
use orpal.ConversationStore
use orpal.ConversationStore.{Store, upsert_contact, get_contact, remove_contact, list_contacts}
use orpal.ConnectionManager.{drop_connection}
use orpal.IceConfig.{white}
use orpal.Keys.{Orp}
use orpal.Client.{Outside, Client, ContactRequest}

-- `trim`, over the characters of a text.
unfoldable pub trim_start : String → String
trim_start String.[] = ""
trim_start (String.◌∷◌ c s) =
    let rest = trim_start s in if white (code c) then rest else String.◌∷◌ c s

unfoldable pub trim_end : String → String
trim_end String.[] = ""
trim_end (String.◌∷◌ c s) =
    let rest = trim_end s in if white (code c) && rest == "" then "" else String.◌∷◌ c rest

unfoldable pub trim : String → String
unfolding trim_start trim_end
trim s = trim_end (trim_start s)

pub data Added : Type 0 where
  refused : (reason : String) → Added
  added : Contact → Added

pub record AddOptions : Type 0 where
  pub display_name : Option String
  pub relay_only : Option Bool

abbrev pub card_options : AddOptions → String → CardOptions
card_options o now = record {
  display_name = o.display_name;
  relay_only = o.relay_only;
  preferred_boards = none;
  fallback_boards = none;
  now = now;
}

abbrev no_patch : RecordPatch
no_patch = record {
  relay_only = none;
  transport_key = none;
  boards = none;
  auto_accept_migration = none;
}

-- `identityKeys.map`
abbrev pub keys_of : List Contact → List String
keys_of [] = []
keys_of (c ∷ contacts) = c.identity_key ∷ keys_of contacts

unfoldable pub find_loopback : List Contact → Option Contact
find_loopback [] = none
find_loopback (c ∷ contacts) =
    let rest = find_loopback contacts in if or_else c.is_loopback false then some c else rest

-- `new Set(keys)`, and a set that the keys are added to.
unfoldable pub add_all : List String → List String → List String
add_all [] s = s
add_all (k ∷ keys) s = add_all keys (KeySet.add k s)

unfoldable pub set_of : List String → List String
unfolding add_all
set_of keys = add_all keys []

module _ (orp : Orp) (out : Outside) where
  unfoldable pub parse_card_text : String → ParsedCard
  parse_card_text input = elim (out.parse_json input) [
    | none ↦ invalid "not-valid-json"
    | some v ↦ parse_contact_card out.verify_binding v
  ]

  unfoldable pub register_contact : Contact → Client orp → Client orp
  register_contact contact c = record c {
    store = upsert_contact contact c.store;
    contacts = ContactRegistry.set contact.identity_key (record_of contact) c.contacts;
  }

  unfoldable pub register_all : List Contact → Client orp → Client orp
  unfolding register_contact
  register_all [] c = c
  register_all (contact ∷ contacts) c = register_all contacts (register_contact contact c)

  unfoldable pub add_card : ContactCard → CardOptions → Client orp → Added × Client orp
  unfolding register_contact
  add_card card opts c =
      if card.identity_key == c.identity_key
      then (refused "that-is-your-own-card", c)
      else (added (contact_from_card card opts), register_contact (contact_from_card card opts) c)

  unfoldable pub add_contact_from_card :
      String → AddOptions → (now : String) → Client orp → Added × Client orp
  unfolding parse_card_text add_card
  add_contact_from_card input opts now c = elim (parse_card_text input) [
    | invalid reason ↦ (refused reason, c)
    | valid card ↦ add_card card (card_options opts now) c
  ]

  -- The contacts of a bundle whose envelope has been read.
  unfoldable pub import_bundle :
      ContactsExport → OnCollision → (now : String) → Client orp → Imported × Client orp
  unfolding register_all
  import_bundle bundle on_collision now c =
      let opts : ImportOptions = record {
        on_collision = on_collision;
        existing_keys = keys_of (list_contacts c.store);
        own_key = some c.identity_key;
        now = now;
      } in
      let done = import_contacts out.verify_binding bundle opts in
      (done, register_all done.contacts c)

  unfoldable pub export_bundle : (now : String) → Client orp → ContactsExport
  export_bundle now c = export_contacts now (list_contacts c.store)

  -- `own` is the public identity of the device. A card of its own that does not verify makes
  -- `makeLoopbackContact` throw.
  unfoldable pub make_loopback_contact :
      ContactCard → (name : Option String) → (now : String) → Option Contact
  make_loopback_contact own name now =
      elim (parse_contact_card out.verify_binding
        (serialize_card (record own { name = some (or_else name "Test (me)") }))) [
          | invalid reason ↦ none
          | valid card ↦
              some
                (record (contact_from_card card
                  (card_options (record { display_name = none; relay_only = none }) now)) {
                    is_loopback = some true;
                  })
        ]

  unfoldable pub ensure_loopback_contact :
      ContactCard
      → (name : Option String) → (now : String) → Client orp
      → Option Contact × Client orp
  unfolding make_loopback_contact find_loopback register_contact
  ensure_loopback_contact own name now c = elim (find_loopback (list_contacts c.store)) [
    | some existing ↦ (some existing, c)
    | none ↦ elim (make_loopback_contact own name now) [
      | none ↦ (none, c)
      | some contact ↦ (some contact, register_contact contact c)
    ]
  ]

  unfoldable pub forget_contact : String → Client orp → Client orp
  forget_contact identity_key c = record c {
    store = remove_contact identity_key c.store;
    contacts = ContactRegistry.remove identity_key c.contacts;
  }

  unfoldable pub set_contact_boards :
      String → (preferred fallback : Option (List String)) → Client orp → Client orp
  set_contact_boards identity_key preferred fallback c = elim (get_contact identity_key c.store) [
    | none ↦ c
    | some contact ↦
        let boards : Boards = record {
          preferred = or_else preferred [];
          fallback = or_else fallback [];
        } in
        record c {
          store =
              upsert_contact
                (record contact {
                  preferred_boards = some (or_else preferred []);
                  fallback_boards = some (or_else fallback []);
                })
                c.store;
          contacts =
              ContactRegistry.patch identity_key (record no_patch { boards = some boards })
                c.contacts;
        }
  ]

  unfoldable pub set_contact_relay_only : String → Bool → Client orp → Client orp
  set_contact_relay_only identity_key relay_only c = elim (get_contact identity_key c.store) [
    | none ↦ c
    | some contact ↦ record c {
      store = upsert_contact (record contact { relay_only = relay_only }) c.store;
      contacts =
          ContactRegistry.patch identity_key (record no_patch { relay_only = some relay_only })
            c.contacts;
    }
  ]

  unfoldable pub set_auto_accept_migration : String → Bool → Client orp → Client orp
  set_auto_accept_migration identity_key auto_accept c = elim (get_contact identity_key c.store) [
    | none ↦ c
    | some contact ↦ record c {
      store = upsert_contact (record contact { auto_accept_migration = some auto_accept }) c.store;
      contacts =
          ContactRegistry.patch identity_key
            (record no_patch { auto_accept_migration = some auto_accept }) c.contacts;
    }
  ]

  unfoldable pub set_contact_display_name : String → String → Client orp → Client orp
  unfolding trim
  set_contact_display_name identity_key display_name c = elim (get_contact identity_key c.store) [
    | none ↦ c
    | some contact ↦
        let named = record c {
          store = upsert_contact (record contact { display_name = trim display_name }) c.store;
        } in
        if trim display_name == "" then c else named
  ]

  -- The loop of `setBlockedKeys`.
  unfoldable pub enforce_blocks : List String → Client orp → Client orp
  enforce_blocks [] c = c
  enforce_blocks (key ∷ keys) c = enforce_blocks keys (record c {
    conns = drop_connection key c.conns;
    pending_cards = Dict.delete key c.pending_cards;
  })

  unfoldable pub set_blocked_keys : List String → Client orp → Client orp
  unfolding enforce_blocks
  set_blocked_keys keys c = enforce_blocks (set_of keys) (record c { blocked_keys = set_of keys })

  unfoldable pub is_blocked : String → Client orp → Bool
  is_blocked identity_key c = KeySet.contains identity_key c.blocked_keys

  unfoldable pub settle_request : String → Added × Client orp → Added × Client orp
  settle_request identity_key (refused reason, c) = (refused reason, c)
  settle_request identity_key (added contact, c) =
      (added contact, record c { pending_cards = Dict.delete identity_key c.pending_cards })

  unfoldable pub accept_contact_request :
      String → (display_name : Option String) → (now : String) → Client orp → Added × Client orp
  unfolding add_contact_from_card settle_request
  accept_contact_request identity_key display_name now c =
      elim (Dict.get identity_key c.pending_cards) [
        | none ↦ (refused "no-pending-request", c)
        | some req ↦ settle_request identity_key (
            add_contact_from_card req.card
              (record { display_name = display_name; relay_only = none }) now c)
      ]

  unfoldable pub dismiss_contact_request : String → Client orp → Client orp
  dismiss_contact_request identity_key c = record c {
    pending_cards = Dict.delete identity_key c.pending_cards;
  }
