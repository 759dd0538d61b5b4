-- ===== src/Contacts.antt =====
-- packages/orpal-core/src/contacts/contact.ts: contacts, and the cards that they come from. A binding is
-- the JSON value that carries it; `verify_binding` is `verifyBinding` of the ORP library, which checks
-- its self-signature. Keys are base64 texts, so that characters and code units agree.
pub mod Genuine
pub mod Bundle
pub mod Import
pub mod RoundTrip
mod Examples
use Prim.Native.String.{len, slice}
use Prim.Native.String
use orpal.Base.{
  ℕ, ◌-◌, String, Bool, true, false, List, [], Option, none, some, ◌==◌, leb, if◌then◌else◌, ◌>>=◌,
  not,
}
use orpal.Json.{
  text_at, record_at, Json, Fields, object, array, text, number, end, field, lookup, as_text,
  is_record, text_at,
}

pub record Contact : Type 0 where
  pub identity_key : String
  pub transport_key : String
  pub binding : Json
  pub display_name : String
  pub relay_only : Bool
  pub preferred_boards : Option (List String)
  pub fallback_boards : Option (List String)
  pub auto_accept_migration : Option Bool
  pub added_utc : String
  pub is_loopback : Option Bool

-- The version and the kind are those of `serialize_card`.
pub record ContactCard : Type 0 where
  pub identity_key : String
  pub transport_key : String
  pub binding : Json
  pub name : Option String

pub data ParsedCard : Type 0 where
  invalid : (reason : String) → ParsedCard
  valid : ContactCard → ParsedCard

-- A field that is undefined is left out of the text.
abbrev pub optional : String → Option Json → Fields → Fields
optional k none fs = fs
optional k (some v) fs = field k v fs

abbrev pub name_value : Option String → Option Json
name_value none = none
name_value (some s) = some (text s)

-- `serializeContactCard`, of a public identity's keys and binding, as far as the value.
unfoldable pub serialize_card : ContactCard → Json
serialize_card c = object (
    field "v" (number 1) (
      field "kind" (text "orpal-contact") (
        field "identity_key" (text c.identity_key) (
          field "transport_key" (text c.transport_key)
            (field "binding" c.binding (optional "name" (name_value c.name) end))))))

-- A property of a value; only objects have any.
abbrev pub property : String → Json → Option Json
property k (object fs) = lookup k fs
property k _ = none

-- `v === s` for a text `s`.
abbrev pub is_text : String → Option Json → Bool
is_text s (some (text t)) = t == s
is_text s _ = false

module _ (verify_binding : Json → Bool) where
  -- The checks that are left once the fields are there.
  unfoldable pub check_binding :
      (identity_key transport_key : String) → Json → Option String → ParsedCard
  check_binding identity_key transport_key binding name =
      if not (verify_binding binding)
      then invalid "bad-binding-signature"
      else if not (is_text identity_key (property "identity_key" binding))
      then invalid "binding-identity-mismatch"
      else if not (is_text transport_key (property "transport_key" binding))
      then invalid "binding-transport-mismatch"
      else (valid (record {
        identity_key = identity_key;
        transport_key = transport_key;
        binding = binding;
        name = name;
      }))

  unfoldable pub check_fields : Fields → ParsedCard
  check_fields fs = elim (text_at "identity_key" fs) [
    | none ↦ invalid "missing-fields"
    | some i ↦ elim (text_at "transport_key" fs) [
      | none ↦ invalid "missing-fields"
      | some t ↦ elim (record_at "binding" fs) [
        | none ↦ invalid "missing-fields"
        | some b ↦ check_binding i t b (text_at "name" fs)
      ]
    ]
  ]

  -- `parseContactCard`, from the value that `JSON.parse` gives.
  unfoldable pub parse_contact_card : Json → ParsedCard
  parse_contact_card (object fs) =
      if is_text "orpal-contact" (lookup "kind" fs)
      then check_fields fs
      else invalid "not-an-orpal-contact-card"
  parse_contact_card (array _) = invalid "not-an-orpal-contact-card"
  parse_contact_card _ = invalid "not-an-object"

-- `shortKey`
unfoldable pub short_key : String → String
short_key key =
    if leb (len key) 12
    then key
    else String.◌++◌ (slice key 0 6) (String.◌++◌ "…" (slice key (len key - 4) (len key)))

pub record CardOptions : Type 0 where
  pub display_name : Option String
  pub relay_only : Option Bool
  pub preferred_boards : Option (List String)
  pub fallback_boards : Option (List String)
  pub now : String

-- `a ?? b`
abbrev pub or_else {ℓ} : {A : Type ℓ} → Option A → A → A
or_else none b = b
or_else (some a) b = a

unfoldable pub contact_from_card : ContactCard → CardOptions → Contact
unfolding short_key
contact_from_card card opts = record {
  identity_key = card.identity_key;
  transport_key = card.transport_key;
  binding = card.binding;
  display_name = or_else opts.display_name (or_else card.name (short_key card.identity_key));
  relay_only = or_else opts.relay_only false;
  preferred_boards = some (or_else opts.preferred_boards []);
  fallback_boards = some (or_else opts.fallback_boards []);
  auto_accept_migration = none;
  added_utc = opts.now;
  is_loopback = none;
}
