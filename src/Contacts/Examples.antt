-- ===== src/Contacts/Examples.antt =====
-- Two contacts, exported and imported.
use orpal.Base.{String, Bool, true, false, [], ◌∷◌, none, some, ◌≡◌, refl, ◌↔◌}
use orpal.Base.KeySet.{contains}
use orpal.Json.{Json, object, field, text, end, lookup}
use orpal.Contacts.{
  Contact, ContactCard, valid, invalid, parse_contact_card, serialize_card, check_fields,
  check_binding, short_key,
}
use orpal.Contacts.Genuine.{IsBound, IsCard, parse_contact_card_iff}
use orpal.Contacts.Bundle.{ImportOptions, skip, export_contacts, import_contacts}
use orpal.Contacts.Import.{Outcome, import_contacts-Admissible}
use orpal.Contacts.RoundTrip.{
  IsPortable, all_restored, parse-serialize_card, import-export_contacts,
}

-- Stands for the library's check of the signature: a binding with a `sig` passes.
abbrev signed : Json → Bool
signed (object (field k (text s) (field l (text t) (field m v fs)))) = true
signed _ = false

abbrev binding : (identity transport : String) → Json
binding identity transport = object (
    field "identity_key" (text identity)
      (field "transport_key" (text transport) (field "sig" (text "s") end)))

abbrev bob_card : ContactCard
bob_card = record {
  identity_key = "bob";
  transport_key = "kb";
  binding = binding "bob" "kb";
  name = some "Bob";
}

-- A card that pairs Bob's identity with another transport key.
abbrev forged : ContactCard
forged = record bob_card { transport_key = "km" }

forged-rejected :
    parse_contact_card signed (serialize_card forged) ≡ invalid "binding-transport-mismatch"
unfolding parse_contact_card serialize_card lookup check_fields check_binding
forged-rejected = refl

short : short_key "abcdefghijklmnop" ≡ "abcdef…mnop"
unfolding short_key
short = refl

bound :
    (identity transport : String) → IsBound signed identity transport (binding identity transport)
unfolding lookup
bound identity transport = record { signed = refl; identity = refl; transport = refl }

parse_contact_card_iff_example :
    (parse_contact_card signed (serialize_card forged) ≡ valid forged)
    ↔ IsCard signed (serialize_card forged) forged
parse_contact_card_iff_example = parse_contact_card_iff signed (serialize_card forged) forged

parse-serialize_card_example : parse_contact_card signed (serialize_card bob_card) ≡ valid bob_card
parse-serialize_card_example = parse-serialize_card signed bob_card (bound "bob" "kb") refl

abbrev bob : Contact
bob = record {
  identity_key = "bob";
  transport_key = "kb";
  binding = binding "bob" "kb";
  display_name = "Bob";
  relay_only = true;
  preferred_boards = none;
  fallback_boards = some ("b1" ∷ []);
  auto_accept_migration = none;
  added_utc = "2025-01-01";
  is_loopback = none;
}

abbrev carol : Contact
carol = record bob {
  identity_key = "carol";
  binding = binding "carol" "kb";
  display_name = "Carol";
}

abbrev opts : ImportOptions
opts = record {
  on_collision = skip;
  existing_keys = "dave" ∷ [];
  own_key = some "erin";
  now = "2026-01-01";
}

portable : IsPortable signed opts bob × IsPortable signed opts carol
unfolding contains
portable = (
  record { bound = bound "bob" "kb"; carried = refl; dated = refl; foreign = refl; absent = refl },
  record {
    bound = bound "carol" "kb";
    carried = refl;
    dated = refl;
    foreign = refl;
    absent = refl;
  },
)

import-export_contacts_example :
    (import_contacts signed (export_contacts "2025-06-01" (bob ∷ carol ∷ [])) opts).contacts
    ≡ all_restored (bob ∷ carol ∷ [])
unfolding contains
import-export_contacts_example =
    import-export_contacts signed opts (bob ∷ carol ∷ []) "2025-06-01"
      (portable.0, (portable.1, tt)) (refl, (refl, tt))

import_contacts-Admissible_example :
    Outcome signed opts
      (export_contacts "2025-06-01" (bob ∷ bob ∷ []))
      (import_contacts signed (export_contacts "2025-06-01" (bob ∷ bob ∷ [])) opts)
import_contacts-Admissible_example =
    import_contacts-Admissible signed (export_contacts "2025-06-01" (bob ∷ bob ∷ [])) opts
