-- ===== src/ContactRegistry/Examples.antt =====
-- A registry of two contacts.
use mathlib.Core.Option
use orpal.Base.{[], ◌∷◌, none, some, true, ◌≡◌, refl}
use orpal.Json.{null}
use orpal.Dict
use orpal.Contacts.{Contact}
use orpal.ContactRegistry.{
  RecordPatch, record_of, patched, get, set, load_all, patch, remove, clear, relay_only, boards,
}
use orpal.ContactRegistry.View.{loaded, registry_refines_view}

abbrev bob : Contact
bob = record {
  identity_key = "bob";
  transport_key = "kb";
  binding = null;
  display_name = "Bob";
  relay_only = true;
  preferred_boards = some ("b1" ∷ []);
  fallback_boards = none;
  auto_accept_migration = none;
  added_utc = "2025-01-01";
  is_loopback = none;
}

abbrev rotated : RecordPatch
rotated = record {
  relay_only = none;
  transport_key = some "kc";
  boards = none;
  auto_accept_migration = none;
}

known :
    (relay_only "bob" (load_all (bob ∷ []) []) ≡ true)
    × (boards "carol" (load_all (bob ∷ []) []) ≡ record { preferred = []; fallback = [] })
unfolding relay_only boards load_all set Dict.set Dict.get
known = (refl, refl)

registry_refines_view_example :
    (get "bob" (load_all (bob ∷ []) []) ≡ loaded (bob ∷ []) (λ i. get i []) "bob")
    × (get "bob" (set "bob" (record_of bob) []) ≡ some (record_of bob))
    × (get "bob" (patch "bob" rotated []) ≡ Option.map (patched rotated) (get "bob" []))
    × (get "bob" (remove "bob" []) ≡ none)
    × (get "bob" (clear []) ≡ none)
registry_refines_view_example =
    registry_refines_view (bob ∷ []) "bob" (record_of bob) rotated [] "bob"
