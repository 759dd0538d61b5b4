-- ===== src/ContactRegistry.antt =====
-- packages/orpal-core/src/messaging/contact-registry.ts: what the client keeps of each contact, by identity
-- key, with the answers that stand in for an unknown one.
pub mod View
mod Examples
use orpal.Base.{String, Bool, false, List, [], ◌∷◌, Option, none, some}
use orpal.Dict
use orpal.Dict.{Dict}
use orpal.Contacts.{Contact, or_else}

pub record Boards : Type 0 where
  pub preferred : List String
  pub fallback : List String

pub record ContactRecord : Type 0 where
  pub relay_only : Bool
  pub transport_key : String
  pub boards : Boards
  pub auto_accept_migration : Bool

-- A field that the patch leaves out is `none`.
pub record RecordPatch : Type 0 where
  pub relay_only : Option Bool
  pub transport_key : Option String
  pub boards : Option Boards
  pub auto_accept_migration : Option Bool

abbrev pub Registry : Type 0
Registry = Dict ContactRecord

abbrev pub record_of : Contact → ContactRecord
record_of c = record {
  relay_only = c.relay_only;
  transport_key = c.transport_key;
  boards = record {
    preferred = or_else c.preferred_boards [];
    fallback = or_else c.fallback_boards [];
  };
  auto_accept_migration = or_else c.auto_accept_migration false;
}

unfoldable pub get : String → Registry → Option ContactRecord
get key r = Dict.get key r

unfoldable pub set : String → ContactRecord → Registry → Registry
set key rec r = Dict.set key rec r

unfoldable pub load_all : List Contact → Registry → Registry
unfolding set
load_all [] r = r
load_all (c ∷ contacts) r = load_all contacts (set c.identity_key (record_of c) r)

-- `{ ...existing, ...patch }`
abbrev pub patched : RecordPatch → ContactRecord → ContactRecord
patched p old = record {
  relay_only = or_else p.relay_only old.relay_only;
  transport_key = or_else p.transport_key old.transport_key;
  boards = or_else p.boards old.boards;
  auto_accept_migration = or_else p.auto_accept_migration old.auto_accept_migration;
}

unfoldable pub patch : String → RecordPatch → Registry → Registry
patch key p r = elim (Dict.get key r) [
  | none ↦ r
  | some existing ↦ Dict.set key (patched p existing) r
]

unfoldable pub remove : String → Registry → Registry
remove key r = Dict.delete key r

unfoldable pub clear : Registry → Registry
clear r = []

abbrev pub of_record {ℓ} : {A : Type ℓ} → (ContactRecord → A) → A → Option ContactRecord → A
of_record f d none = d
of_record f d (some rec) = f rec

unfoldable pub transport_key : String → Registry → Option String
transport_key key r = of_record (λ rec. some rec.transport_key) none (Dict.get key r)

unfoldable pub relay_only : String → Registry → Bool
relay_only key r = of_record (λ rec. rec.relay_only) false (Dict.get key r)

unfoldable pub auto_accept_migration : String → Registry → Bool
auto_accept_migration key r = of_record (λ rec. rec.auto_accept_migration) false (Dict.get key r)

unfoldable pub boards : String → Registry → Boards
boards key r =
    of_record (λ rec. rec.boards) (record { preferred = []; fallback = [] }) (Dict.get key r)
