-- ===== src/ContactRegistry/View.antt =====
-- The registry as a function from identity keys to records.
use mathlib.Core.Option
use orpal.Base.{
  String, List, [], ◌∷◌, Option, none, some, ◌==◌, ◌≡◌, refl, ◌∙◌, if◌then◌else◌, Option-cases, inl,
  inr, arith, eq_iff,
}
use orpal.Dict
use orpal.Dict.Laws.{get-set, get-delete}
use orpal.Contacts.{Contact}
use orpal.ContactRegistry.{
  Registry, ContactRecord, RecordPatch, record_of, patched, get, set, load_all, patch, remove,
  clear,
}

-- The last contact of the list with the key, or else what was known.
abbrev pub loaded : List Contact → (String → Option ContactRecord) → String → Option ContactRecord
loaded [] view key = view key
loaded (c ∷ contacts) view key =
    loaded contacts (λ k. if c.identity_key == k then some (record_of c) else view k) key

loaded-cong :
    (contacts : List Contact) (u v : String → Option ContactRecord) (key : String)
    → ((k : String) → u k ≡ v k)
    → loaded contacts u key ≡ loaded contacts v key
loaded-cong [] u v key h = h key
loaded-cong (c ∷ contacts) u v key h = loaded-cong contacts _ _ key (λ k. ground (arith, h k))

get-load_all :
    (contacts : List Contact) (r : Registry) (key : String)
    → get key (load_all contacts r) ≡ loaded contacts (λ k. get k r) key
unfolding load_all get set
get-load_all [] r key = refl
get-load_all (c ∷ contacts) r key =
    get-load_all contacts (Dict.set c.identity_key (record_of c) r) key
    ∙ loaded-cong contacts _ _ key (λ k. get-set c.identity_key k (record_of c) r)

pub get-patch :
    (k : String) (p : RecordPatch) (r : Registry) (j : String)
    → get j (patch k p r) ≡ (if k == j then Option.map (patched p) (get j r) else get j r)
unfolding get patch
get-patch k p r j = elim (Option-cases (Dict.get k r)) [
  | inl gone ↦ ground (arith, eq_iff k j)
  | inr (m, found) ↦ ground (arith, eq_iff k j, get-set k j (patched p m) r)
]

-- For every identity key: loading contacts makes the last one with the key known, and leaves the other
-- keys; a record that is set is known under its key; a patch changes the record of its key if there is
-- one and makes none; removing forgets one key, and clearing all.
pub registry_refines_view :
    (contacts : List Contact) (k : String) (rec : ContactRecord) (p : RecordPatch) (r : Registry)
    (j : String)
    → (get j (load_all contacts r) ≡ loaded contacts (λ i. get i r) j)
      × (get j (set k rec r) ≡ (if k == j then some rec else get j r))
      × (get j (patch k p r) ≡ (if k == j then Option.map (patched p) (get j r) else get j r))
      × (get j (remove k r) ≡ (if k == j then none else get j r))
      × (get j (clear r) ≡ none)
registry_refines_view contacts k rec p r j = (
  get-load_all contacts r j,
  unfold get set in get-set k j rec r,
  get-patch k p r j,
  unfold get remove in get-delete k j r,
  unfold get clear Dict.get in refl,
)
