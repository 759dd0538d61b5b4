-- ===== src/PendingQueue/Store.antt =====
-- The in-memory store as a function from message ids to rows, and what its listing holds.
use mathlib.Core.Option
use orpal.Base.{
  Bool-cases, String, [], ◌∷◌, ◌≡◌, refl, none, some, Option, arith, eq_iff, ◌==◌, sym,
  if◌then◌else◌, Memᴰ, ◌↔◌, Option-cases, inl, inr, eq_refl, subst,
}
use orpal.Dict
use orpal.Dict.{IsDistinct, has}
use orpal.Dict.Laws.{get-set, get-delete, has-set, set-IsDistinct, delete-IsDistinct, has_of_get}
use orpal.PendingQueue.{
  PendingMessage, PendingPatch, Rows, assign, enqueue, update, remove, get, list, clear,
}

-- Every row stands under its own id, once.
pub record IsKeyed (rows : Rows) : Type 0 where
  pub distinct : IsDistinct rows
  pub own_id : (k : String) (m : PendingMessage) → get k rows ≡ some m → m.message_id ≡ k

-- The abstract store: what `get` answers for each id.
abbrev pub View : Type 0
View = String → Option PendingMessage

abbrev pub put : PendingMessage → View → View
put m view j = if m.message_id == j then some m else view j

abbrev pub patched : String → PendingPatch → View → View
patched k patch view j = if k == j then Option.map (λ m. assign m patch) (view j) else view j

abbrev pub without : String → View → View
without k view j = if k == j then none else view j

pub get-enqueue :
    (m : PendingMessage) (rows : Rows) (j : String)
    → get j (enqueue m rows) ≡ put m (λ i. get i rows) j
unfolding get enqueue
get-enqueue m rows j = get-set m.message_id j m rows

pub get-remove :
    (k : String) (rows : Rows) (j : String) → get j (remove k rows) ≡ without k (λ i. get i rows) j
unfolding get remove
get-remove k rows j = get-delete k j rows

pub get-update :
    (k : String) (patch : PendingPatch) (rows : Rows) (j : String)
    → get j (update k patch rows) ≡ patched k patch (λ i. get i rows) j
unfolding get update
get-update k patch rows j = elim (Option-cases (Dict.get k rows)) [
  | inl gone ↦ ground (arith, eq_iff k j)
  | inr (m, found) ↦ ground (arith, eq_iff k j, get-set k j (assign m patch) rows)
]

pub assign-message_id :
    (m : PendingMessage) (patch : PendingPatch) → (assign m patch).message_id ≡ m.message_id
unfolding assign
assign-message_id m patch = refl

pub enqueue-IsKeyed : (m : PendingMessage) (rows : Rows) → IsKeyed rows → IsKeyed (enqueue m rows)
unfolding enqueue
enqueue-IsKeyed m rows v = record {
  distinct = set-IsDistinct m.message_id m rows v.distinct;
  own_id = λ k x e. ground (arith, get-enqueue m rows k, eq_iff m.message_id k, v.own_id k x);
}

pub update-IsKeyed :
    (k : String) (patch : PendingPatch) (rows : Rows) → IsKeyed rows → IsKeyed (update k patch rows)
unfolding update get
update-IsKeyed k patch rows v = elim (Option-cases (Dict.get k rows)) [
  | inl gone ↦ rw (gone, update) v
  | inr (m, found) ↦
      rw (found, update)
        (record {
          distinct = set-IsDistinct k (assign m patch) rows v.distinct;
          own_id = λ j x e. ground (
            arith,
            get-set k j (assign m patch) rows,
            eq_iff k j,
            assign-message_id m patch,
            v.own_id j x,
            v.own_id k m,
          );
        })
]

pub remove-IsKeyed : (k : String) (rows : Rows) → IsKeyed rows → IsKeyed (remove k rows)
unfolding remove
remove-IsKeyed k rows v = record {
  distinct = delete-IsDistinct k rows v.distinct;
  own_id = λ j x e. ground (arith, get-remove k rows j, v.own_id j x);
}

-- A row that `get` finds is in the listing.
pub list_of_get :
    (k : String) (m : PendingMessage) (rows : Rows) → get k rows ≡ some m → Memᴰ m (list rows)
unfolding get list Dict.get
list_of_get k m [] e = ground arith
list_of_get k m ((j, x) ∷ rows) e = elim (Bool-cases (j == k)) [
  | inl same ↦ Memᴰ.head (ground arith)
  | inr apart ↦ Memᴰ.tail (list_of_get k m rows (ground arith))
]

values-get :
    (m : PendingMessage) (rows : Rows)
    → IsDistinct rows
    → Memᴰ m (list rows)
    → (k : String) × (get k rows ≡ some m)
unfolding get list Dict.get has
values-get m ((j, x) ∷ rows) d (Memᴰ.head e) = (j, ground (arith, eq_refl j))
values-get m ((j, x) ∷ rows) d (Memᴰ.tail i) =
    let (k, found) = values-get m rows d.1 i in (k, ground (arith, eq_iff j k, has_of_get k rows m))
values-get m [] d i = elim i [ ]

pub has-update :
    (k : String) (patch : PendingPatch) (rows : Rows) (j : String)
    → has j (update k patch rows) ≡ has j rows
unfolding update
has-update k patch rows j = elim (Option-cases (Dict.get k rows)) [
  | inl gone ↦ rw (gone, update)
  | inr (m, found) ↦
      rw (found, update)
        (ground (arith, has-set k j (assign m patch) rows, eq_iff k j, has_of_get k rows m))
]

-- What the store may have been through.
pub data Reachable : Rows → Type 0 where
  empty : Reachable []
  enqueued : (m : PendingMessage) {rows : Rows} → Reachable rows → Reachable (enqueue m rows)
  updated :
      (k : String) (patch : PendingPatch) {rows : Rows}
      → Reachable rows
      → Reachable (update k patch rows)
  removed : (k : String) {rows : Rows} → Reachable rows → Reachable (remove k rows)
  cleared : {rows : Rows} → Reachable rows → Reachable (clear rows)

pub Reachable-IsKeyed : {rows : Rows} → Reachable rows → IsKeyed rows
unfolding clear get Dict.get
Reachable-IsKeyed empty = record { distinct = tt; own_id = λ k m e. ground arith }
Reachable-IsKeyed (enqueued m {rows} r) = enqueue-IsKeyed m rows (Reachable-IsKeyed r)
Reachable-IsKeyed (updated k patch {rows} r) = update-IsKeyed k patch rows (Reachable-IsKeyed r)
Reachable-IsKeyed (removed k {rows} r) = remove-IsKeyed k rows (Reachable-IsKeyed r)
Reachable-IsKeyed (cleared r) = record { distinct = tt; own_id = λ k m e. ground arith }

-- After any history of the store, its listing holds exactly the rows that `get` answers with under
-- their own ids.
pub list-mem_iff :
    (rows : Rows) (m : PendingMessage)
    → Reachable rows
    → Memᴰ m (list rows) ↔ (get m.message_id rows ≡ some m)
list-mem_iff rows m r = (
  λ i.
      let (k, found) = values-get m rows v.distinct i in
      subst (λ j. get j rows ≡ some m) (sym (v.own_id k m found)) found,
  λ e. list_of_get m.message_id m rows e,
)
  where
    v : IsKeyed rows
    v = Reachable-IsKeyed r

-- The store refines a function from ids to rows: for every id, `enqueue` changes the answer at the
-- message's own id to that message, `update` patches the answer at its id and makes none, `remove`
-- takes the answer away, and `clear` all of them; no other answer changes.
pub rows_refine_view :
    (rows : Rows) (m : PendingMessage) (k : String) (patch : PendingPatch) (j : String)
    → (get j (enqueue m rows) ≡ put m (λ i. get i rows) j)
      × (get j (update k patch rows) ≡ patched k patch (λ i. get i rows) j)
      × (get j (remove k rows) ≡ without k (λ i. get i rows) j)
      × (get j (clear rows) ≡ none)
unfolding clear
rows_refine_view rows m k patch j = (
  get-enqueue m rows j,
  get-update k patch rows j,
  get-remove k rows j,
  unfold get Dict.get in refl,
)
