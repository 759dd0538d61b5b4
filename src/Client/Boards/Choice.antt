-- ===== src/Client/Boards/Choice.antt =====
-- Which boards a contact is reached over.
use orpal.Base.{
  length, ◌<◌, ◌⊎◌, String, Bool, true, false, List, [], ◌∷◌, ◌++◌, none, some, ◌&&◌, not, ◌≡◌,
  refl, ◌∙◌, ap, inl, inr, Bool-cases, Option-cases, arith, eq_iff, eq_refl, All,
}
use orpal.Base.KeySet.{contains, add, contains-add}
use orpal.ContactRegistry
use orpal.Client.{BoardEntry}
use orpal.Client.Boards.{find_board, choose_boards, board_choice, is_nil}

abbrev pub is_loaded : String → List BoardEntry → Bool
is_loaded id boards = elim (find_board id boards) [ none ↦ false | some b ↦ true ]

abbrev pub ids_of : List BoardEntry → List String
ids_of [] = []
ids_of (b ∷ boards) = b.id ∷ ids_of boards

-- No id stands twice.
abbrev pub IsDistinct : List String → Type 0
IsDistinct [] = Unit
IsDistinct (id ∷ ids) = (contains id ids ≡ false) × IsDistinct ids

pub find_board-id :
    (id : String) (boards : List BoardEntry) (b : BoardEntry)
    → find_board id boards ≡ some b
    → b.id ≡ id
unfolding find_board
find_board-id id [] b h = ground arith
find_board-id id (d ∷ boards) b h = ground (arith, eq_iff d.id id, find_board-id id boards b)

choose_skipped :
    (boards : List BoardEntry) (seen : List String) (id : String) (ids : List String)
    → contains id seen ≡ true
    → choose_boards boards seen (id ∷ ids) ≡ choose_boards boards seen ids
unfolding choose_boards
choose_skipped boards seen id ids h = rw (h) refl

choose_missing :
    (boards : List BoardEntry) (seen : List String) (id : String) (ids : List String)
    → contains id seen ≡ false
    → find_board id boards ≡ none
    → choose_boards boards seen (id ∷ ids) ≡ choose_boards boards (add id seen) ids
unfolding choose_boards
choose_missing boards seen id ids h e = rw (h, e) refl

choose_found :
    (boards : List BoardEntry) (seen : List String) (id : String) (ids : List String)
    (b : BoardEntry)
    → contains id seen ≡ false
    → find_board id boards ≡ some b
    → choose_boards boards seen (id ∷ ids) ≡ b ∷ choose_boards boards (add id seen) ids
unfolding choose_boards
choose_found boards seen id ids b h e = rw (h, e) refl

contains-choose :
    (boards : List BoardEntry) (seen ids : List String) (j : String)
    → contains j (ids_of (choose_boards boards seen ids))
      ≡ (not (contains j seen) && (contains j ids && is_loaded j boards))
unfolding contains
contains-choose boards seen [] j = unfold choose_boards in ground arith
contains-choose boards seen (id ∷ ids) j = elim (Bool-cases (contains id seen)) [
  | inl old ↦
      ground (
        arith,
        choose_skipped boards seen id ids old,
        contains-choose boards seen ids j,
        eq_iff id j,
      )
  | inr fresh ↦ elim (Option-cases (find_board id boards)) [
    | inl missing ↦ ground (
      arith,
      choose_missing boards seen id ids fresh missing,
      contains-choose boards (add id seen) ids j,
      contains-add id j seen,
      eq_iff id j,
    )
    | inr (b, found) ↦ ground (
      arith,
      choose_found boards seen id ids b fresh found,
      contains-choose boards (add id seen) ids j,
      contains-add id j seen,
      eq_iff id j,
      find_board-id id boards b found,
    )
  ]
]

choose-IsDistinct :
    (boards : List BoardEntry) (seen ids : List String)
    → IsDistinct (ids_of (choose_boards boards seen ids))
choose-IsDistinct boards seen [] = unfold choose_boards in tt
choose-IsDistinct boards seen (id ∷ ids) = elim (Bool-cases (contains id seen)) [
  | inl old ↦ rw (choose_skipped boards seen id ids old) (choose-IsDistinct boards seen ids)
  | inr fresh ↦ elim (Option-cases (find_board id boards)) [
    | inl missing ↦
        rw (choose_missing boards seen id ids fresh missing)
          (choose-IsDistinct boards (add id seen) ids)
    | inr (b, found) ↦
        rw (choose_found boards seen id ids b fresh found, find_board-id id boards b found)
          (
            ground (
              arith,
              contains-choose boards (add id seen) ids id,
              contains-add id id seen,
              eq_refl id,
            ),
            choose-IsDistinct boards (add id seen) ids,
          )
  ]
]

abbrev pub Found : List BoardEntry → BoardEntry → Type 0
Found boards b = find_board b.id boards ≡ some b

choose-Found :
    (boards : List BoardEntry) (seen ids : List String)
    → All (Found boards) (choose_boards boards seen ids)
choose-Found boards seen [] = unfold choose_boards in tt
choose-Found boards seen (id ∷ ids) = elim (Bool-cases (contains id seen)) [
  | inl old ↦ rw (choose_skipped boards seen id ids old) (choose-Found boards seen ids)
  | inr fresh ↦ elim (Option-cases (find_board id boards)) [
    | inl missing ↦
        rw (choose_missing boards seen id ids fresh missing) (choose-Found boards (add id seen) ids)
    | inr (b, found) ↦ rw (choose_found boards seen id ids b fresh found) (
      ap (λ k. find_board k boards) (find_board-id id boards b found) ∙ found,
      choose-Found boards (add id seen) ids,
    )
  ]
]

nil_of_test : (ids : List String) → is_nil ids ≡ true → ids ≡ []
nil_of_test [] h = refl
nil_of_test (id ∷ ids) h = cc

both_of_test : (a b : Bool) → (a && b) ≡ true → (a ≡ true) × (b ≡ true)
both_of_test a b h = ground arith

named_of_test :
    (ids more : List String) → (is_nil ids && is_nil more) ≡ false → 0 < length (ids ++ more)
named_of_test [] [] h = cc
named_of_test [] (id ∷ more) h = omega arith
named_of_test (id ∷ ids) more h = omega arith

choice_free :
    (cfg : ContactRegistry.Boards) (boards : List BoardEntry)
    → (is_nil cfg.preferred && is_nil cfg.fallback) ≡ true
    → board_choice cfg boards ≡ boards
unfolding board_choice
choice_free cfg boards h = rw (h) refl

choice_set :
    (cfg : ContactRegistry.Boards) (boards : List BoardEntry)
    → (is_nil cfg.preferred && is_nil cfg.fallback) ≡ false
    → board_choice cfg boards ≡ choose_boards boards [] (cfg.preferred ++ cfg.fallback)
unfolding board_choice
choice_set cfg boards h = rw (h) refl

-- A contact whose settings name no board is reached over all boards. Any other names one at least, and is
-- reached over those of its preferred and fallback boards that are loaded, each once, and each the loaded
-- board of its id.
pub board_choice_lem :
    (cfg : ContactRegistry.Boards) (boards : List BoardEntry)
    → ((cfg.preferred ≡ []) × (cfg.fallback ≡ []) × (board_choice cfg boards ≡ boards))
      ⊎ ((0 < length (cfg.preferred ++ cfg.fallback))
          × ((id : String)
              → contains id (ids_of (board_choice cfg boards))
                ≡ (contains id (cfg.preferred ++ cfg.fallback) && is_loaded id boards))
          × IsDistinct (ids_of (board_choice cfg boards))
          × All (Found boards) (board_choice cfg boards))
board_choice_lem cfg boards = elim (Bool-cases (is_nil cfg.preferred && is_nil cfg.fallback)) [
  | inl free ↦
      let both = both_of_test (is_nil cfg.preferred) (is_nil cfg.fallback) free in
      inl (
        nil_of_test cfg.preferred (both.0),
        nil_of_test cfg.fallback (both.1),
        choice_free cfg boards free,
      )
  | inr set ↦ inr (
      rw (choice_set cfg boards set) (
        named_of_test cfg.preferred cfg.fallback set,
        λ id.
            contains-choose boards [] (cfg.preferred ++ cfg.fallback) id ∙ unfold contains in refl,
        choose-IsDistinct boards [] _,
        choose-Found boards [] _,
      ))
]
