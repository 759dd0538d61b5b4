-- ===== src/ConversationStore/Newest.antt =====
-- `listMessages` against a description of its result.
use mathlib.Core.List.{Perm, append-nil}
use orpal.Base.{
  take, drop, length, length-take, List, [], ◌∷◌, refl, inl, sym, arith, subst, ◌⊎◌, ◌++◌, ◌==◌,
  none, some, keep, ◌≡◌, All, String, Option, ℕ, ◌≤◌,
}
use orpal.Dict
use orpal.ConversationStore.{
  StoredMessage, ListMessagesOptions, Store, newest_first, older_than, at_most, list_messages,
  list_all_messages,
}
use orpal.ConversationStore.Listing.{
  drop_full, drop-newest, take-IsSorted, take-drop, newest_first-IsSorted, newest_first-Perm,
  older_than-keep, is_match, IsSorted,
}

abbrev pub Within : Option ℕ → List StoredMessage → Type 0
Within none rows = Unit {0}
Within (some n) rows = length rows ≤ n

-- The limit is reached.
abbrev pub Full : Option ℕ → List StoredMessage → Type 0
Full none rows = ⊥
Full (some n) rows = length rows ≡ n

-- The rows are the newest of the store's messages that match, newest first. With the rest, which is left
-- out, they are those messages, each as often as it is there; no message of the rest is newer than one of
-- the rows. They are no more than the limit, and there is a rest only if the limit is reached.
pub record IsListing (key : String) (opts : ListMessagesOptions) (s : Store)
    (rows : List StoredMessage) : Type 0 where
  pub rest : List StoredMessage
  pub selected : Perm (rows ++ rest) (keep (is_match key opts) (list_all_messages s))
  pub sorted : IsSorted rows
  pub newest : All (λ r. All (λ m. m.ts ≤ r.ts) rest) rows
  pub limited : Within opts.limit rows
  pub full : (rest ≡ []) ⊎ Full opts.limit rows

take-within : (n : ℕ) (rows : List StoredMessage) → length (take n rows) ≤ n
take-within n rows = omega (arith, length-take n rows)

nothing_newer :
    (rows : List StoredMessage)
    → All (λ (r : StoredMessage). All (λ (m : StoredMessage). m.ts ≤ r.ts) []) rows
nothing_newer [] = tt
nothing_newer (r ∷ rows) = (tt, nothing_newer rows)

listed :
    (key : String) (opts : ListMessagesOptions) (s : Store) (rows : List StoredMessage)
    (limit : Option ℕ)
    → opts.limit ≡ limit
    → Perm rows (keep (is_match key opts) (list_all_messages s))
    → IsSorted rows
    → IsListing key opts s (at_most limit rows)
unfolding at_most
listed key opts s rows none e p o = record {
  rest = [];
  selected =
      subst (λ l. Perm l (keep (is_match key opts) (list_all_messages s))) (sym (append-nil rows))
        p;
  sorted = o;
  newest = nothing_newer rows;
  limited = subst (λ l. Within l rows) (sym e) tt;
  full = inl refl;
}
listed key opts s rows (some n) e p o = record {
  rest = drop n rows;
  selected =
      subst (λ l. Perm l (keep (is_match key opts) (list_all_messages s))) (sym (take-drop n rows))
        p;
  sorted = take-IsSorted n rows o;
  newest = drop-newest n rows o;
  limited = subst (λ l. Within l (take n rows)) (sym e) (take-within n rows);
  full = subst (λ l. (drop n rows ≡ []) ⊎ Full l (take n rows)) (sym e) (drop_full n rows);
}

-- `listMessages` gives the messages of the conversation that are older than the cursor, each as often as
-- the store has it, newest first: all of them, or exactly as many as the limit, none of which is older
-- than one that is left out.
pub list_messages-IsListing :
    (key : String) (opts : ListMessagesOptions) (s : Store)
    → IsListing key opts s (list_messages key opts s)
unfolding list_messages list_all_messages
list_messages-IsListing key opts s =
    listed key opts s (newest_first older) opts.limit refl
      (subst (λ l. Perm (newest_first older) l)
        (older_than-keep opts.before (λ m. m.contact_key == key) (Dict.values s.messages))
        (newest_first-Perm older))
      (newest_first-IsSorted older)
  where
    older : List StoredMessage
    older = older_than opts.before (keep (λ m. m.contact_key == key) (Dict.values s.messages))
