-- ===== src/Contacts/Import.antt =====
-- What an import lets in.
use orpal.Base.{
  subst, ◌+◌, refl, sym, ◌∙◌, ◌&&◌, ◌||◌, true, All-append, ◌&&◌, ◌||◌, inr, inl, Bool-cases, true,
  eq_iff, ◌==◌, length-append, if◌then◌else◌, arith, [], suc, ◌∷◌, ◌++◌, String, List, ℕ, ◌+◌, Bool,
  false, ◌≡◌, length, All,
}
use orpal.Base.KeySet.{contains-add, contains}
use orpal.Json.{Json}
use orpal.Contacts.{
  valid, invalid, parse_contact_card, ParsedCard, serialize_card, ContactCard, contact_from_card,
  Contact,
}
use orpal.Contacts.Genuine.{IsBound, parse_contact_card_iff}
use orpal.Contacts.Bundle.{
  card_of, import_entry, overwrite, import_contacts, import_card, OnCollision, import_entries,
  ContactsExport, skips, contact_of, reject, accept, ContactExportEntry, ImportOptions, Imported,
  skip, is_own,
}

-- The contact's binding verifies, and ties its identity key to its transport key; the contact is not
-- the device itself.
pub record IsAdmissible (verify_binding : Json → Bool) (opts : ImportOptions) (c : Contact)
    : Type 0 where
  pub bound : IsBound verify_binding c.identity_key c.transport_key c.binding
  pub foreign : is_own opts.own_key c.identity_key ≡ false
  pub fresh : (opts.on_collision ≡ skip) → contains c.identity_key opts.existing_keys ≡ false

abbrev pub keys : List Contact → List String
keys [] = []
keys (c ∷ cs) = c.identity_key ∷ keys cs

-- No two contacts have one identity key.
abbrev pub IsDistinct : List Contact → Type 0
IsDistinct [] = Unit {0}
IsDistinct (c ∷ cs) = (contains c.identity_key (keys cs) ≡ false) × IsDistinct cs

contains-keys_append :
    (k : String) (cs : List Contact) (c : Contact)
    → contains k (keys (cs ++ c ∷ []))
      ≡ (if c.identity_key == k then true else contains k (keys cs))
unfolding contains
contains-keys_append k [] c = refl
contains-keys_append k (d ∷ cs) c = ground (arith, contains-keys_append k cs c)

append-IsDistinct :
    (cs : List Contact) (c : Contact)
    → IsDistinct cs
    → contains c.identity_key (keys cs) ≡ false
    → IsDistinct (cs ++ c ∷ [])
unfolding contains
append-IsDistinct [] c d h = (refl, tt)
append-IsDistinct (e ∷ cs) c (absent, d) h = (
  ground (
    arith,
    contains-keys_append e.identity_key cs c,
    eq_iff e.identity_key c.identity_key,
    eq_iff c.identity_key e.identity_key,
  ),
  append-IsDistinct cs c d (ground arith),
)

free_of :
    (x y : Bool) (o : OnCollision)
    → ((x || y) && skips o) ≡ false
    → o ≡ skip
    → (x ≡ false) × (y ≡ false)
free_of false false o e s = (refl, refl)
free_of true y skip e s = absurd cc
free_of false true skip e s = absurd cc
free_of true y overwrite e s = absurd cc
free_of false true overwrite e s = absurd cc

-- What the loop has come to after `n` entries.
record Inv (verify_binding : Json → Bool) (opts : ImportOptions) (n : ℕ) (acc : Imported)
    : Type 0 where
  counted : acc.imported + acc.skipped + length acc.rejected ≡ n
  listed : acc.imported ≡ length acc.contacts
  admissible : All (IsAdmissible verify_binding opts) acc.contacts
  seen_keys : (k : String) → contains k acc.seen ≡ contains k (keys acc.contacts)
  distinct : opts.on_collision ≡ skip → IsDistinct acc.contacts

module _ (verify_binding : Json → Bool) (opts : ImportOptions) (n : ℕ) (acc : Imported)
    (v : Inv verify_binding opts n acc) (e : ContactExportEntry) where
  reject-Inv : (reason : String) → Inv verify_binding opts (suc n) (reject e reason acc)
  unfolding reject
  reject-Inv reason = record {
    counted = omega (
      arith,
      v.counted,
      length-append acc.rejected (record { identity_key = e.identity_key; reason = reason } ∷ []),
    );
    listed = v.listed;
    admissible = v.admissible;
    seen_keys = v.seen_keys;
    distinct = v.distinct;
  }

  accept-Inv :
      (card : ContactCard)
      → IsBound verify_binding card.identity_key card.transport_key card.binding
      → Inv verify_binding opts (suc n) (accept opts e card acc)
  unfolding accept contact_of contact_from_card
  accept-Inv card b = elim (Bool-cases (is_own opts.own_key card.identity_key)) [
    | inl own ↦ rw (accept, own) (reject-Inv "that-is-your-own-card")
    | inr other ↦
        elim (Bool-cases (
          (contains card.identity_key acc.seen || contains card.identity_key opts.existing_keys)
          && skips opts.on_collision)) [
            | inl collides ↦
                rw (accept, other, collides)
                  (record {
                    counted = omega (arith, v.counted);
                    listed = v.listed;
                    admissible = v.admissible;
                    seen_keys = v.seen_keys;
                    distinct = v.distinct;
                  })
            | inr free ↦
                rw (accept, other, free)
                  (record {
                    counted = omega (arith, v.counted);
                    listed =
                        omega (
                          arith,
                          v.listed,
                          length-append acc.contacts (contact_of opts e card ∷ []),
                        );
                    admissible =
                        All-append (IsAdmissible verify_binding opts) acc.contacts
                          (contact_of opts e card ∷ []) v.admissible
                          (
                            record {
                              bound = b;
                              foreign = other;
                              fresh = λ s.
                                  (free_of (contains card.identity_key acc.seen)
                                    (contains card.identity_key opts.existing_keys)
                                    opts.on_collision free s).1;
                            },
                            tt,
                          );
                    seen_keys = λ k. ground (
                      arith,
                      contains-add card.identity_key k acc.seen,
                      contains-keys_append k acc.contacts (contact_of opts e card),
                      v.seen_keys k,
                    );
                    distinct = λ s.
                        append-IsDistinct acc.contacts (contact_of opts e card) (v.distinct s) (
                          sym (v.seen_keys card.identity_key)
                          ∙ (free_of (contains card.identity_key acc.seen)
                              (contains card.identity_key opts.existing_keys) opts.on_collision free
                              s).0);
                  })
          ]
  ]

-- The outcome of an import.
pub record Outcome (verify_binding : Json → Bool) (opts : ImportOptions) (bundle : ContactsExport)
    (acc : Imported) : Type 0 where
  pub partitioned : acc.imported + acc.skipped + length acc.rejected ≡ length bundle.contacts
  pub listed : acc.imported ≡ length acc.contacts
  pub admissible : All (IsAdmissible verify_binding opts) acc.contacts
  pub distinct : opts.on_collision ≡ skip → IsDistinct acc.contacts

module _ (verify_binding : Json → Bool) (opts : ImportOptions) where
  import_card-Inv :
      (n : ℕ) (acc : Imported) (e : ContactExportEntry) (p : ParsedCard)
      → Inv verify_binding opts n acc
      → parse_contact_card verify_binding (serialize_card (card_of e)) ≡ p
      → Inv verify_binding opts (suc n) (import_card verify_binding opts e p acc)
  unfolding import_card serialize_card
  import_card-Inv n acc e (invalid reason) v h = reject-Inv verify_binding opts n acc v e reason
  import_card-Inv n acc e (valid card) v h =
      accept-Inv verify_binding opts n acc v e card
        ((parse_contact_card_iff verify_binding (serialize_card (card_of e)) card).0 h).bound

  import_entries-Inv :
      (entries : List ContactExportEntry) (n : ℕ) (acc : Imported)
      → Inv verify_binding opts n acc
      → Inv verify_binding opts
          (n + length entries)
          (import_entries verify_binding opts entries acc)
  unfolding import_entries import_entry
  import_entries-Inv [] n acc v = subst (λ k. Inv verify_binding opts k acc) (omega arith) v
  import_entries-Inv (e ∷ entries) n acc v =
      let w = import_entries-Inv entries (suc n) _ (import_card-Inv n acc e _ v refl) in
      subst
        (λ k.
          Inv verify_binding opts k
            (import_entries verify_binding opts entries (import_entry verify_binding opts e acc)))
        (omega arith) w

-- Every contact that an import gives has a binding that verifies and that ties its identity key to
-- its transport key, and is not the device's own; unless collisions overwrite, its key is not among
-- the existing ones and no two contacts have one key. Each entry is imported, skipped or rejected,
-- and the count of the imported is that of the contacts.
pub import_contacts-Admissible :
    (verify_binding : Json → Bool) (bundle : ContactsExport) (opts : ImportOptions)
    → Outcome verify_binding opts bundle (import_contacts verify_binding bundle opts)
unfolding import_contacts
import_contacts-Admissible verify_binding bundle opts =
    let v = import_entries-Inv verify_binding opts bundle.contacts 0 _ start in
    record {
      partitioned = omega (arith, v.counted);
      listed = v.listed;
      admissible = v.admissible;
      distinct = v.distinct;
    }
  where
    start :
        Inv verify_binding opts 0
          (record { contacts = []; imported = 0; skipped = 0; rejected = []; seen = [] })
    start = record {
      counted = refl;
      listed = refl;
      admissible = tt;
      seen_keys = λ k. unfold contains in refl;
      distinct = λ s. tt;
    }
