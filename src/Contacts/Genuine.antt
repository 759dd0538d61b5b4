-- ===== src/Contacts/Genuine.antt =====
-- The guarantee against substitution: which cards are valid.
use orpal.Base.{
  ◌∙◌, refl, sym, ◌>>=◌, ◌↔◌, eq_refl, Option-cases, subst, String, Bool, true, Option, none, some,
  ◌≡◌, ap, eq_of_test, arith, Bool-cases, inl, inr,
}
use orpal.Json.{
  as_text, as_record, text_at, record_at, text_at-lookup, record_at-lookup, Json, object, text,
  number, array, boolean, null,
}
use orpal.Contacts.{
  lookup, parse_contact_card, Fields, check_fields, is_record, ContactCard, ParsedCard, valid,
  invalid, property, is_text, check_binding,
}

-- The binding's self-signature is right, and it ties the identity key to the transport key.
pub record IsBound (verify_binding : Json → Bool) (identity_key transport_key : String)
    (binding : Json) : Type 0 where
  pub signed : verify_binding binding ≡ true
  pub identity : property "identity_key" binding ≡ some (text identity_key)
  pub transport : property "transport_key" binding ≡ some (text transport_key)

is_text-eq : (s : String) (o : Option Json) → is_text s o ≡ true → o ≡ some (text s)
is_text-eq s (some (text t)) e = ap (λ u. some (text u)) (eq_of_test t s e)
is_text-eq s none e = absurd (ground arith)
is_text-eq s (some null) e = absurd (ground arith)
is_text-eq s (some (boolean b)) e = absurd (ground arith)
is_text-eq s (some (number n)) e = absurd (ground arith)
is_text-eq s (some (array a)) e = absurd (ground arith)
is_text-eq s (some (object f)) e = absurd (ground arith)

-- What holds of the card where there is one.
abbrev pub Admits {κ} : (ContactCard → Type κ) → ParsedCard → Type κ
Admits P (invalid reason) = Unit
Admits P (valid c) = P c

abbrev pub Bound : (Json → Bool) → ContactCard → Type 0
Bound verify_binding c = IsBound verify_binding c.identity_key c.transport_key c.binding

abbrev card_or : ContactCard → ParsedCard → ContactCard
card_or d (invalid reason) = d
card_or d (valid c) = c

Admits-valid :
    (P : ContactCard → Type 0) (p : ParsedCard) (c : ContactCard) → Admits P p → p ≡ valid c → P c
Admits-valid P (valid d) c h e = subst P (ap (card_or d) e) h
Admits-valid P (invalid reason) c h e = absurd cc

-- The value is a contact card: an object of that kind, whose keys and binding are the card's, with
-- its name if that is a text, and the binding is self-signed and ties the one key to the other.
pub record Shows (verify_binding : Json → Bool) (fs : Fields) (c : ContactCard) : Type 0 where
  pub kind : lookup "kind" fs ≡ some (text "orpal-contact")
  pub identity_field : lookup "identity_key" fs ≡ some (text c.identity_key)
  pub transport_field : lookup "transport_key" fs ≡ some (text c.transport_key)
  pub binding_field : lookup "binding" fs ≡ some c.binding
  pub binding_record : is_record c.binding ≡ true
  pub name_field : c.name ≡ text_at "name" fs
  pub bound : Bound verify_binding c

abbrev pub IsCard : (Json → Bool) → Json → ContactCard → Type 0
IsCard verify_binding (object fs) c = Shows verify_binding fs c
IsCard verify_binding _ c = ⊥

module _ (verify_binding : Json → Bool) where
  -- A card that passes the last checks has the given fields, and its keys are bound.
  check_binding-Admits :
      (i t : String) (b : Json) (n : Option String) (P : ContactCard → Type 0)
      → (IsBound verify_binding i t b
          → P (record { identity_key = i; transport_key = t; binding = b; name = n }))
      → Admits P (check_binding verify_binding i t b n)
  unfolding check_binding
  check_binding-Admits i t b n P f = elim (Bool-cases (verify_binding b)) [
    | inr bad ↦ simp bad tt
    | inl good ↦ elim (Bool-cases (is_text i (property "identity_key" b))) [
      | inr other ↦ simp (good, other) tt
      | inl same ↦ elim (Bool-cases (is_text t (property "transport_key" b))) [
        | inr apart ↦ simp (good, same, apart) tt
        | inl equal ↦
            simp (good, same, equal)
              (f (record {
                signed = good;
                identity = is_text-eq i _ same;
                transport = is_text-eq t _ equal;
              }))
      ]
    ]
  ]

  check_fields-Admits :
      (fs : Fields)
      → lookup "kind" fs ≡ some (text "orpal-contact")
      → Admits (Shows verify_binding fs) (check_fields verify_binding fs)
  unfolding check_fields
  check_fields-Admits fs kind = elim (Option-cases (text_at "identity_key" fs)) [
    | inl gone ↦ rw (check_fields, gone) tt
    | inr (i, at_i) ↦ elim (Option-cases (text_at "transport_key" fs)) [
      | inl gone ↦ rw (check_fields, at_i, gone) tt
      | inr (t, at_t) ↦ elim (Option-cases (record_at "binding" fs)) [
        | inl gone ↦ rw (check_fields, at_i, at_t, gone) tt
        | inr (b, at_b) ↦
            rw (check_fields, at_i, at_t, at_b)
              (check_binding-Admits i t b (text_at "name" fs) (Shows verify_binding fs) (λ bound.
                record {
                  kind = kind;
                  identity_field = text_at-lookup "identity_key" fs i at_i;
                  transport_field = text_at-lookup "transport_key" fs t at_t;
                  binding_field = (record_at-lookup "binding" fs b at_b).0;
                  binding_record = (record_at-lookup "binding" fs b at_b).1;
                  name_field = refl;
                  bound = bound;
                }))
      ]
    ]
  ]

  parse-Admits :
      (fs : Fields)
      → Admits (Shows verify_binding fs) (parse_contact_card verify_binding (object fs))
  unfolding parse_contact_card
  parse-Admits fs = elim (Bool-cases (is_text "orpal-contact" (lookup "kind" fs))) [
    | inr other ↦ rw (parse_contact_card, other) tt
    | inl kind ↦
        rw (parse_contact_card, kind) (check_fields-Admits fs (is_text-eq "orpal-contact" _ kind))
  ]

  bound_passes :
      (i t : String) (b : Json) (n : Option String)
      → IsBound verify_binding i t b
      → check_binding verify_binding i t b n
        ≡ valid (record { identity_key = i; transport_key = t; binding = b; name = n })
  unfolding check_binding
  bound_passes i t b n h = simp (h.signed, h.identity, h.transport, eq_refl i, eq_refl t) refl

  shown_passes :
      (fs : Fields) (c : ContactCard)
      → Shows verify_binding fs c
      → parse_contact_card verify_binding (object fs) ≡ valid c
  unfolding parse_contact_card check_fields
  shown_passes fs c h = simp h.kind fields
    where
      at_i : text_at "identity_key" fs ≡ some c.identity_key
      at_i = ap (λ o. o >>= as_text) h.identity_field

      at_t : text_at "transport_key" fs ≡ some c.transport_key
      at_t = ap (λ o. o >>= as_text) h.transport_field

      is_record-as_record : (v : Json) → is_record v ≡ true → as_record v ≡ some v
      is_record-as_record v e = simp e refl

      at_b : record_at "binding" fs ≡ some c.binding
      at_b =
          ap (λ o. o >>= as_record) h.binding_field ∙ is_record-as_record c.binding h.binding_record

      named :
          (n : Option String)
          → c.name ≡ n
          → check_binding verify_binding c.identity_key c.transport_key c.binding n ≡ valid c
      named n e =
          bound_passes c.identity_key c.transport_key c.binding n h.bound
          ∙ ap (λ m. valid (record c { name = m })) (sym e)

      fields : check_fields verify_binding fs ≡ valid c
      fields =
          unfold check_fields in
          rw (check_fields, at_i, at_t, at_b) (named (text_at "name" fs) h.name_field)

  -- A value parses to a valid card exactly if it shows that card: in particular the binding's
  -- signature verifies, and it ties the card's identity key to the card's transport key.
  pub parse_contact_card_iff :
      (j : Json) (c : ContactCard)
      → (parse_contact_card verify_binding j ≡ valid c) ↔ IsCard verify_binding j c
  unfolding parse_contact_card
  parse_contact_card_iff (object fs) c =
      (λ e. Admits-valid (Shows verify_binding fs) _ c (parse-Admits fs) e, shown_passes fs c)
  parse_contact_card_iff null c = (λ e. absurd cc, λ h. absurd h)
  parse_contact_card_iff (boolean b) c = (λ e. absurd cc, λ h. absurd h)
  parse_contact_card_iff (number n) c = (λ e. absurd cc, λ h. absurd h)
  parse_contact_card_iff (text s) c = (λ e. absurd cc, λ h. absurd h)
  parse_contact_card_iff (array a) c = (λ e. absurd cc, λ h. absurd h)
