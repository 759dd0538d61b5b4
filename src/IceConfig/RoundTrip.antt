-- ===== src/IceConfig/RoundTrip.antt =====
-- What the form of settings is made into and what is made of it again, where it has no errors.
use orpal.Base.{
  ℕ, ◌+◌, [], ◌∷◌, ◌++◌, List, Bool, true, false, none, some, ◌≡◌, refl, Bool-cases, inl, inr, ap,
  ◌∙◌, sym, if◌then◌else◌, leb, length,
}
use mathlib.Core.List.{append-nil, append_assoc}
use orpal.IceConfig.{
  single, Text, TurnEntry, IceForm, IceServer, is_empty, trim, is_stun_scheme, is_turn_scheme,
  is_simple_after, is_simple_config, add_url, add_urls, add_servers, urls_of, or_empty,
  ice_servers_to_form, turn_servers, form_to_ice_servers, turn_errors, validate_form,
}
use orpal.IceConfig.Errors.{turn_errors-gone, turn_errors-kept, stun_errors-none}
use orpal.IceConfig.Schemes.{turn-not-stun, is_stun_scheme-trim, stun-not-turn}

-- The form without its empty rows, its addresses trimmed.
pub tidied_turns : List TurnEntry → List TurnEntry
tidied_turns [] = []
tidied_turns (t ∷ turns) =
    let rest = tidied_turns turns in
    if is_empty (trim t.url) then rest else record t { url = trim t.url } ∷ rest

pub tidied : IceForm → IceForm
tidied form = record { stun_url = trim form.stun_url; turns = tidied_turns form.turns }

persisted : TurnEntry → IceServer
persisted t = record {
  urls = single (trim t.url);
  username = some t.username;
  credential = some t.credential;
}

turn_servers-gone :
    (t : TurnEntry) (turns : List TurnEntry)
    → is_empty (trim t.url) ≡ true
    → turn_servers (t ∷ turns) ≡ turn_servers turns
unfolding turn_servers
turn_servers-gone t turns e = rw (e) refl

turn_servers-kept :
    (t : TurnEntry) (turns : List TurnEntry)
    → is_empty (trim t.url) ≡ false
    → turn_servers (t ∷ turns) ≡ persisted t ∷ turn_servers turns
unfolding turn_servers persisted
turn_servers-kept t turns e = rw (e) refl

is_simple_after-persisted :
    (n : ℕ) (t : TurnEntry) (servers : List IceServer)
    → is_turn_scheme (trim t.url) ≡ true
    → is_simple_after n (persisted t ∷ servers) ≡ is_simple_after n servers
unfolding is_simple_after persisted
is_simple_after-persisted n t servers e = rw (turn-not-stun (trim t.url) e, e) refl

is_simple_after-turns :
    (labelled : Bool) (i n : ℕ) (turns : List TurnEntry)
    → turn_errors labelled i turns ≡ []
    → is_simple_after n (turn_servers turns) ≡ leb n 1
is_simple_after-turns labelled i n [] h = unfold is_simple_after turn_servers in refl
is_simple_after-turns labelled i n (t ∷ turns) h = elim (Bool-cases (is_empty (trim t.url))) [
  | inl gone ↦
      ap (is_simple_after n) (turn_servers-gone t turns gone)
      ∙ is_simple_after-turns labelled (i + 1) n turns
          (sym (turn_errors-gone labelled i t turns gone) ∙ h)
  | inr kept ↦
      let both = turn_errors-kept labelled i t turns kept h in
      ap (is_simple_after n) (turn_servers-kept t turns kept)
      ∙ is_simple_after-persisted n t (turn_servers turns) (both.0)
      ∙ is_simple_after-turns labelled (i + 1) n turns (both.1)
]

add_servers-persisted :
    (t : TurnEntry) (servers : List IceServer) (stun : Text) (before : List TurnEntry)
    → is_turn_scheme (trim t.url) ≡ true
    → add_servers (persisted t ∷ servers) (record { stun_url = stun; turns = before })
      ≡ add_servers servers
          (record { stun_url = stun; turns = before ++ (record t { url = trim t.url } ∷ []) })
unfolding add_servers persisted add_urls add_url urls_of or_empty
add_servers-persisted t servers stun before e = rw (e) refl

tidied_turns-kept :
    (t : TurnEntry) (turns : List TurnEntry)
    → is_empty (trim t.url) ≡ false
    → tidied_turns (t ∷ turns) ≡ record t { url = trim t.url } ∷ tidied_turns turns
unfolding tidied_turns
tidied_turns-kept t turns e = rw (e) refl

tidied_turns-gone :
    (t : TurnEntry) (turns : List TurnEntry)
    → is_empty (trim t.url) ≡ true
    → tidied_turns (t ∷ turns) ≡ tidied_turns turns
unfolding tidied_turns
tidied_turns-gone t turns e = rw (e) refl

abbrev form_of : Text → List TurnEntry → IceForm
form_of stun turns = record { stun_url = stun; turns = turns }

add_servers-turns :
    (labelled : Bool) (i : ℕ) (turns : List TurnEntry) (stun : Text) (before : List TurnEntry)
    → turn_errors labelled i turns ≡ []
    → add_servers (turn_servers turns) (form_of stun before)
      ≡ form_of stun (before ++ tidied_turns turns)
add_servers-turns labelled i [] stun before h =
    unfold add_servers turn_servers tidied_turns in ap (form_of stun) (sym (append-nil before))
add_servers-turns labelled i (t ∷ turns) stun before h = elim (Bool-cases (is_empty (trim t.url))) [
  | inl gone ↦
      ap (λ s. add_servers s (form_of stun before)) (turn_servers-gone t turns gone)
      ∙ add_servers-turns labelled (i + 1) turns stun before
          (sym (turn_errors-gone labelled i t turns gone) ∙ h)
      ∙ ap (λ rest. form_of stun (before ++ rest)) (sym (tidied_turns-gone t turns gone))
  | inr kept ↦
      let both = turn_errors-kept labelled i t turns kept h in
      ap (λ s. add_servers s (form_of stun before)) (turn_servers-kept t turns kept)
      ∙ add_servers-persisted t (turn_servers turns) stun before (both.0)
      ∙ add_servers-turns labelled (i + 1) turns stun _ (both.1)
      ∙ ap (form_of stun) (
          append_assoc before (record t { url = trim t.url } ∷ []) (tidied_turns turns)
          ∙ ap (λ rest. before ++ rest) (sym (tidied_turns-kept t turns kept)))
]

stun_first : Text → IceServer
stun_first url = record { urls = single (trim url); username = none; credential = none }

form_to_ice_servers-kept :
    (form : IceForm)
    → is_empty (trim form.stun_url) ≡ false
    → form_to_ice_servers form ≡ stun_first form.stun_url ∷ turn_servers form.turns
unfolding form_to_ice_servers stun_first
form_to_ice_servers-kept form e = rw (e) refl

form_to_ice_servers-gone :
    (form : IceForm)
    → is_empty (trim form.stun_url) ≡ true
    → form_to_ice_servers form ≡ turn_servers form.turns
unfolding form_to_ice_servers
form_to_ice_servers-gone form e = rw (e) refl

is_simple_after-stun_first :
    (url : Text) (servers : List IceServer)
    → is_stun_scheme url ≡ true
    → is_simple_after 0 (stun_first url ∷ servers) ≡ is_simple_after 1 servers
unfolding is_simple_after stun_first
is_simple_after-stun_first url servers e = rw (is_stun_scheme-trim url, e) refl

add_servers-stun_first :
    (url : Text) (servers : List IceServer)
    → is_stun_scheme url ≡ true
    → add_servers (stun_first url ∷ servers) (form_of [] [])
      ≡ add_servers servers (form_of (trim url) [])
unfolding add_servers stun_first add_urls add_url urls_of is_empty
add_servers-stun_first url servers e = rw (stun-not-turn url e, is_stun_scheme-trim url, e) refl

is_empty-nil : (text : Text) → is_empty text ≡ true → text ≡ []
unfolding is_empty
is_empty-nil [] h = refl
is_empty-nil (c ∷ text) h = cc

-- If the form has no errors, the servers it is made into can be shown in the form again, and the form
-- made of them is the same, with the addresses trimmed and the rows without one left out.
pub form_to_ice_servers-round_trip :
    (form : IceForm)
    → validate_form form ≡ []
    → (is_simple_config (form_to_ice_servers form) ≡ true)
      × (ice_servers_to_form (form_to_ice_servers form) ≡ tidied form)
unfolding validate_form is_simple_config ice_servers_to_form tidied
form_to_ice_servers-round_trip form h =
    let both = stun_errors-none form.stun_url _ h in
    let labelled = leb 2 (length form.turns) in
    elim (Bool-cases (is_empty (trim form.stun_url))) [
      | inl gone ↦ (
        ap (is_simple_after 0) (form_to_ice_servers-gone form gone)
            ∙ is_simple_after-turns labelled 0 0 form.turns (both.1),
        ap (λ s. add_servers s (form_of [] [])) (form_to_ice_servers-gone form gone)
            ∙ add_servers-turns labelled 0 form.turns [] [] (both.1)
            ∙ ap (λ url. form_of url (tidied_turns form.turns))
                (sym (is_empty-nil (trim form.stun_url) gone)),
      )
      | inr kept ↦
          let stun : is_stun_scheme form.stun_url ≡ true = (elim (both.0) [
            | inl gone ↦ cc
            | inr stun ↦ stun
          ]) in
          (
            ap (is_simple_after 0) (form_to_ice_servers-kept form kept)
                ∙ is_simple_after-stun_first form.stun_url (turn_servers form.turns) stun
                ∙ is_simple_after-turns labelled 0 1 form.turns (both.1),
            ap (λ s. add_servers s (form_of [] [])) (form_to_ice_servers-kept form kept)
                ∙ add_servers-stun_first form.stun_url (turn_servers form.turns) stun
                ∙ add_servers-turns labelled 0 form.turns (trim form.stun_url) [] (both.1),
          )
    ]
