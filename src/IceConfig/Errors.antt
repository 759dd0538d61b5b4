-- ===== src/IceConfig/Errors.antt =====
-- What the absence of errors says of the addresses of a form.
use mathlib.Core.List.{append_assoc}
use orpal.Base.{
  ℕ, ◌+◌, Bool, true, false, Option, none, some, List, [], ◌∷◌, ◌++◌, ◌≡◌, refl, sym, ◌∙◌, ◌⊎◌,
  arith, if◌then◌else◌,
}
use orpal.IceConfig.{
  Text, TurnEntry, FormError, is_empty, trim, is_stun_scheme, is_turn_scheme, url_errors,
  credential_errors, turn_errors, stun_errors,
}

url_errors-none :
    (label : Option ℕ) (t : TurnEntry) (rest : List FormError)
    → url_errors label t ++ rest ≡ []
    → (is_turn_scheme (trim t.url) ≡ true) × (rest ≡ [])
unfolding url_errors
url_errors-none label t rest h = ground arith

credential_errors-none :
    (label : Option ℕ) (t : TurnEntry) (rest : List FormError)
    → credential_errors label t ++ rest ≡ []
    → rest ≡ []
unfolding credential_errors
credential_errors-none label t rest h = ground arith

pub turn_errors-gone :
    (labelled : Bool) (i : ℕ) (t : TurnEntry) (turns : List TurnEntry)
    → is_empty (trim t.url) ≡ true
    → turn_errors labelled i (t ∷ turns) ≡ turn_errors labelled (i + 1) turns
unfolding turn_errors
turn_errors-gone labelled i t turns e = rw (e) refl

pub turn_errors-kept :
    (labelled : Bool) (i : ℕ) (t : TurnEntry) (turns : List TurnEntry)
    → is_empty (trim t.url) ≡ false
    → turn_errors labelled i (t ∷ turns) ≡ []
    → (is_turn_scheme (trim t.url) ≡ true) × (turn_errors labelled (i + 1) turns ≡ [])
unfolding turn_errors
turn_errors-kept labelled i t turns e h =
    let label : Option ℕ = if labelled then some (i + 1) else none in
    let rest : List FormError = turn_errors labelled (i + 1) turns in
    let step : turn_errors labelled i (t ∷ turns)
        ≡ url_errors label t ++ credential_errors label t ++ rest =
      rw (e) refl in
    let both =
      url_errors-none label t (credential_errors label t ++ rest)
        (sym (append_assoc (url_errors label t) (credential_errors label t) rest) ∙ sym step ∙ h) in
    (both.0, credential_errors-none label t rest (both.1))

pub stun_errors-none :
    (url : Text) (rest : List FormError)
    → stun_errors url ++ rest ≡ []
    → ((is_empty (trim url) ≡ true) ⊎ (is_stun_scheme url ≡ true)) × (rest ≡ [])
unfolding stun_errors
stun_errors-none url rest h = ground arith
