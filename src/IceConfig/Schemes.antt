-- ===== src/IceConfig/Schemes.antt =====
-- The schemes of addresses: none is both a STUN and a TURN address.
use orpal.Base.{ℕ, [], ◌∷◌, List, true, false, ◌≡◌, refl, Bool-cases, inl, inr, arith}
use orpal.IceConfig.{Text, trim, is_letter, strip, has_prefix, is_stun_scheme, is_turn_scheme}
use orpal.IceConfig.Trim.{trim-trim}

letters-differ : (c : ℕ) → is_letter 116 c ≡ true → is_letter 115 c ≡ false
unfolding is_letter
letters-differ c h = grind arith

has_prefix-no :
    (p c : ℕ) (pattern : List ℕ) (text : Text)
    → is_letter p c ≡ false
    → has_prefix (p ∷ pattern) (c ∷ text) ≡ false
unfolding strip has_prefix
has_prefix-no p c pattern text h = rw (has_prefix, h) refl

schemes-differ :
    (text : Text)
    → has_prefix (116 ∷ 117 ∷ 114 ∷ 110 ∷ []) text ≡ true
    → has_prefix (115 ∷ 116 ∷ 117 ∷ 110 ∷ []) text ≡ false
schemes-differ [] h = unfold has_prefix strip in refl
schemes-differ (c ∷ text) h = elim (Bool-cases (is_letter 116 c)) [
  | inl t ↦ has_prefix-no 115 c _ text (letters-differ c t)
  | inr other ↦ let e = has_prefix-no 116 c (117 ∷ 114 ∷ 110 ∷ []) text other in cc
]

pub turn-not-stun : (url : Text) → is_turn_scheme url ≡ true → is_stun_scheme url ≡ false
unfolding is_turn_scheme is_stun_scheme
turn-not-stun url h = schemes-differ (trim url) h

pub is_stun_scheme-trim : (url : Text) → is_stun_scheme (trim url) ≡ is_stun_scheme url
unfolding is_stun_scheme
is_stun_scheme-trim url = rw (trim-trim url) refl

pub stun-not-turn : (url : Text) → is_stun_scheme url ≡ true → is_turn_scheme (trim url) ≡ false
stun-not-turn url e = elim (Bool-cases (is_turn_scheme (trim url))) [
  | inl turn ↦
      let no_stun = turn-not-stun (trim url) turn in let same = is_stun_scheme-trim url in cc
  | inr other ↦ other
]
