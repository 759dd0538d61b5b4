-- ===== src/IceConfig/Trim.antt =====
-- Trimming, and that a trimmed text is not trimmed again.
use orpal.Base.{[], ◌∷◌, false, ◌≡◌, refl, Bool-cases, inl, inr, ap, ◌∙◌, ◌&&◌}
use orpal.IceConfig.{Text, white, is_empty, drop_start, drop_end, trim}

drop_end-kept :
    (c : _) (text : Text)
    → (white c && is_empty (drop_end text)) ≡ false
    → drop_end (c ∷ text) ≡ c ∷ drop_end text
unfolding drop_end
drop_end-kept c text h = rw (h) refl

drop_end-drop_end : (text : Text) → drop_end (drop_end text) ≡ drop_end text
unfolding drop_end
drop_end-drop_end [] = refl
drop_end-drop_end (c ∷ text) =
    let again = drop_end-drop_end text in
    elim (Bool-cases (white c && is_empty (drop_end text))) [
      | inl dropped ↦ rw (dropped) refl
      | inr kept ↦ rw (kept, again, kept) refl
    ]

drop_start-drop_end :
    (text : Text) → drop_start (drop_end (drop_start text)) ≡ drop_end (drop_start text)
unfolding drop_start
drop_start-drop_end [] = unfold drop_end in refl
drop_start-drop_end (c ∷ text) =
    let again = drop_start-drop_end text in
    elim (Bool-cases (white c)) [
      | inl dropped ↦ rw (dropped) again
      | inr kept ↦ rw (kept, drop_end-kept c text (rw (kept) refl), kept) refl
    ]

pub trim-trim : (text : Text) → trim (trim text) ≡ trim text
unfolding trim
trim-trim text = ap drop_end (drop_start-drop_end text) ∙ drop_end-drop_end (drop_start text)
