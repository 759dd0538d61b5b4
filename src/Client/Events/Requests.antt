-- ===== src/Client/Events/Requests.antt =====
-- The requests of unknown senders through calls on the contacts and texts that come in.
use orpal.ConversationStore.{get_contact}
use orpal.MigrationManager.Incoming.{Accepted}
use orpal.Client.Migration.{replace_contact}
use mathlib.Core.Option.{some-injective}
use orpal.Base.{
  subst, String, true, false, List, [], ◌∷◌, some, ◌==◌, if◌then◌else◌, ◌≡◌, refl, ◌∙◌, sym, ap,
  inl, inr, Bool-cases, Option-cases, arith, eq_of_test,
}
use orpal.Dict
use orpal.Dict.Laws.{get-set}
use orpal.Contacts.{ContactCard, valid}
use orpal.Keys.{Orp}
use orpal.Client.{Outside, Client, ContactRequest}
use orpal.Client.Contacts.{parse_card_text}
use orpal.Client.Incoming.{on_card, is_news}
use orpal.Client.Untouched.{Same}
use orpal.Client.Events.Calls.{Fewer, Fewer-of, call-Fewer}
use orpal.Client.Untouched.Accepting.{kept_if}
use orpal.Client.Untouched.Handled.{handle-kept}
use orpal.Client.Events.{ClientEvent, called, received, happens, run}

module _ (orp : Orp) (out : Outside) where
  -- The card of a request verifies, is of the key that it stands under, and is not the device's own.
  abbrev pub Vouched : Client orp → String → ContactRequest → Type 0
  Vouched c key req =
      (card : ContactCard) × (parse_card_text orp out req.card ≡ valid card)
      × (card.identity_key ≡ key)
      × ((key == c.identity_key) ≡ false)

  abbrev pub IsVouched : Client orp → Type 0
  IsVouched c =
      (key : String) (req : ContactRequest)
      → Dict.get key c.pending_cards ≡ some req
      → Vouched c key req

  Fewer-IsVouched : (c d : Client orp) → Fewer orp out c d → IsVouched c → IsVouched d
  Fewer-IsVouched c d f v key req h =
      subst
        (λ own.
          (card : ContactCard) × (parse_card_text orp out req.card ≡ valid card)
          × (card.identity_key ≡ key)
          × ((key == own) ≡ false))
        (sym f.own) (v key req (f.fewer key req h))

  along-IsVouched : (c d : Client orp) → Same orp c d → IsVouched c → IsVouched d
  along-IsVouched c d s = Fewer-IsVouched c d (Fewer-of orp out (s.1.pending) (s.1.own))

  replaced-Fewer :
      (key : String) (a : Accepted) (c : Client orp) → Fewer orp out c (replace_contact orp key a c)
  unfolding replace_contact
  replaced-Fewer key a c = elim (Option-cases (get_contact key c.store)) [
    | inl missing ↦ rw (replace_contact, missing) (Fewer-of orp out refl refl)
    | inr (old, found) ↦
        rw (replace_contact, found)
          (kept_if (Fewer orp out c) (a.identity_key == "") (Fewer-of orp out refl refl)
            (Fewer-of orp out refl refl))
  ]

  news-is :
      (key card_key : String) (c : Client orp)
      → is_news orp out key card_key c ≡ true
      → (card_key ≡ key) × ((key == c.identity_key) ≡ false)
  unfolding is_news
  news-is key card_key c h =
      let same : card_key ≡ key = eq_of_test card_key key (ground arith) in
      (same, subst (λ k. (k == c.identity_key) ≡ false) same (ground arith))

  requested-IsVouched :
      (key card : String) (parsed : ContactCard) (c : Client orp)
      → parse_card_text orp out card ≡ valid parsed
      → IsVouched c
      → IsVouched (on_card orp out key card parsed c)
  unfolding on_card
  requested-IsVouched key card parsed c good v =
      elim (Bool-cases (is_news orp out key parsed.identity_key c)) [
        | inr old ↦ rw (on_card, old) v
        | inl news ↦
            rw (on_card, news)
              (λ k req h.
                let (same, other) = news-is key parsed.identity_key c news in
                let req0 : ContactRequest = record {
                  contact_key = key;
                  card = card;
                  name = parsed.name;
                } in
                let at : (if key == k then some req0 else Dict.get k c.pending_cards) ≡ some req =
                  sym (get-set key k req0 c.pending_cards) ∙ h in
                elim (Bool-cases (key == k)) [
                  | inl this ↦
                      let is : req0 ≡ req = some-injective req0 req (
                        ap (λ b. if b then some req0 else Dict.get k c.pending_cards) (sym this)
                        ∙ at) in
                      subst (λ r. Vouched c k r) is
                        (subst (λ j. Vouched c j req0) (eq_of_test key k this)
                          (parsed, good, same, other))
                  | inr apart ↦ v k req (
                      ap (λ b. if b then some req0 else Dict.get k c.pending_cards) (sym apart)
                      ∙ at)
                ])
      ]

  happens-IsVouched :
      (e : ClientEvent) (c : Client orp) → IsVouched c → IsVouched (happens orp out e c)
  unfolding happens
  happens-IsVouched (called f) c v = Fewer-IsVouched c _ (call-Fewer orp out f c) v
  happens-IsVouched (received key input t) c v =
      handle-kept orp out IsVouched along-IsVouched
        (λ k a d. Fewer-IsVouched d _ (replaced-Fewer k a d)) requested-IsVouched key input t c v

  -- If every pending request has a card that verifies, that is of the key of the request and that is not
  -- the device's own, then so it is after any calls on the contacts and any texts that come in.
  pub run-IsVouched :
      (events : List ClientEvent) (c : Client orp) → IsVouched c → IsVouched (run orp out events c)
  unfolding run
  run-IsVouched [] c v = v
  run-IsVouched (e ∷ events) c v = run-IsVouched events _ (happens-IsVouched e c v)
