-- ===== src/Client/Events/Accepted.antt =====
-- A request that the user accepts.
use mathlib.Core.Option.{none-ne-some}
use orpal.Base.{
  subst, String, false, List, [], Option, none, some, ◌==◌, ◌≡◌, refl, ◌∙◌, sym, ap, arith, eq_refl,
}
use orpal.Dict
use orpal.Dict.Laws.{get-set, get-delete}
use orpal.Contacts.{Contact, ContactCard, CardOptions, valid, contact_from_card}
use orpal.Keys.{Orp}
use orpal.ConversationStore.{get_contact, upsert_contact}
use orpal.Client.{Outside, Client, ContactRequest}
use orpal.Client.Contacts.{
  Added, added, card_options, parse_card_text, register_contact, add_card, add_contact_from_card,
  settle_request, accept_contact_request,
}
use orpal.Client.Events.{ClientEvent, run}
use orpal.Client.Events.Requests.{IsVouched, run-IsVouched}

module _ (orp : Orp) (out : Outside) where
  abbrev request_options : (name : Option String) (now : String) → CardOptions
  request_options name now = card_options (record { display_name = name; relay_only = none }) now

  no_requests : (c : Client orp) → c.pending_cards ≡ [] → IsVouched orp out c
  unfolding Dict.get
  no_requests c fresh key req found =
      elim (none-ne-some req (sym (ap (Dict.get key) fresh) ∙ found)) [ ]

  accept_request-eq :
      (key : String) (req : ContactRequest) (name : Option String) (now : String)
      (card : ContactCard) (c : Client orp)
      → Dict.get key c.pending_cards ≡ some req
      → parse_card_text orp out req.card ≡ valid card
      → (card.identity_key == c.identity_key) ≡ false
      → accept_contact_request orp out key name now c
        ≡ settle_request orp out key (
          added (contact_from_card card (request_options name now)),
          register_contact orp out (contact_from_card card (request_options name now)) c,
        )
  unfolding accept_contact_request settle_request
  accept_request-eq key req name now card c found good other =
      rw (accept_contact_request, found, add_contact_from_card, good, add_card, other) refl

  -- The request is accepted: its sender is a contact of the store, and the request is gone.
  abbrev pub IsAccepted : String → Added → Client orp → Type 0
  IsAccepted key a d =
      (contact : Contact) × (a ≡ added contact)
      × (contact.identity_key ≡ key)
      × (get_contact key d.store ≡ some contact)
      × (Dict.get key d.pending_cards ≡ none)

  settled-IsAccepted :
      (key : String) (contact : Contact) (c : Client orp)
      → contact.identity_key ≡ key
      → let done = settle_request orp out key (added contact, register_contact orp out contact c) in
        IsAccepted key (done.0) (done.1)
  unfolding settle_request register_contact get_contact upsert_contact
  settled-IsAccepted key contact c is = (
    contact,
    refl,
    is,
    ground (arith, get-set contact.identity_key key contact c.store.contacts, is, eq_refl key),
    ground (arith, get-delete key key c.pending_cards, eq_refl key),
  )

  -- A client without requests goes through any calls on the contacts and any texts that come in. Then each
  -- request that is pending can be accepted, and it adds the contact whose key is the sender's, under that
  -- key; the request is gone.
  pub run-IsAccepted :
      (events : List ClientEvent) (c : Client orp) (key : String) (req : ContactRequest)
      (name : Option String) (now : String)
      → c.pending_cards ≡ []
      → Dict.get key ((run orp out events c).pending_cards) ≡ some req
      → let done = accept_contact_request orp out key name now (run orp out events c) in
        IsAccepted key (done.0) (done.1)
  unfolding contact_from_card
  run-IsAccepted events c key req name now fresh found =
      let d : Client orp = run orp out events c in
      let (card, good, is, other) =
        run-IsVouched orp out events c (no_requests c fresh) key req found in
      rw
        (accept_request-eq key req name now card d found good
          (subst (λ k. (k == d.identity_key) ≡ false) (sym is) other))
        (settled-IsAccepted key (contact_from_card card (request_options name now)) d is)
