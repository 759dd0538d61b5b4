-- ===== src/Client/Events/Calls.antt =====
-- The requests of unknown senders through a call on the contacts.
use orpal.ConnectionManager.{drop_connection}
use orpal.Base.{
  String, Bool, true, false, List, [], ◌∷◌, Option, none, some, ◌==◌, if◌then◌else◌, ◌≡◌, refl, ◌∙◌,
  sym, ap, inl, inr, Bool-cases, Option-cases, arith,
}
use orpal.Dict
use orpal.Dict.Laws.{get-delete}
use orpal.Contacts.{Contact, ContactCard, CardOptions}
use orpal.Keys.{Orp}
use orpal.ConversationStore.{get_contact, list_contacts}
use orpal.Client.{Outside, Client, ContactRequest}
use orpal.Client.Contacts.{
  Added, refused, added, AddOptions, parse_card_text, register_contact, register_all, add_card,
  add_contact_from_card, import_bundle, ensure_loopback_contact, find_loopback,
  make_loopback_contact, forget_contact, set_contact_boards, set_contact_relay_only,
  set_auto_accept_migration, set_contact_display_name, trim, enforce_blocks, set_blocked_keys,
  settle_request, accept_contact_request, dismiss_contact_request, set_of,
}
use orpal.Client.Contacts.Calls.{
  ContactCall, add_contact, import_all, add_loopback, forget, set_boards, set_relay_only,
  set_auto_accept, set_display_name, block, accept_request, dismiss_request, call,
}
use orpal.Client.Untouched.Handled.{ParsedCard-cases}

module _ (orp : Orp) (out : Outside) where
  -- No new request, and the same device.
  pub record Fewer (c d : Client orp) : Type 0 where
    pub fewer :
        (key : String) (req : ContactRequest)
        → Dict.get key d.pending_cards ≡ some req
        → Dict.get key c.pending_cards ≡ some req
    pub own : d.identity_key ≡ c.identity_key

  Fewer-trans : {c d e : Client orp} → Fewer c d → Fewer d e → Fewer c e
  Fewer-trans s t = record {
    fewer = λ key req h. s.fewer key req (t.fewer key req h);
    own = t.own ∙ s.own;
  }

  pub Fewer-of :
      {c d : Client orp}
      → d.pending_cards ≡ c.pending_cards
      → d.identity_key ≡ c.identity_key
      → Fewer c d
  Fewer-of pending own = record {
    fewer = λ key req h. sym (ap (Dict.get key) pending) ∙ h;
    own = own;
  }

  Fewer-delete :
      (gone : String) (c d : Client orp)
      → d.pending_cards ≡ Dict.delete gone c.pending_cards
      → d.identity_key ≡ c.identity_key
      → Fewer c d
  Fewer-delete gone c d pending own = record {
    fewer = λ key req h.
        ground (arith, h, ap (Dict.get key) pending, get-delete gone key c.pending_cards);
    own = own;
  }

  Fewer-if : {c d e : Client orp} (b : Bool) → Fewer c d → Fewer c e → Fewer c (if b then d else e)
  Fewer-if true s t = s
  Fewer-if false s t = t

  alike : (c : Client orp) → Fewer c c
  alike c = Fewer-of refl refl

  register_all-Fewer :
      (contacts : List Contact) (c : Client orp) → Fewer c (register_all orp out contacts c)
  unfolding register_all register_contact
  register_all-Fewer [] c = alike c
  register_all-Fewer (contact ∷ contacts) c =
      Fewer-trans {d = register_contact orp out contact c} (Fewer-of refl refl)
        (register_all-Fewer contacts _)

  add_card-Fewer :
      (card : ContactCard) (opts : CardOptions) (c : Client orp)
      → Fewer c ((add_card orp out card opts c).1)
  unfolding add_card register_contact
  add_card-Fewer card opts c = elim (Bool-cases (card.identity_key == c.identity_key)) [
    | inl own ↦ rw (add_card, own) (alike c)
    | inr other ↦ rw (add_card, other) (Fewer-of refl refl)
  ]

  add_contact-Fewer :
      (input : String) (opts : AddOptions) (now : String) (c : Client orp)
      → Fewer c ((add_contact_from_card orp out input opts now c).1)
  unfolding add_contact_from_card
  add_contact-Fewer input opts now c = elim (ParsedCard-cases (parse_card_text orp out input)) [
    | inl (reason, bad) ↦ rw (add_contact_from_card, bad) (alike c)
    | inr (card, good) ↦ rw (add_contact_from_card, good) (add_card-Fewer card _ c)
  ]

  loopback-Fewer :
      (own : ContactCard) (name : Option String) (now : String) (c : Client orp)
      → Fewer c ((ensure_loopback_contact orp out own name now c).1)
  unfolding ensure_loopback_contact register_contact
  loopback-Fewer own name now c = elim (Option-cases (find_loopback (list_contacts c.store))) [
    | inl missing ↦ elim (Option-cases (make_loopback_contact orp out own name now)) [
      | inl bad ↦ rw (ensure_loopback_contact, missing, bad) (alike c)
      | inr (contact, made) ↦ rw (ensure_loopback_contact, missing, made) (Fewer-of refl refl)
    ]
    | inr (contact, found) ↦ rw (ensure_loopback_contact, found) (alike c)
  ]

  boards-Fewer :
      (key : String) (preferred fallback : Option (List String)) (c : Client orp)
      → Fewer c (set_contact_boards orp out key preferred fallback c)
  unfolding set_contact_boards
  boards-Fewer key preferred fallback c = elim (Option-cases (get_contact key c.store)) [
    | inl missing ↦ rw (set_contact_boards, missing) (alike c)
    | inr (contact, found) ↦ rw (set_contact_boards, found) (Fewer-of refl refl)
  ]

  relay_only-Fewer :
      (key : String) (b : Bool) (c : Client orp) → Fewer c (set_contact_relay_only orp out key b c)
  unfolding set_contact_relay_only
  relay_only-Fewer key b c = elim (Option-cases (get_contact key c.store)) [
    | inl missing ↦ rw (set_contact_relay_only, missing) (alike c)
    | inr (contact, found) ↦ rw (set_contact_relay_only, found) (Fewer-of refl refl)
  ]

  auto_accept-Fewer :
      (key : String) (b : Bool) (c : Client orp)
      → Fewer c (set_auto_accept_migration orp out key b c)
  unfolding set_auto_accept_migration
  auto_accept-Fewer key b c = elim (Option-cases (get_contact key c.store)) [
    | inl missing ↦ rw (set_auto_accept_migration, missing) (alike c)
    | inr (contact, found) ↦ rw (set_auto_accept_migration, found) (Fewer-of refl refl)
  ]

  display_name-Fewer :
      (key name : String) (c : Client orp) → Fewer c (set_contact_display_name orp out key name c)
  unfolding set_contact_display_name
  display_name-Fewer key name c = elim (Option-cases (get_contact key c.store)) [
    | inl missing ↦ rw (set_contact_display_name, missing) (alike c)
    | inr (contact, found) ↦
        rw (set_contact_display_name, found)
          (Fewer-if (trim name == "") (alike c) (Fewer-of refl refl))
  ]

  blocks-Fewer : (keys : List String) (c : Client orp) → Fewer c (enforce_blocks orp out keys c)
  unfolding enforce_blocks
  blocks-Fewer [] c = alike c
  blocks-Fewer (key ∷ keys) c =
      let next : Client orp = record c {
        conns = drop_connection key c.conns;
        pending_cards = Dict.delete key c.pending_cards;
      } in
      Fewer-trans {d = next} (Fewer-delete key c next refl refl) (blocks-Fewer keys next)

  set_blocked-Fewer :
      (keys : List String) (c : Client orp) → Fewer c (set_blocked_keys orp out keys c)
  unfolding set_blocked_keys
  set_blocked-Fewer keys c =
      Fewer-trans {d = record c { blocked_keys = set_of keys }} (Fewer-of refl refl)
        (blocks-Fewer (set_of keys) _)

  settle-Fewer :
      (key : String) (a : Added × Client orp) → Fewer (a.1) ((settle_request orp out key a).1)
  unfolding settle_request
  settle-Fewer key (refused reason, c) = alike c
  settle-Fewer key (added contact, c) =
      Fewer-delete key c (record c { pending_cards = Dict.delete key c.pending_cards }) refl refl

  accept_request-Fewer :
      (key : String) (name : Option String) (now : String) (c : Client orp)
      → Fewer c ((accept_contact_request orp out key name now c).1)
  unfolding accept_contact_request
  accept_request-Fewer key name now c = elim (Option-cases (Dict.get key c.pending_cards)) [
    | inl missing ↦ rw (accept_contact_request, missing) (alike c)
    | inr (req, found) ↦
        let a : Added × Client orp =
          add_contact_from_card orp out req.card (record { display_name = name; relay_only = none })
            now c in
        rw (accept_contact_request, found)
          (Fewer-trans {d = a.1} (add_contact-Fewer req.card _ now c) (settle-Fewer key a))
  ]

  pub call-Fewer : (f : ContactCall) (c : Client orp) → Fewer c (call orp out f c)
  unfolding call import_bundle forget_contact dismiss_contact_request
  call-Fewer (add_contact input opts now) c = add_contact-Fewer input opts now c
  call-Fewer (import_all bundle collision now) c =
      register_all-Fewer ((import_bundle orp out bundle collision now c).0.contacts) c
  call-Fewer (add_loopback own name now) c = loopback-Fewer own name now c
  call-Fewer (forget key) c = Fewer-of refl refl
  call-Fewer (set_boards key preferred fallback) c = boards-Fewer key preferred fallback c
  call-Fewer (set_relay_only key b) c = relay_only-Fewer key b c
  call-Fewer (set_auto_accept key b) c = auto_accept-Fewer key b c
  call-Fewer (set_display_name key name) c = display_name-Fewer key name c
  call-Fewer (block keys) c = set_blocked-Fewer keys c
  call-Fewer (accept_request key name now) c = accept_request-Fewer key name now c
  call-Fewer (dismiss_request key) c =
      Fewer-delete key c (record c { pending_cards = Dict.delete key c.pending_cards }) refl refl
