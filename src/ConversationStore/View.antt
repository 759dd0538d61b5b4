-- ===== src/ConversationStore/View.antt =====
-- The store as two functions, from identity keys to contacts and from message ids to messages.
use mathlib.Core.Option
use orpal.Base.{
  String, none, some, ◌==◌, ◌≡◌, refl, if◌then◌else◌, Option-cases, inl, inr, arith, eq_iff,
}
use orpal.Dict
use orpal.Dict.Laws.{get-set, get-delete}
use orpal.Contacts.{Contact}
use orpal.ConversationStore.{
  Store, StoredMessage, MessagePatch, assign_message, upsert_contact, get_contact, remove_contact,
  append_message, update_message, get_message, clear,
}

get-update_message :
    (id : String) (patch : MessagePatch) (s : Store) (j : String)
    → get_message j (update_message id patch s) ≡ (
        if id == j
        then Option.map (λ m. assign_message m patch) (get_message j s)
        else get_message j s)
unfolding get_message update_message
get-update_message id patch s j = elim (Option-cases (Dict.get id s.messages)) [
  | inl gone ↦ ground (arith, eq_iff id j)
  | inr (m, found) ↦ ground (arith, eq_iff id j, get-set id j (assign_message m patch) s.messages)
]

get_contact-update_message :
    (id : String) (patch : MessagePatch) (s : Store) (key : String)
    → get_contact key (update_message id patch s) ≡ get_contact key s
unfolding get_contact update_message
get_contact-update_message id patch s key = elim (Option-cases (Dict.get id s.messages)) [
  | inl gone ↦ rw (update_message, gone) refl
  | inr (m, found) ↦ rw (update_message, found) refl
]

-- What one operation does to every contact and to every message.
pub record Changes (c : Contact) (m : StoredMessage) (id : String) (patch : MessagePatch)
    (s : Store) (j : String) : Type 0 where
  pub upserted :
      get_contact j (upsert_contact c s) ≡ (if c.identity_key == j then some c else get_contact j s)
  pub removed : get_contact j (remove_contact id s) ≡ (if id == j then none else get_contact j s)
  pub appended :
      get_message j (append_message m s) ≡ (if m.id == j then some m else get_message j s)
  pub updated : get_message j (update_message id patch s) ≡ (
      if id == j
      then Option.map (λ k. assign_message k patch) (get_message j s)
      else get_message j s)
  pub messages_kept :
      (get_message j (upsert_contact c s) ≡ get_message j s)
      × (get_message j (remove_contact id s) ≡ get_message j s)
  pub contacts_kept :
      (get_contact j (append_message m s) ≡ get_contact j s)
      × (get_contact j (update_message id patch s) ≡ get_contact j s)
  pub cleared : (get_contact j (clear s) ≡ none) × (get_message j (clear s) ≡ none)

-- Each operation of the store changes what it names and nothing else: a contact or a message that is
-- put in is answered under its key, a removed contact is gone, a patch changes the message with its
-- id if there is one, the contacts and the messages do not touch one another, and nothing is left
-- after `clear`.
pub store_refines_view :
    (c : Contact) (m : StoredMessage) (id : String) (patch : MessagePatch) (s : Store) (j : String)
    → Changes c m id patch s j
unfolding get_contact get_message upsert_contact remove_contact append_message clear Dict.get
store_refines_view c m id patch s j = record {
  upserted = get-set c.identity_key j c s.contacts;
  removed = get-delete id j s.contacts;
  appended = get-set m.id j m s.messages;
  updated = get-update_message id patch s j;
  messages_kept = (refl, refl);
  contacts_kept = (refl, get_contact-update_message id patch s j);
  cleared = (refl, refl);
}
