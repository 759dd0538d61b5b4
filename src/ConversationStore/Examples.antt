-- ===== src/ConversationStore/Examples.antt =====
-- A conversation of three messages.
use orpal.Base.{false, [], ◌∷◌, none, some, ◌≡◌, refl, keep}
use orpal.Dict
use orpal.Contacts.{Contact}
use orpal.Json.{null}
use orpal.ConversationStore.{
  StoredMessage, Store, ListMessagesOptions, MessagePatch, text_message, outgoing, sending,
  acknowledged, empty_store, append_message, list_messages, older_than, at_most, newest_first,
  insert_newest,
}
use orpal.ConversationStore.Newest.{IsListing, list_messages-IsListing}
use orpal.ConversationStore.View.{Changes, store_refines_view}

abbrev hello : StoredMessage
hello = record {
  id = "m1";
  contact_key = "bob";
  direction = outgoing;
  kind = text_message;
  ts = 10;
  body = some "hello";
  file = none;
  state = sending;
}

abbrev later : StoredMessage
later = record hello { id = "m2"; ts = 30 }

abbrev elsewhere : StoredMessage
elsewhere = record hello { id = "m3"; contact_key = "carol"; ts = 20 }

abbrev conversation : Store
conversation = append_message later (append_message elsewhere (append_message hello empty_store))

abbrev last_one : ListMessagesOptions
last_one = record { limit = some 1; before = none }

newest : list_messages "bob" last_one conversation ≡ later ∷ []
unfolding list_messages append_message older_than at_most newest_first insert_newest Dict.set keep
newest = refl

list_messages-IsListing_example :
    IsListing "bob" last_one conversation (list_messages "bob" last_one conversation)
list_messages-IsListing_example = list_messages-IsListing "bob" last_one conversation

abbrev bob : Contact
bob = record {
  identity_key = "bob";
  transport_key = "kb";
  binding = null;
  display_name = "Bob";
  relay_only = false;
  preferred_boards = none;
  fallback_boards = none;
  auto_accept_migration = none;
  added_utc = "2025-01-01";
  is_loopback = none;
}

abbrev awked : MessagePatch
awked = record { state = some acknowledged; body = none; file = none }

store_refines_view_example : Changes bob later "m1" awked conversation "m1"
store_refines_view_example = store_refines_view bob later "m1" awked conversation "m1"
