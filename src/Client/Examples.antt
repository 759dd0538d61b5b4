-- ===== src/Client/Examples.antt =====
-- A client over a toy library, with one board and one contact, that meets a stranger.
use orpal.Client.Backup.Merge.{restore-merge, IsKeptOrBound}
use orpal.Client.Backup.{merge, restore_backup, BackupPayload}
use orpal.ConnectionManager.{get_connection}
use orpal.MigrationManager.Incoming.{accept_incoming_migration}
use orpal.Client.Migration.{migration_progress, accept_migration}
use orpal.Base.{
  length, ◌<◌, String, Bool, true, false, List, [], ◌∷◌, ◌++◌, none, some, Option, ◌==◌,
  if◌then◌else◌, ◌≡◌, refl, ◌⊎◌, ◌&&◌, All,
}
use orpal.Base.KeySet.{contains}
use orpal.Dict
use orpal.Contacts.{parse_contact_card, check_fields, check_binding}
use orpal.Frames.Decode.{decode_app_frame, decode_kind, decode_hello}
use orpal.Frames.{encode_fields}
use orpal.Client.Contacts.Calls.{call}
use orpal.Client.Incoming.{process_outer, on_hello, on_card, is_news}
use orpal.Json.{lookup}
use orpal.Client.Contacts.{keys_of, set_of, Added, is_blocked, parse_card_text, set_contact_boards}
use orpal.Client.Events.{happens}
use orpal.Json.{Json, text, object, field, end}
use orpal.Contacts.{Contact, ContactCard, serialize_card}
use orpal.ContactRegistry
use orpal.ContactRegistry.{record_of}
use orpal.ConversationStore.{
  delivered, text_message, incoming, list_contacts, append_message, update_message, get_message,
  queued, acknowledged, get_contact,
}
use orpal.PendingQueue
use mathlib.Core.Option.{none-ne-some}
use orpal.Frames.{encode_fields, ChallengeResponseFrame, TextFrame, migration_challenge_response}
use orpal.Frames.Decode.{decode_kind, decode_hello, decode_app_frame}
use orpal.Contacts.{parse_contact_card, check_fields, check_binding}
use orpal.MigrationManager.{progress, new_manager}
use orpal.PendingQueue.{Rows}
use orpal.Frames.{hello, text_frame, awk, encode_app_frame}
use orpal.Keys.{Bytes}
use orpal.Keys.Toy.{migration_of, toy}
use orpal.Client.{
  Outside, migration_progressed, StoredMessage, Client, BoardEntry, ContactRequest, open_state,
  closed_state,
}
use orpal.Client.Boards.{board_choice}
use orpal.Client.Boards.Choice.{board_choice_lem, is_loaded, ids_of, IsDistinct, Found}
use orpal.Client.Contacts.{accept_contact_request}
use orpal.Client.Contacts.Calls.{set_relay_only, accept_request, set_boards}
use orpal.Client.Incoming.{on_verdict, Moment, process_frame, handle_incoming_frame}
use orpal.Client.Messages.{
  send_if_connected, mark_message, acknowledge, enqueue, store_message, send_awk, outgoing_text,
}
use orpal.Client.Sending.{send_text, pending_text}
use orpal.Client.Events.{ClientEvent, called, received, run}
use orpal.Client.Events.Mirrored.{Mirrors, run-Mirrors}
use orpal.Client.Events.Accepted.{IsAccepted, run-IsAccepted}
use orpal.Client.Untouched.{SameContacts}
use orpal.Client.Untouched.Handled.{handle-SameContacts}
use orpal.Client.Texts.{text_again, send_then_awk}

abbrev home : BoardEntry
home = record { id = "home"; state = open_state; push_token = none }

abbrev work : BoardEntry
work = record { id = "work"; state = closed_state; push_token = none }

abbrev routes : ContactRegistry.Boards
routes = record { preferred = "work" ∷ "gone" ∷ []; fallback = "work" ∷ [] }

board_choice_lem_example :
    ((routes.preferred ≡ [])
      × (routes.fallback ≡ [])
      × (board_choice routes (home ∷ work ∷ []) ≡ home ∷ work ∷ []))
    ⊎ ((0 < length (routes.preferred ++ routes.fallback))
        × ((id : String)
            → contains id (ids_of (board_choice routes (home ∷ work ∷ []))) ≡ (
                contains id (routes.preferred ++ routes.fallback)
                && is_loaded id (home ∷ work ∷ [])))
        × IsDistinct (ids_of (board_choice routes (home ∷ work ∷ [])))
        × All (Found (home ∷ work ∷ [])) (board_choice routes (home ∷ work ∷ [])))
board_choice_lem_example = board_choice_lem routes (home ∷ work ∷ [])

-- Stands for the library's check of a binding: its text is the identity key.
abbrev binds : Json → Bool
binds (text s) = true
binds _ = true

abbrev carol_card : ContactCard
carol_card = record {
  identity_key = "carol";
  transport_key = "kc";
  binding = object (field "identity_key" (text "carol") (field "transport_key" (text "kc") end));
  name = some "Carol";
}

-- Stands for `JSON.parse`, on the texts of the run.
abbrev parse : String → Option Json
parse s =
    if s == "card"
    then some (serialize_card carol_card)
    else if s == "hello"
    then some (encode_app_frame (hello "card"))
    else none

abbrev to_bytes : Json → Bytes
to_bytes j = []

abbrev of_bytes : Bytes → Option Json
of_bytes b = none

abbrev outside : Outside
outside = record {
  verify_binding = binds;
  parse_json = parse;
  to_bytes = to_bytes;
  of_bytes = of_bytes;
}

abbrev bob : Contact
bob = record {
  identity_key = "bob";
  transport_key = "kb";
  binding = text "bob";
  display_name = "Bob";
  relay_only = false;
  preferred_boards = none;
  fallback_boards = none;
  auto_accept_migration = none;
  added_utc = "2025-01-01";
  is_loopback = none;
}

abbrev device : Client toy
device = record {
  identity = 3;
  identity_key = "me";
  store = record { contacts = ("bob", bob) ∷ []; messages = [] };
  contacts = ("bob", record_of bob) ∷ [];
  queue = some [];
  has_worker = true;
  conns = record {
    connections = [];
    match_to_counterparty = [];
    endpoints_by_match = [];
    connect_waiters = [];
    pending_connects = [];
    desired_contacts = [];
    timers = [];
    next_promise = 0;
    events = [];
  };
  blocked_keys = [];
  pending_cards = [];
  boards = home ∷ [];
  broker_state = open_state;
  started = true;
  push_token = none;
  migration = none;
  effects = [];
}

abbrev moment : Moment
moment = record {
  now = 5;
  now_utc = "now";
  drawn = record {
    old_nonce = 1 ∷ [];
    new_nonce = 2 ∷ [];
    old_ack_priv = 10 ∷ [];
    old_ack_pub = 10 ∷ [];
    new_ack_priv = 11 ∷ [];
    new_ack_pub = 11 ∷ [];
    old_box = [];
    new_box = [];
  };
  box = [];
}

abbrev met : List ClientEvent
met = received "carol" "hello" moment ∷ called (set_boards "bob" (some ("home" ∷ [])) none) ∷ []

abbrev asks : ContactRequest
asks = record { contact_key = "carol"; card = "card"; name = some "Carol" }

asked : Dict.get "carol" ((run toy outside met device).pending_cards) ≡ some asks
unfolding run happens handle_incoming_frame is_blocked contains decode_app_frame decode_kind
    decode_hello encode_app_frame encode_fields lookup process_outer process_frame on_hello
    parse_card_text parse_contact_card serialize_card check_fields check_binding on_card is_news
    Dict.get Dict.has Dict.set call set_contact_boards get_contact orpal.ContactRegistry.patch
asked = refl

abbrev answered : Added × Client toy
answered = accept_contact_request toy outside "carol" none "now" (run toy outside met device)

run-IsAccepted_example : IsAccepted toy outside "carol" (answered.0) (answered.1)
run-IsAccepted_example = run-IsAccepted toy outside met device "carol" asks none "now" refl asked

-- The device before it has a contact.
abbrev bare : Client toy
bare = record device { store = record { contacts = []; messages = [] }; contacts = [] }

bare-Mirrors : Mirrors toy outside bare
unfolding ContactRegistry.get get_contact Dict.get
bare-Mirrors = record {
  mirrors = λ key. refl;
  keyed = λ key contact h. absurd (none-ne-some contact h);
}

abbrev accepts : List ClientEvent
accepts =
    received "carol" "hello" moment
    ∷ called (accept_request "carol" none "now")
    ∷ called (set_relay_only "carol" true)
    ∷ []

run-Mirrors_example : Mirrors toy outside (run toy outside accepts bare)
run-Mirrors_example = run-Mirrors toy outside accepts bare bare-Mirrors

handle-SameContacts_example :
    SameContacts toy device (handle_incoming_frame toy outside "carol" "hello" moment device)
    ⊎ ((value : Json) × (r : ChallengeResponseFrame) × (parse "hello" ≡ some value)
        × (decode_app_frame value ≡ some (migration_challenge_response r)))
handle-SameContacts_example = handle-SameContacts toy outside "carol" "hello" moment device

abbrev greeting : TextFrame
greeting = record { id = "m1"; body = "hi"; ts = 7 }

abbrev greeting_row : StoredMessage
greeting_row = record {
  id = "m1";
  contact_key = "bob";
  direction = incoming;
  kind = text_message;
  ts = 7;
  body = some "hi";
  file = none;
  state = delivered;
}

abbrev greeted : Client toy
greeted = process_frame toy outside "bob" (text_frame greeting) moment device

text_again_example :
    ((get_message "m1" device.store ≡ none
        × (greeted.store ≡ append_message greeting_row device.store)
        × (get_message "m1" greeted.store ≡ some greeting_row))
      ⊎ ((m : StoredMessage) × (get_message "m1" device.store ≡ some m)
          × (greeted.store ≡ device.store)))
    × (process_frame toy outside "carol" (text_frame greeting) moment greeted
        ≡ send_awk toy "carol" "m1" 5 greeted)
    × ((process_frame toy outside "carol" (text_frame greeting) moment greeted).store
        ≡ greeted.store)
text_again_example = text_again toy outside "bob" "carol" greeting moment moment device

abbrev sent : Client toy
sent = (send_text toy outside "bob" "hi" "m2" 8 [] device).1

abbrev queued_rows : Rows
queued_rows = PendingQueue.enqueue (pending_text toy outside "bob" "kb" "m2" "hi" 8) []

abbrev done : Client toy
done = process_frame toy outside "bob" (awk (record { id = "m2"; ts = 8 })) moment sent

send_then_awk_example :
    (sent.queue ≡ some queued_rows)
    × (get_message "m2" sent.store ≡ some (outgoing_text "bob" "m2" "hi" 8 queued))
    × (done.queue ≡ some (PendingQueue.remove "m2" queued_rows))
    × (PendingQueue.get "m2" (PendingQueue.remove "m2" queued_rows) ≡ none)
    × (get_message "m2" done.store ≡ some (outgoing_text "bob" "m2" "hi" 8 acknowledged))
unfolding ContactRegistry.transport_key Dict.get
send_then_awk_example =
    send_then_awk toy outside "bob" "hi" "m2" "kb" 8 [] [] moment device refl refl refl refl

-- A peer that the text is not for acknowledges it all the same.
by_stranger :
    (process_frame toy outside "mallory" (awk (record { id = "m2"; ts = 8 })) moment sent).queue
    ≡ some []
unfolding process_frame send_text ContactRegistry.transport_key Dict.get store_message enqueue
    acknowledge PendingQueue.get PendingQueue.enqueue Dict.set mark_message get_message
    update_message append_message PendingQueue.remove Dict.delete
by_stranger = refl

-- A contact's migration that is accepted without the user is told without any progress.
told :
    (on_verdict toy outside "bob" moment true (record device {
      migration = some (record (new_manager toy none none none) {
        pending_incoming =
            record {
              contact_key = "bob";
              contact_name = "Bob";
              migration = migration_of "bob" "bob2";
            }
            ∷ [];
      });
    })).effects
    ≡ migration_progressed none ∷ []
unfolding on_verdict accept_migration accept_incoming_migration send_if_connected get_connection
    Dict.get get_contact migration_progress progress new_manager
told = refl

-- Bob with another key, which is not taken, as Bob is there already.
abbrev backup : BackupPayload
backup = record {
  contacts = record bob { transport_key = "km" } ∷ [];
  messages = (outgoing_text "bob" "m9" "hi" 9 queued ∷ []) ∷ [];
  pending = [];
  blocked_keys = "mallory" ∷ [];
  migration_state = none;
  identity = record { signing_priv = "s"; transport_priv = "t"; created_utc = "now" };
}

abbrev merged : Client toy
merged = (restore_backup toy outside merge false backup device).1

restore-merge_example :
    ((key : String)
      → contains key (set_of (keys_of (list_contacts device.store))) ≡ true
      → get_contact key merged.store ≡ get_contact key device.store)
    × IsKeptOrBound toy outside device.store merged.store
    × ((id : String) (m : StoredMessage)
        → get_message id device.store ≡ some m
        → get_message id merged.store ≡ some m)
restore-merge_example = restore-merge toy outside false backup device
