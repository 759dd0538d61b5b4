-- ===== src/Client.antt =====
-- packages/orpal-core/src/messaging/orpal-client.ts: the client over its contact registry, conversation
-- store, send queue, connection manager and key migration. A method runs here from its start to its
-- end, as over in-memory stores it does unless another starts at one of its waits; what it sends, emits
-- or hands to the worker is recorded in `effects`, in order. The worker itself is DeliveryWorker.
pub mod Boards
pub mod Contacts
pub mod Messages
pub mod Sending
pub mod Migration
pub mod Incoming
pub mod Links
pub mod Untouched
pub mod Texts
pub mod Backup
pub mod Events
mod Examples
use orpal.Base.{ℕ, String, Bool, true, false, List, [], ◌∷◌, ◌++◌, Option, none, some}
use orpal.Dict.{Dict}
use orpal.Contacts.{Contact}
use orpal.ContactRegistry.{Registry}
use orpal.ConversationStore.{Store, StoredMessage}
use orpal.PendingQueue.{Rows, PendingMessage}
use orpal.ConnectionManager.{Manager}
use orpal.Frames.{AppFrame}
use orpal.Json.{Json}
use orpal.Keys.{Bytes, Orp}
use orpal.MigrationManager as Migrations
use orpal.MigrationManager.{MigrationProgress, PendingMigration}

pub data BrokerState : Type 0 where
  connecting open_state closed_state error_state : BrokerState

-- A board's broker client is known by the board's id; the push token is that of its options.
pub record BoardEntry : Type 0 where
  pub id : String
  pub state : BrokerState
  pub push_token : Option String

-- A card that an unknown sender has handed over.
pub record ContactRequest : Type 0 where
  pub contact_key : String
  pub card : String
  pub name : Option String

-- What a method sends or emits. A frame goes out over a channel, sealed to a key or not.
pub data Effect : Type 0 where
  message_stored : StoredMessage → Effect
  message_updated : (id : String) → StoredMessage → Effect
  broker_changed : BrokerState → (detail : Option String) → Effect
  contact_requested : ContactRequest → Effect
  migration_progressed : Option MigrationProgress → Effect
  migration_arrived : PendingMigration → Effect
  failed : (context : String) → Effect
  frame_sent : (channel : ℕ) → AppFrame → Effect
  presence_announced : (board_id : String) (push_token : Option String) → Effect
  intent_sent : (board_id contact_key : String) → Effect
  file_frame : (contact_key : String) → AppFrame → Effect
  all_flushed : Effect
  recipient_flushed : (contact_key : String) → Effect

-- What the client is given: `verifyBinding` of the ORP library, `JSON.parse`, and the bytes of the text of a
-- JSON value with their reading, as in Sealed.
pub record Outside : Type 0 where
  pub verify_binding : Json → Bool
  pub parse_json : String → Option Json
  pub to_bytes : Json → Bytes
  pub of_bytes : Bytes → Option Json

module _ (orp : Orp) where
  open orp use {Identity}

  pub record Client : Type 0 where
    pub identity : Identity
    pub identity_key : String
    pub store : Store
    pub contacts : Registry
    -- The send queue and whether there is a worker over it.
    pub queue : Option Rows
    pub has_worker : Bool
    pub conns : Manager
    pub blocked_keys : List String
    pub pending_cards : Dict ContactRequest
    pub boards : List BoardEntry
    pub broker_state : BrokerState
    pub started : Bool
    pub push_token : Option String
    pub migration : Option (Migrations.Manager Identity)
    pub effects : List Effect

  abbrev pub emit : Effect → Client → Client
  emit e c = record c { effects = c.effects ++ (e ∷ []) }
