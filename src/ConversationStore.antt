-- ===== src/ConversationStore.antt =====
-- packages/orpal-core/src/persistence/conversation-store.ts: the records of a conversation, and the in-memory
-- store of contacts and messages. The store copies each message on its way in and out.
pub mod Listing
pub mod Newest
pub mod View
mod Examples
use orpal.Base.{
  ℕ, String, Bool, List, [], ◌∷◌, Option, none, some, ◌==◌, ltb, leb, if◌then◌else◌, keep, take,
}
use orpal.Dict
use orpal.Dict.{Dict}
use orpal.Contacts.{Contact}

pub data OutboundState : Type 0 where
  queued sending delivered acknowledged failed : OutboundState

pub data TransferState : Type 0 where
  offered transferring complete failed_transfer integrity_failed : TransferState

pub data MessageKind : Type 0 where
  text_message file_message : MessageKind

pub data Direction : Type 0 where
  outgoing incoming : Direction

pub record FileMeta : Type 0 where
  pub file_id : String
  pub name : String
  pub size : ℕ
  pub mime : String
  pub sha256 : String
  pub chunk_size : ℕ
  pub chunks : ℕ
  pub path : Option String
  pub state : TransferState
  pub transferred : ℕ

pub record StoredMessage : Type 0 where
  pub id : String
  pub contact_key : String
  pub direction : Direction
  pub kind : MessageKind
  pub ts : ℕ
  pub body : Option String
  pub file : Option FileMeta
  pub state : OutboundState

pub record ListMessagesOptions : Type 0 where
  pub limit : Option ℕ
  pub before : Option ℕ

-- A field that the patch leaves out is `none`.
pub record MessagePatch : Type 0 where
  pub state : Option OutboundState
  pub body : Option (Option String)
  pub file : Option (Option FileMeta)

pub record Store : Type 0 where
  pub contacts : Dict Contact
  pub messages : Dict StoredMessage

abbrev pub empty_store : Store
empty_store = record { contacts = []; messages = [] }

unfoldable pub upsert_contact : Contact → Store → Store
upsert_contact c s = record s { contacts = Dict.set c.identity_key c s.contacts }

unfoldable pub list_contacts : Store → List Contact
list_contacts s = Dict.values s.contacts

unfoldable pub get_contact : String → Store → Option Contact
get_contact key s = Dict.get key s.contacts

unfoldable pub remove_contact : String → Store → Store
remove_contact key s = record s { contacts = Dict.delete key s.contacts }

unfoldable pub append_message : StoredMessage → Store → Store
append_message m s = record s { messages = Dict.set m.id m s.messages }

abbrev or_keep {ℓ} : {A : Type ℓ} → Option A → A → A
or_keep none old = old
or_keep (some new) old = new

abbrev pub assign_message : StoredMessage → MessagePatch → StoredMessage
assign_message m patch = record m {
  state = or_keep patch.state m.state;
  body = or_keep patch.body m.body;
  file = or_keep patch.file m.file;
}

unfoldable pub update_message : String → MessagePatch → Store → Store
update_message id patch s = elim (Dict.get id s.messages) [
  | none ↦ s
  | some m ↦ record s { messages = Dict.set id (assign_message m patch) s.messages }
]

unfoldable pub get_message : String → Store → Option StoredMessage
get_message id s = Dict.get id s.messages

-- `rows.sort((a, b) => b.ts - a.ts)`, which is stable.
unfoldable pub insert_newest : StoredMessage → List StoredMessage → List StoredMessage
insert_newest m [] = m ∷ []
insert_newest m (n ∷ rows) = if leb n.ts m.ts then m ∷ n ∷ rows else n ∷ insert_newest m rows

unfoldable pub newest_first : List StoredMessage → List StoredMessage
newest_first [] = []
newest_first (m ∷ rows) = insert_newest m (newest_first rows)

unfoldable pub older_than : Option ℕ → List StoredMessage → List StoredMessage
older_than none rows = rows
older_than (some t) rows = keep (λ m. ltb m.ts t) rows

unfoldable pub at_most : Option ℕ → List StoredMessage → List StoredMessage
at_most none rows = rows
at_most (some n) rows = take n rows

unfoldable pub list_messages : String → ListMessagesOptions → Store → List StoredMessage
list_messages key opts s = at_most opts.limit (
    newest_first
      (older_than opts.before (keep (λ m. m.contact_key == key) (Dict.values s.messages))))

unfoldable pub list_all_messages : Store → List StoredMessage
list_all_messages s = Dict.values s.messages

unfoldable pub clear : Store → Store
clear s = empty_store
