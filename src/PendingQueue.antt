-- ===== src/PendingQueue.antt =====
-- packages/orpal-core/src/messaging/pending-queue.ts: the rows of the durable send queue, the
-- in-memory store over a `Map` keyed by message id, and the metrics snapshot of a listing. Times
-- and counts are natural numbers (epoch milliseconds). The store copies each row on its way in and
-- out, so that no caller holds an alias of a stored row.
pub mod Store
pub mod Metrics
mod Examples
use orpal.Base.{
  ℕ, ◌+◌, String, List, [], ◌∷◌, Option, none, some, ltb, length, if◌then◌else◌, Bool, true, false,
}
use orpal.Dict
use orpal.Dict.{Dict}

pub data PendingPayload : Type 0 where
  text : String → PendingPayload

pub record PendingMessage : Type 0 where
  pub recipient_id : String
  pub recipient_transport_key : String
  pub message_id : String
  pub timestamp : ℕ
  pub attempt_count : ℕ
  pub last_attempt_at : Option ℕ
  pub payload : PendingPayload

-- A field that the patch leaves out is `none`.
pub record PendingPatch : Type 0 where
  pub attempt_count : Option ℕ
  pub last_attempt_at : Option (Option ℕ)

abbrev pub Rows : Type 0
Rows = Dict PendingMessage

abbrev or_keep {ℓ} : {A : Type ℓ} → Option A → A → A
or_keep none old = old
or_keep (some new) old = new

-- `Object.assign(m, patch)`
unfoldable pub assign : PendingMessage → PendingPatch → PendingMessage
assign m patch = record m {
  attempt_count = or_keep patch.attempt_count m.attempt_count;
  last_attempt_at = or_keep patch.last_attempt_at m.last_attempt_at;
}

unfoldable pub enqueue : PendingMessage → Rows → Rows
enqueue msg rows = Dict.set msg.message_id msg rows

unfoldable pub update : String → PendingPatch → Rows → Rows
unfolding assign
update message_id patch rows = elim (Dict.get message_id rows) [
  | none ↦ rows
  | some m ↦ Dict.set message_id (assign m patch) rows
]

unfoldable pub remove : String → Rows → Rows
remove message_id rows = Dict.delete message_id rows

unfoldable pub get : String → Rows → Option PendingMessage
get message_id rows = Dict.get message_id rows

unfoldable pub list : Rows → List PendingMessage
list rows = Dict.values rows

unfoldable pub clear : Rows → Rows
clear rows = []

-- The counts by recipient are those of a plain object, which a `Dict` stands for as long as no recipient's
-- id is the name of a property that every object has, such as `constructor`; identity keys are not.
pub record PendingMetrics : Type 0 where
  pub total : ℕ
  pub oldest_pending_ts : Option ℕ
  pub last_attempt_at : Option ℕ
  pub total_attempts : ℕ
  pub max_attempts : ℕ
  pub by_recipient : Dict ℕ

-- `oldest === null || t < oldest`
abbrev older : Option ℕ → ℕ → Option ℕ
older none t = some t
older (some o) t = if ltb t o then some t else some o

-- `a !== null && (last === null || a > last)`
abbrev later : Option ℕ → Option ℕ → Option ℕ
later last none = last
later none (some a) = some a
later (some l) (some a) = if ltb l a then some a else some l

abbrev or_zero : Option ℕ → ℕ
or_zero none = 0
or_zero (some n) = n

-- One round of the loop over the rows.
observe : PendingMetrics → PendingMessage → PendingMetrics
observe acc m = record acc {
  oldest_pending_ts = older acc.oldest_pending_ts m.timestamp;
  last_attempt_at = later acc.last_attempt_at m.last_attempt_at;
  total_attempts = acc.total_attempts + m.attempt_count;
  max_attempts = if ltb acc.max_attempts m.attempt_count then m.attempt_count else acc.max_attempts;
  by_recipient =
      Dict.set m.recipient_id (or_zero (Dict.get m.recipient_id acc.by_recipient) + 1)
        acc.by_recipient;
}

observe_all : PendingMetrics → List PendingMessage → PendingMetrics
observe_all acc [] = acc
observe_all acc (m ∷ rows) = observe_all (observe acc m) rows

unfoldable pub compute_pending_metrics : List PendingMessage → PendingMetrics
unfolding observe observe_all
compute_pending_metrics rows =
    observe_all
      (record {
        total = length rows;
        oldest_pending_ts = none;
        last_attempt_at = none;
        total_attempts = 0;
        max_attempts = 0;
        by_recipient = [];
      })
      rows
