-- ===== src/PendingQueue/Examples.antt =====
-- Runs of the pending queue on concrete rows, and the theorems' hypotheses met by them.
use orpal.Base.{◌≡◌, refl, [], ◌∷◌, none, some, Memᴰ, ◌↔◌}
use orpal.Dict
use orpal.PendingQueue.{
  PendingMessage, PendingPatch, Rows, text, enqueue, update, remove, get, list, clear,
  compute_pending_metrics, assign, observe, observe_all,
}
use orpal.PendingQueue.Store.{
  empty, enqueued, updated, list-mem_iff, rows_refine_view, put, patched, without,
}
use orpal.PendingQueue.Metrics.{Describes, compute_pending_metrics-Describes}

abbrev hi : PendingMessage
hi = record {
  recipient_id = "bob";
  recipient_transport_key = "kb";
  message_id = "m1";
  timestamp = 50;
  attempt_count = 0;
  last_attempt_at = none;
  payload = text "hi";
}

abbrev lunch : PendingMessage
lunch = record hi { message_id = "m2"; timestamp = 20; payload = text "lunch?" }

abbrev tried : PendingPatch
tried = record { attempt_count = some 3; last_attempt_at = some (some 90) }

abbrev two_rows : Rows
two_rows = update "m2" tried (enqueue lunch (enqueue hi []))

abbrev tried_lunch : PendingMessage
tried_lunch = assign lunch tried

get-patched :
    get "m2" two_rows ≡ some (record lunch { attempt_count = 3; last_attempt_at = some 90 })
unfolding get update enqueue assign Dict.get Dict.set
get-patched = refl

enqueue-again : list (enqueue hi two_rows) ≡ hi ∷ tried_lunch ∷ []
unfolding list update enqueue assign Dict.get Dict.set
enqueue-again = refl

snapshot : compute_pending_metrics (list two_rows) ≡ record {
  total = 2;
  oldest_pending_ts = some 20;
  last_attempt_at = some 90;
  total_attempts = 3;
  max_attempts = 3;
  by_recipient = ("bob", 2) ∷ [];
}
unfolding list update enqueue assign Dict.get Dict.set compute_pending_metrics observe observe_all
snapshot = refl

list-mem_iff_example : Memᴰ tried_lunch (list two_rows) ↔ (get "m2" two_rows ≡ some tried_lunch)
unfolding assign
list-mem_iff_example =
    list-mem_iff two_rows tried_lunch (updated "m2" tried (enqueued lunch (enqueued hi empty)))

rows_refine_view_example :
    (get "m2" (enqueue hi two_rows) ≡ put hi (λ i. get i two_rows) "m2")
    × (get "m2" (update "m1" tried two_rows) ≡ patched "m1" tried (λ i. get i two_rows) "m2")
    × (get "m2" (remove "m1" two_rows) ≡ without "m1" (λ i. get i two_rows) "m2")
    × (get "m2" (clear two_rows) ≡ none)
rows_refine_view_example = rows_refine_view two_rows hi "m1" tried "m2"

compute_pending_metrics-Describes_example :
    Describes (hi ∷ tried_lunch ∷ []) (compute_pending_metrics (hi ∷ tried_lunch ∷ []))
    × ((compute_pending_metrics (hi ∷ tried_lunch ∷ [])).total ≡ 2)
compute_pending_metrics-Describes_example =
    compute_pending_metrics-Describes (hi ∷ tried_lunch ∷ [])
