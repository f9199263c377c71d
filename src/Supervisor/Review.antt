-- ===== src/Supervisor/Review.antt =====
-- Reviews of a submitted integration candidate: `_apply_epoch_review_on_tx` and
-- `promote_integration_epoch`.
use simple_evolution.Prelude.{
  ℕ, String, ◌<>◌, Bool, not, ◌&&◌, ◌||◌, Option, none, some, List, [], ◌∷◌, ◌++◌, ◌==◌, string_eq,
  any, last?, order_by, ltb, if◌then◌else◌,
}
use simple_evolution.Text.{strip}
use simple_evolution.Json.{Json, dict, text, texts}
use simple_evolution.Db.Rows.{
  Epoch, Experiment, IntegrationRequest, RequestStatus, closed, promoted, is_submitted,
  is_completed,
}
use simple_evolution.Db.State.{Db}
use simple_evolution.Db.Exec.{
  Exec, ◌>>=◌, ◌>>◌, pure, raise, raise_if, or_raise, gets, modify, time, new_id, transaction,
  invalid_review, review_needs_candidate, older_epoch, no_epoch, not_awaiting_review,
  integrity_error,
}
use simple_evolution.Db.Select.{get_integration_request, get_experiment, has_node}
use simple_evolution.Db.Insert.{insert_scheduler_event}
use simple_evolution.Supervisor.Requests.{update_requests}

-- The review that a decision carries; a missing key is the empty text.
pub record ReviewPayload : Type 0 where
  pub integration_request_id : String
  pub action : String
  pub rationale : String
  pub evidence_refs : List String

-- not s
unfoldable pub is_empty : String → Bool
is_empty s = s == ""

-- The text of a column that holds one that is not empty.
unfoldable pub truthy : Option String → Option String
unfolding is_empty
truthy none = none
truthy (some s) = if is_empty s then none else some s

-- SELECT * FROM epochs ORDER BY created_at DESC, rowid DESC LIMIT 1
unfoldable pub current_epoch : Db → Option Epoch
current_epoch db = last? (order_by (λ a b. ltb a.created_at b.created_at) db.epochs)

unfoldable pub linked_experiment : Option String → Db → Option Experiment
linked_experiment none db = none
linked_experiment (some i) db = get_experiment i db

-- The child node of a gate-passed candidate.
unfoldable pub candidate_child : Option Experiment → Option String
unfolding truthy
candidate_child none = none
candidate_child (some e) =
    if is_completed e.status && e.gate_result.passed then truthy e.child_node_id else none

-- The request under review and the child node of its candidate.
unfoldable pub reviewed : Option IntegrationRequest → Db → Option (IntegrationRequest × String)
unfolding truthy linked_experiment candidate_child
reviewed none db = none
reviewed (some r) db = elim (candidate_child (linked_experiment (truthy r.experiment_id) db)) [
  | none ↦ none
  | some child ↦ if is_submitted r.status then some (r, child) else none
]

unfoldable pub insert_epoch : Epoch → Exec (Unit {0})
insert_epoch e = do
  db ← gets (λ d. d)
  raise_if (any (λ x. x.epoch_id == e.epoch_id) db.epochs || not (has_node db e.root_node_id))
      integrity_error
  modify (λ d. record d { epochs = d.epochs ++ (e ∷ []) })

-- The current epoch, which has to be the one of the request.
unfoldable pub check_epoch : IntegrationRequest → Option Epoch → Exec Epoch
check_epoch r none = raise no_epoch
check_epoch r (some e) = if r.epoch_id == e.epoch_id then pure e else raise older_epoch

unfoldable pub next_epoch : String → String → Epoch → ℕ → Epoch
next_epoch i child current now = record {
  epoch_id = i;
  root_node_id = child;
  previous_epoch_id = some current.epoch_id;
  created_at = now;
}

unfoldable pub close_request : String → RequestStatus → ℕ → Db → Db
unfolding update_requests
close_request i status now =
    update_requests i (λ r. record r { status = status; closed_at = some now })

-- INSERT INTO epochs and UPDATE integration_requests, the two writes of a promotion.
unfoldable pub open_epoch : IntegrationRequest → String → Epoch → ℕ → Exec Epoch
unfolding next_epoch insert_epoch close_request
open_epoch r child current now = do
  drawn ← new_id
  let e = next_epoch ("epoch-" <> drawn) child current now
  insert_epoch e
  modify (close_request r.integration_request_id promoted now)
  pure e

unfoldable pub promote_payload : ReviewPayload → String → String → Epoch → Json
promote_payload p i rationale e = dict (
    ("integration_request_id", text i)
    ∷ ("epoch_id", text e.epoch_id)
    ∷ ("root_node_id", text e.root_node_id)
    ∷ ("rationale", text rationale)
    ∷ ("evidence_refs", texts p.evidence_refs)
    ∷ [])

unfoldable pub retain_payload : ReviewPayload → String → String → Json
retain_payload p i rationale = dict (
    ("integration_request_id", text i)
    ∷ ("rationale", text rationale)
    ∷ ("evidence_refs", texts p.evidence_refs)
    ∷ [])

pub data ReviewAction : Type 0 where
  promote retain : ReviewAction

unfoldable pub action_of : String → Option ReviewAction
action_of s = if s == "promote" then some promote else if s == "retain" then some retain else none

unfoldable pub review_candidate :
    ReviewPayload → ReviewAction → IntegrationRequest → String → Exec (Unit {0})
unfolding current_epoch check_epoch open_epoch promote_payload retain_payload close_request
review_candidate p promote r child = do
  now ← time
  newest ← gets current_epoch
  current ← check_epoch r newest
  e ← open_epoch r child current now
  insert_scheduler_event "epoch_promoted"
      (promote_payload p r.integration_request_id (strip p.rationale) e) now
review_candidate p retain r child = do
  now ← time
  modify (close_request r.integration_request_id closed now)
  insert_scheduler_event "integration_candidate_retained"
      (retain_payload p r.integration_request_id (strip p.rationale)) now

-- _apply_epoch_review_on_tx
unfoldable pub apply_review_on_tx : ReviewPayload → Exec (Unit {0})
unfolding is_empty action_of reviewed review_candidate
apply_review_on_tx p = do
  raise_if (is_empty (strip p.integration_request_id)) invalid_review
  action ← or_raise (action_of (strip p.action)) invalid_review
  raise_if (is_empty (strip p.rationale)) invalid_review
  found ← gets (λ db. reviewed (get_integration_request (strip p.integration_request_id) db) db)
  (r, child) ← or_raise found review_needs_candidate
  review_candidate p action r child

unfoldable pub promote_integration_epoch : String → Exec Epoch
unfolding linked_experiment candidate_child truthy current_epoch check_epoch open_epoch
promote_integration_epoch i = transaction (do
  found ← gets (get_integration_request i)
  r ← or_raise found not_awaiting_review
  raise_if (not (is_submitted r.status)) not_awaiting_review
  newest ← gets current_epoch
  current ← check_epoch r newest
  candidate ← gets (λ db. candidate_child (linked_experiment (truthy r.experiment_id) db))
  child ← or_raise candidate review_needs_candidate
  now ← time
  open_epoch r child current now)
