-- ===== src/Supervisor/Commit.antt =====
-- `commit_supervisor_decision`: one judgment of the growth gate, in one transaction.
use simple_evolution.Prelude.{
  ℕ, String, Bool, true, false, not, ◌&&◌, ◌||◌, Option, none, some, List, [], ◌∷◌, ◌++◌, ◌==◌,
  string_eq, option_eq, any, select, order_by, ltb, nat_beq, is_none, if◌then◌else◌,
}
use simple_evolution.Prelude.Int.{pos}
use simple_evolution.Text.{text_before}
use simple_evolution.Json.{Json, Dict, number, text, texts, dict}
use simple_evolution.Db.Rows.{
  ProposerAllocation, DecisionKind, growth, integration_request, epoch_review, SupervisorDecision,
}
use simple_evolution.Db.State.{Db}
use simple_evolution.Db.Exec.{
  Exec, ◌>>=◌, ◌>>◌, pure, raise, raise_if, or_raise, gets, modify, time, collect, transaction,
  unknown_decision_kind, kind_takes_no_nodes, missing_request, missing_review, missing_node_ids,
  stale_decision,
}
use simple_evolution.Db.Insert.{insert_scheduler_event}
use simple_evolution.Lease.Allocate.{LeaseSpec, allocate_on_tx}
use simple_evolution.Supervisor.Events.{supervisor_event_head}
use simple_evolution.Supervisor.Requests.{RequestPayload, create_request_on_tx}
use simple_evolution.Supervisor.Review.{ReviewPayload, apply_review_on_tx, is_empty}

-- The arguments of the call.
pub record Judgment : Type 0 where
  pub decision_id : String
  pub work_id : String
  pub cursor_to : ℕ
  pub decision_kind : String
  pub node_ids : List String
  pub leases : List LeaseSpec
  pub rationale : String
  pub detail : Dict
  pub max_proposals_per_node : Option ℕ
  pub integration_request : Option RequestPayload
  pub epoch_review : Option ReviewPayload

pub record SupervisorCommit : Type 0 where
  pub decision_id : String
  pub replayed : Bool
  pub allocations : List ProposerAllocation

unfoldable pub decision_kind_of : String → Option DecisionKind
decision_kind_of s =
    if s == "growth"
    then some growth
    else if s == "integration_request"
    then some integration_request
    else if s == "epoch_review"
    then some epoch_review
    else none

unfoldable pub is_growth : DecisionKind → Bool
is_growth growth = true
is_growth _ = false

unfoldable pub has_items {ℓ} : {A : Type ℓ} → List A → Bool
has_items [] = false
has_items (x ∷ xs) = true

unfoldable pub check_payload : Judgment → DecisionKind → Exec (Unit {0})
check_payload j growth = pure tt
check_payload j integration_request = raise_if (is_none j.integration_request) missing_request
check_payload j epoch_review = raise_if (is_none j.epoch_review) missing_review

-- The checks before the transaction.
unfoldable pub check_judgment : Judgment → Exec DecisionKind
unfolding decision_kind_of is_growth has_items check_payload
check_judgment j = do
  kind ← or_raise (decision_kind_of j.decision_kind) (unknown_decision_kind j.decision_kind)
  raise_if (not (is_growth kind) && (has_items j.leases || has_items j.node_ids))
      kind_takes_no_nodes
  check_payload j kind
  raise_if (any is_empty j.node_ids) missing_node_ids
  pure kind

unfoldable pub is_decided : String → Db → Bool
is_decided i db = any (λ d. d.decision_id == i) db.supervisor_decisions

-- ORDER BY started_at, allocation_id
unfoldable pub started_before : ProposerAllocation → ProposerAllocation → Bool
unfolding text_before
started_before a b =
    ltb a.started_at b.started_at
    || (nat_beq a.started_at b.started_at && text_before a.allocation_id b.allocation_id)

unfoldable pub bought_leases : String → Db → List ProposerAllocation
unfolding started_before
bought_leases i db =
    order_by started_before (select (λ a. a.decision_id == some i) db.proposer_allocations)

unfoldable pub replay : Judgment → Exec SupervisorCommit
unfolding bought_leases
replay j = do
  rows ← gets (bought_leases j.decision_id)
  pure (record { decision_id = j.decision_id; replayed = true; allocations = rows })

unfoldable pub decision_row : Judgment → DecisionKind → ℕ → SupervisorDecision
decision_row j kind now = record {
  decision_id = j.decision_id;
  work_id = j.work_id;
  decision_kind = kind;
  event_cursor_to = j.cursor_to;
  node_ids = j.node_ids;
  rationale = j.rationale;
  detail = dict j.detail;
  created_at = now;
}

-- [x for x in xs if x is not None]
unfoldable pub present {ℓ} : {A : Type ℓ} → List (Option A) → List A
present [] = []
present (none ∷ xs) = present xs
present (some x ∷ xs) = x ∷ present xs

-- The side effects of a kind.
unfoldable pub enact : Judgment → DecisionKind → Exec (List ProposerAllocation)
unfolding present
enact j growth = do
  seats ←
      collect j.leases (λ spec. allocate_on_tx spec j.max_proposals_per_node (some j.decision_id))
  pure (present seats)
enact j integration_request = do
  p ← or_raise j.integration_request missing_request
  _ ← create_request_on_tx p
  pure []
enact j epoch_review = do p ← or_raise j.epoch_review missing_review; apply_review_on_tx p; pure []

unfoldable pub accepted_payload : Judgment → Json
accepted_payload j = dict (
    ("decision_id", text j.decision_id)
    ∷ ("decision_kind", text j.decision_kind)
    ∷ ("node_ids", texts j.node_ids)
    ∷ ("event_cursor_to", number (pos j.cursor_to))
    ∷ [])

unfoldable pub decide : Judgment → DecisionKind → Exec SupervisorCommit
unfolding decision_row enact accepted_payload
decide j kind = do
  now ← time
  modify (λ db. record db {
    supervisor_decisions = db.supervisor_decisions ++ (decision_row j kind now ∷ []);
  })
  created ← enact j kind
  modify (λ db. record db { supervisor_cursor = some j.cursor_to })
  at ← time
  insert_scheduler_event "supervisor_decision_accepted" (accepted_payload j) at
  pure (record { decision_id = j.decision_id; replayed = false; allocations = created })

unfoldable pub commit_on_tx : Judgment → DecisionKind → Exec SupervisorCommit
unfolding is_decided replay decide
commit_on_tx j kind = do
  decided ← gets (is_decided j.decision_id)
  head ← gets supervisor_event_head
  if decided
      then replay j
      else if nat_beq head j.cursor_to
      then decide j kind
      else raise (stale_decision head)

unfoldable pub commit_supervisor_decision : Judgment → Exec SupervisorCommit
unfolding check_judgment commit_on_tx
commit_supervisor_decision j = do kind ← check_judgment j; transaction (commit_on_tx j kind)
