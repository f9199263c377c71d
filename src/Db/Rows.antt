-- ===== src/Db/Rows.antt =====
-- The rows of the store: the dataclasses of simpleevo/db/store.py and research_state.py, and the
-- tables of simpleevo/db/schema.py. A CHECK on a text column is a data type here. Columns that
-- hold JSON text hold the value; times are numbers that only get compared.
use simple_evolution.Prelude.{ℕ, String, Bool, true, false, Option, List}
use simple_evolution.Json.{Json, Dict}

pub record GateResult : Type 0 where
  pub passed : Option Bool
  pub detail : String

pub record GateDecision : Type 0 where
  pub results : List (String × GateResult)
  pub passed : Bool

pub data NodeStatus : Type 0 where
  active dormant dead : NodeStatus

abbrev pub is_active : NodeStatus → Bool
is_active active = true
is_active _ = false

pub record Node : Type 0 where
  pub node_id : String
  pub parent_node_id : Option String
  pub experiment_id : Option String
  pub sha : String
  pub metrics : Dict
  pub gate_result : GateDecision
  pub depth : ℕ
  pub status : NodeStatus
  pub created_at : ℕ

-- How a lease ends.
pub data Conclusion : Type 0 where
  delivered abstain cut_off rejected : Conclusion

pub record Episode : Type 0 where
  pub episode_id : String
  pub inherited_from_episode_id : Option String
  pub node_id : String
  pub variation_operator : Option String
  pub created_at : ℕ
  pub last_active_at : ℕ
  pub conclusion_type : Option Conclusion
  pub concluded_at : Option ℕ

pub data ProposalStatus : Type 0 where
  queued running done overflowed_dormant dormant : ProposalStatus

abbrev pub is_queued : ProposalStatus → Bool
is_queued queued = true
is_queued _ = false

pub data Operation : Type 0 where
  explore synthesize : Operation

pub record Proposal : Type 0 where
  pub proposal_id : String
  pub node_id : String
  pub episode_id : String
  pub instruction : String
  pub rationale : Dict
  pub status : ProposalStatus
  pub created_at : ℕ
  pub research_state_id : Option String
  pub research_operation : Option Operation
  pub donor_experiment_ids : List String

pub record Epoch : Type 0 where
  pub epoch_id : String
  pub root_node_id : String
  pub previous_epoch_id : Option String
  pub created_at : ℕ

pub data RequestStatus : Type 0 where
  open_request abstained submitted closed promoted : RequestStatus

abbrev pub is_open_request : RequestStatus → Bool
is_open_request open_request = true
is_open_request _ = false

abbrev pub is_submitted : RequestStatus → Bool
is_submitted submitted = true
is_submitted _ = false

pub record IntegrationRequest : Type 0 where
  pub integration_request_id : String
  pub epoch_id : String
  pub target_node_id : String
  pub donor_experiment_ids : List String
  pub selection_rationale : String
  pub status : RequestStatus
  pub created_at : ℕ
  pub integrator_episode_id : Option String
  pub proposal_id : Option String
  pub experiment_id : Option String
  pub closed_at : Option ℕ

pub data ExperimentStatus : Type 0 where
  pending running completed gate_rejected no_change : ExperimentStatus

-- status in {"pending", "running"}
abbrev pub is_open : ExperimentStatus → Bool
is_open pending = true
is_open running = true
is_open _ = false

abbrev pub is_completed : ExperimentStatus → Bool
is_completed completed = true
is_completed _ = false

pub record Experiment : Type 0 where
  pub experiment_id : String
  pub proposal_id : String
  pub parent_node_id : String
  pub result_sha : Option String
  pub metrics : Dict
  pub gate_result : GateDecision
  pub status : ExperimentStatus
  pub changed_paths : List String
  pub child_node_id : Option String
  pub created_at : ℕ

pub data AttemptKind : Type 0 where
  proposer experiment supervisor integrator : AttemptKind

abbrev pub same_kind : AttemptKind → AttemptKind → Bool
same_kind proposer proposer = true
same_kind experiment experiment = true
same_kind supervisor supervisor = true
same_kind integrator integrator = true
same_kind _ _ = false

pub data AttemptStatus : Type 0 where
  ready pending running succeeded failed lost : AttemptStatus

abbrev pub is_running : AttemptStatus → Bool
is_running running = true
is_running _ = false

pub record Attempt : Type 0 where
  pub attempt_id : String
  pub logical_work_id : String
  pub kind : AttemptKind
  pub status : AttemptStatus
  pub trace_ref : Option String
  pub artifact_ref : Option String
  pub host : Option String
  pub started_at : Option ℕ
  pub finished_at : Option ℕ
  pub created_at : ℕ

pub record FrontierAxis : Type 0 where
  pub axis : String
  pub node_id : String
  pub value : Json
  pub since : ℕ

-- The lease state machine. A row from before the column was added holds no state.
pub data LeaseState : Type 0 where
  researching awaiting_adjudication reopen : LeaseState
  concluded : Conclusion → LeaseState

pub record ProposerAllocation : Type 0 where
  pub allocation_id : String
  pub node_id : String
  pub episode_id : String
  pub reserved_proposal_ids : List String
  pub started_at : ℕ
  pub finished_at : Option ℕ
  pub proposals_produced : ℕ
  pub decision_id : Option String
  pub state : Option LeaseState
  pub reopen_count : ℕ

pub data EventType : Type 0 where
  root_ready experiment_terminal lease_terminal goal_changed budget_changed : EventType

pub record SupervisorEvent : Type 0 where
  pub event_id : ℕ
  pub type : EventType
  pub payload : Json
  pub created_at : ℕ

pub record SchedulerEvent : Type 0 where
  pub event_id : String
  pub type : String
  pub payload : Json
  pub created_at : ℕ

pub data DecisionKind : Type 0 where
  growth integration_request epoch_review : DecisionKind

pub record SupervisorDecision : Type 0 where
  pub decision_id : String
  pub work_id : String
  pub decision_kind : DecisionKind
  pub event_cursor_to : ℕ
  pub node_ids : List String
  pub rationale : String
  pub detail : Json
  pub created_at : ℕ

pub record ResearchState : Type 0 where
  pub research_state_id : String
  pub node_id : String
  pub episode_id : String
  pub derived_from_research_state_id : Option String
  pub transformation_id : Option String
  pub working_model : String
  pub evidence_refs : List String
  pub created_at : ℕ
  pub evidence : Option (List Json)
  pub experiment_log : Option (List Json)
  pub deliverables : Option (List Json)
  pub conclusion : Option Json
  pub revision : Option ℕ
  pub lease_id : Option String

-- The value is the JSON text.
pub record RunLimit : Type 0 where
  pub name : String
  pub value : String
  pub updated_at : ℕ

pub data ResourceKind : Type 0 where
  seat work eval : ResourceKind

abbrev pub is_seat : ResourceKind → Bool
is_seat seat = true
is_seat _ = false

pub record ResourceRow : Type 0 where
  pub ledger_id : String
  pub kind : ResourceKind
  pub ref_id : String
  pub allocation_id : Option String
  pub experiment_id : Option String
  pub opened_at : ℕ
  pub closed_at : Option ℕ

pub data CallKind : Type 0 where
  consult work : CallKind

pub record AssistantCall : Type 0 where
  pub call_id : String
  pub episode_id : String
  pub lease_id : Option String
  pub lens : Option String
  pub kind : CallKind
  pub question_digest : String
  pub adopted : Option Bool
  pub usage : Dict
  pub world_sha : Option String
  pub created_at : ℕ
