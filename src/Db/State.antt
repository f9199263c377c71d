-- ===== src/Db/State.antt =====
-- The database as a record of tables, each a list of rows in the order of insertion, and what a
-- call draws from outside: readings of time.time() and uuid.uuid4().hex values, in order.
use simple_evolution.Prelude.{ℕ, String, Option, none, List, [], ◌∷◌, max}
use simple_evolution.Db.Rows.{
  Node, Episode, Proposal, Epoch, IntegrationRequest, Experiment, Attempt, FrontierAxis,
  ProposerAllocation, SupervisorEvent, SchedulerEvent, SupervisorDecision, ResearchState, RunLimit,
  ResourceRow, AssistantCall,
}

pub record Db : Type 0 where
  pub nodes : List Node
  pub episodes : List Episode
  pub research_states : List ResearchState
  pub proposals : List Proposal
  pub experiments : List Experiment
  pub attempts : List Attempt
  pub frontier_axes : List FrontierAxis
  pub proposer_allocations : List ProposerAllocation
  pub epochs : List Epoch
  pub integration_requests : List IntegrationRequest
  pub scheduler_events : List SchedulerEvent
  pub supervisor_events : List SupervisorEvent
  pub supervisor_cursor : Option ℕ
  pub supervisor_decisions : List SupervisorDecision
  pub run_limits : List RunLimit
  pub resource_ledger : List ResourceRow
  pub assistant_calls : List AssistantCall

pub record World : Type 0 where
  pub db : Db
  pub open db use *
  pub clock : ℕ → ℕ
  pub readings : ℕ
  pub uuid : ℕ → String
  pub drawn : ℕ

abbrev pub empty_db : Db
empty_db = record {
  nodes = [];
  episodes = [];
  research_states = [];
  proposals = [];
  experiments = [];
  attempts = [];
  frontier_axes = [];
  proposer_allocations = [];
  epochs = [];
  integration_requests = [];
  scheduler_events = [];
  supervisor_events = [];
  supervisor_cursor = none;
  supervisor_decisions = [];
  run_limits = [];
  resource_ledger = [];
  assistant_calls = [];
}

-- SELECT COALESCE(MAX(event_id), 0) FROM supervisor_events
abbrev pub event_head : List SupervisorEvent → ℕ
event_head [] = 0
event_head (e ∷ es) = max e.event_id (event_head es)
