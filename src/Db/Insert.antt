-- ===== src/Db/Insert.antt =====
-- The INSERTs of class _Transaction in simpleevo/db/store.py, and those of the other tables. An
-- INSERT fails on a used primary key, on a used UNIQUE column and on a foreign key with no row
-- (PRAGMA foreign_keys = ON).
use simple_evolution.Prelude.{
  ℕ, ◌+◌, String, Bool, false, not, ◌||◌, Option, none, some, List, [], ◌∷◌, ◌++◌, ◌==◌, string_eq,
  option_eq, any, is_none, if◌then◌else◌,
}
use simple_evolution.Json.{Json}
use simple_evolution.Db.Rows.{
  Node, Episode, Proposal, Epoch, IntegrationRequest, open_request, Experiment, ExperimentStatus,
  Attempt, AttemptKind, AttemptStatus, ProposerAllocation, EventType, SupervisorEvent,
  SchedulerEvent, ResearchState, ResourceKind, ResourceRow,
}
use simple_evolution.Db.State.{Db, event_head}
use simple_evolution.Db.Select.{has_node, has_episode, has_proposal, null_or}
use simple_evolution.Db.Exec.{
  Exec, ◌>>=◌, ◌>>◌, pure, raise, raise_if, gets, modify, time, new_id, integrity_error,
  request_without_donors,
}

-- INSERT OR IGNORE INTO epochs VALUES ('epoch-0', nid, NULL, now)
unfoldable pub ignore_epoch : Epoch → Db → Db
ignore_epoch e db =
    if any (λ x. x.epoch_id == e.epoch_id) db.epochs
    then db
    else record db { epochs = db.epochs ++ (e ∷ []) }

unfoldable pub seed_epoch : Node → Db → Db
unfolding ignore_epoch
seed_epoch n db =
    if is_none n.parent_node_id
    then ignore_epoch
        (record {
          epoch_id = "epoch-0";
          root_node_id = n.node_id;
          previous_epoch_id = none;
          created_at = n.created_at;
        })
        db
    else db

-- _Transaction.create_node, its defaults filled in.
unfoldable pub create_node : Node → Exec Node
unfolding seed_epoch
create_node n = do
  db ← gets (λ d. d)
  raise_if
      (has_node db n.node_id
        || any (λ m. m.sha == n.sha) db.nodes
        || not (null_or (has_node db) n.parent_node_id))
      integrity_error
  modify (λ d. record d { nodes = d.nodes ++ (n ∷ []) })
  modify (seed_epoch n)
  pure n

unfoldable pub new_episode : String → Option String → String → ℕ → Episode
new_episode eid inherited node_id now = record {
  episode_id = eid;
  inherited_from_episode_id = inherited;
  node_id = node_id;
  variation_operator = none;
  created_at = now;
  last_active_at = now;
  conclusion_type = none;
  concluded_at = none;
}

-- _Transaction.create_episode, as every caller calls it: with a new id and no operator.
unfoldable pub create_episode : Option String → String → Exec Episode
unfolding new_episode
create_episode inherited node_id = do
  now ← time
  eid ← new_id
  db ← gets (λ d. d)
  raise_if
      (has_episode db eid || not (has_node db node_id) || not (null_or (has_episode db) inherited))
      integrity_error
  modify (λ d. record d { episodes = d.episodes ++ (new_episode eid inherited node_id now ∷ []) })
  pure (new_episode eid inherited node_id now)

unfoldable pub new_experiment : String → String → String → ExperimentStatus → ℕ → Experiment
new_experiment eid proposal_id parent status now = record {
  experiment_id = eid;
  proposal_id = proposal_id;
  parent_node_id = parent;
  result_sha = none;
  metrics = [];
  gate_result = record { results = []; passed = false };
  status = status;
  changed_paths = [];
  child_node_id = none;
  created_at = now;
}

-- _Transaction.create_experiment
unfoldable pub create_experiment : String → String → String → ExperimentStatus → Exec Experiment
unfolding new_experiment
create_experiment eid proposal_id parent status = do
  now ← time
  db ← gets (λ d. d)
  raise_if
      (any (λ e. e.experiment_id == eid) db.experiments
        || not (has_proposal db proposal_id)
        || not (has_node db parent))
      integrity_error
  let e = new_experiment eid proposal_id parent status now
  modify (λ d. record d { experiments = d.experiments ++ (e ∷ []) })
  pure e

-- _Transaction.create_proposal
unfoldable pub create_proposal : Proposal → Exec (Unit {0})
create_proposal p = do
  db ← gets (λ d. d)
  raise_if
      (has_proposal db p.proposal_id
        || not (has_node db p.node_id)
        || not (has_episode db p.episode_id))
      integrity_error
  modify (λ d. record d { proposals = d.proposals ++ (p ∷ []) })

unfoldable pub shares_lease : Option String → ResearchState → Bool
shares_lease none s = false
shares_lease (some l) s = s.lease_id == some l

-- _Transaction.create_research_state
unfoldable pub create_research_state : ResearchState → Exec (Unit {0})
unfolding shares_lease
create_research_state s = do
  db ← gets (λ d. d)
  raise_if
      (any (λ x. x.research_state_id == s.research_state_id) db.research_states
        || any (shares_lease s.lease_id) db.research_states
        || not (has_node db s.node_id)
        || not (has_episode db s.episode_id))
      integrity_error
  modify (λ d. record d { research_states = d.research_states ++ (s ∷ []) })

unfoldable pub new_attempt : String → String → AttemptKind → AttemptStatus → Option ℕ → ℕ → Attempt
new_attempt aid work kind status started now = record {
  attempt_id = aid;
  logical_work_id = work;
  kind = kind;
  status = status;
  trace_ref = none;
  artifact_ref = none;
  host = none;
  started_at = started;
  finished_at = none;
  created_at = now;
}

-- _Transaction.create_attempt
unfoldable pub create_attempt : String → AttemptKind → AttemptStatus → Option ℕ → Exec Attempt
unfolding new_attempt
create_attempt work kind status started = do
  now ← time
  aid ← new_id
  db ← gets (λ d. d)
  raise_if (any (λ a. a.attempt_id == aid) db.attempts) integrity_error
  let a = new_attempt aid work kind status started now
  modify (λ d. record d { attempts = d.attempts ++ (a ∷ []) })
  pure a

-- _Transaction.create_allocation
unfoldable pub create_allocation : ProposerAllocation → Exec (Unit {0})
create_allocation a = do
  db ← gets (λ d. d)
  raise_if
      (any (λ x. x.allocation_id == a.allocation_id) db.proposer_allocations
        || not (has_node db a.node_id)
        || not (has_episode db a.episode_id))
      integrity_error
  modify (λ d. record d { proposer_allocations = d.proposer_allocations ++ (a ∷ []) })

unfoldable pub new_request :
    String → String → String → List String → String → ℕ → IntegrationRequest
new_request rid epoch_id target donors rationale now = record {
  integration_request_id = rid;
  epoch_id = epoch_id;
  target_node_id = target;
  donor_experiment_ids = donors;
  selection_rationale = rationale;
  status = open_request;
  created_at = now;
  integrator_episode_id = none;
  proposal_id = none;
  experiment_id = none;
  closed_at = none;
}

unfoldable pub insert_request :
    String → String → String → List String → String → Exec IntegrationRequest
unfolding new_request
insert_request rid epoch_id target donors rationale = do
  now ← time
  db ← gets (λ x. x)
  raise_if
      (any (λ r. r.integration_request_id == rid) db.integration_requests
        || not (any (λ e. e.epoch_id == epoch_id) db.epochs)
        || not (has_node db target))
      integrity_error
  let r = new_request rid epoch_id target donors rationale now
  modify (λ x. record x { integration_requests = x.integration_requests ++ (r ∷ []) })
  pure r

-- _Transaction.create_integration_request
unfoldable pub create_integration_request :
    String → String → String → List String → String → Exec IntegrationRequest
unfolding insert_request
create_integration_request rid epoch_id target [] rationale = raise request_without_donors
create_integration_request rid epoch_id target (d ∷ ds) rationale =
    insert_request rid epoch_id target (d ∷ ds) rationale

-- INSERT INTO supervisor_events: AUTOINCREMENT gives the next event id, and rows are never deleted.
unfoldable pub insert_supervisor_event : EventType → Json → ℕ → Db → Db
insert_supervisor_event type payload now db = record db {
  supervisor_events = db.supervisor_events ++ (e ∷ []);
}
  where
    e : SupervisorEvent
    e = record {
      event_id = event_head db.supervisor_events + 1;
      type = type;
      payload = payload;
      created_at = now;
    }

-- INSERT INTO scheduler_events with a new id.
unfoldable pub insert_scheduler_event : String → Json → ℕ → Exec (Unit {0})
insert_scheduler_event type payload now = do
  eid ← new_id
  db ← gets (λ d. d)
  raise_if (any (λ e. e.event_id == eid) db.scheduler_events) integrity_error
  modify (add (record { event_id = eid; type = type; payload = payload; created_at = now }))
  where
    add : SchedulerEvent → Db → Db
    add e d = record d { scheduler_events = d.scheduler_events ++ (e ∷ []) }

-- INSERT INTO resource_ledger with a new id.
unfoldable pub open_resource :
    ResourceKind → String → Option String → Option String → ℕ → Exec (Unit {0})
open_resource kind ref allocation experiment now = do
  lid ← new_id
  db ← gets (λ d. d)
  raise_if (any (λ r. r.ledger_id == lid) db.resource_ledger) integrity_error
  modify (
      add (record {
        ledger_id = lid;
        kind = kind;
        ref_id = ref;
        allocation_id = allocation;
        experiment_id = experiment;
        opened_at = now;
        closed_at = none;
      }))
  where
    add : ResourceRow → Db → Db
    add r d = record d { resource_ledger = d.resource_ledger ++ (r ∷ []) }
