-- ===== src/Db/Update.antt =====
-- The UPDATEs of class _Transaction in simpleevo/db/store.py. An UPDATE of a row that is not there
-- changes nothing.
use simple_evolution.Prelude.{
  ℕ, String, Option, none, some, List, ◌==◌, string_eq, update, coalesce,
}
use simple_evolution.Json.{Dict}
use simple_evolution.Db.Rows.{
  Episode, ProposalStatus, Experiment, ExperimentStatus, AttemptStatus, ProposerAllocation,
  LeaseState, concluded, Conclusion, GateDecision,
}
use simple_evolution.Db.State.{Db}

unfoldable pub update_experiments : String → (Experiment → Experiment) → Db → Db
update_experiments i f db = record db {
  experiments = update (λ e. e.experiment_id == i) f db.experiments;
}

-- _Transaction.update_experiment_result
unfoldable pub update_experiment_result :
    String → Option String → Dict → GateDecision → ExperimentStatus → List String → Db → Db
unfolding update_experiments
update_experiment_result i sha metrics gate status paths = update_experiments i λ e. record e {
  result_sha = sha;
  metrics = metrics;
  gate_result = gate;
  status = status;
  changed_paths = paths;
}

-- _Transaction.link_experiment_child
unfoldable pub link_experiment_child : String → String → Db → Db
unfolding update_experiments
link_experiment_child i child = update_experiments i λ e. record e { child_node_id = some child }

unfoldable pub set_experiment_status : String → ExperimentStatus → Db → Db
unfolding update_experiments
set_experiment_status i status = update_experiments i λ e. record e { status = status }

-- _Transaction.transition_proposal_status
unfoldable pub transition_proposal_status : String → ProposalStatus → Db → Db
transition_proposal_status i status db = record db {
  proposals = update (λ p. p.proposal_id == i) (λ p. record p { status = status }) db.proposals;
}

unfoldable pub update_episodes : String → (Episode → Episode) → Db → Db
update_episodes i f db = record db { episodes = update (λ e. e.episode_id == i) f db.episodes }

-- _Transaction.update_episode_last_active
unfoldable pub update_episode_last_active : String → ℕ → Db → Db
unfolding update_episodes
update_episode_last_active i now = update_episodes i λ e. record e { last_active_at = now }

-- _Transaction.update_attempt_status, as the store calls it: with no reference to set.
unfoldable pub update_attempt_status : String → AttemptStatus → Option ℕ → Db → Db
update_attempt_status i status finished db = record db {
  attempts =
      update (λ a. a.attempt_id == i)
        (λ a. record a { status = status; finished_at = coalesce finished a.finished_at })
        db.attempts;
}

unfoldable pub update_allocations : String → (ProposerAllocation → ProposerAllocation) → Db → Db
update_allocations i f db = record db {
  proposer_allocations = update (λ a. a.allocation_id == i) f db.proposer_allocations;
}

unfoldable pub finished_row : ℕ → ℕ → Option Conclusion → ProposerAllocation → ProposerAllocation
finished_row produced now none a = record a {
  finished_at = some now;
  proposals_produced = produced;
}
finished_row produced now (some outcome) a = record a {
  finished_at = some now;
  proposals_produced = produced;
  state = some (concluded outcome);
}

-- _Transaction.finish_allocation
unfoldable pub finish_allocation : String → ℕ → ℕ → Option Conclusion → Db → Db
unfolding update_allocations finished_row
finish_allocation i produced now outcome = update_allocations i (finished_row produced now outcome)

unfoldable pub set_lease_state : String → LeaseState → Db → Db
unfolding update_allocations
set_lease_state i s = update_allocations i λ a. record a { state = some s }
