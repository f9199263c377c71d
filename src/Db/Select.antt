-- ===== src/Db/Select.antt =====
-- The reads of class _Transaction in simpleevo/db/store.py.
use simple_evolution.Prelude.{
  String, Bool, true, Option, none, some, List, ◌==◌, string_eq, any, select, find, order_by, ltb,
}
use simple_evolution.Db.Rows.{
  Node, is_active, Episode, Proposal, IntegrationRequest, Experiment, Attempt, ProposerAllocation,
  ResearchState,
}
use simple_evolution.Db.State.{Db}

abbrev pub has_node : Db → String → Bool
has_node db i = any (λ n. n.node_id == i) db.nodes

abbrev pub has_episode : Db → String → Bool
has_episode db i = any (λ e. e.episode_id == i) db.episodes

abbrev pub has_proposal : Db → String → Bool
has_proposal db i = any (λ p. p.proposal_id == i) db.proposals

-- A foreign key that may be NULL.
abbrev pub null_or : (String → Bool) → Option String → Bool
null_or has none = true
null_or has (some i) = has i

unfoldable pub get_node : String → Db → Option Node
get_node i db = find (λ n. n.node_id == i) db.nodes

unfoldable pub get_episode : String → Db → Option Episode
get_episode i db = find (λ e. e.episode_id == i) db.episodes

unfoldable pub get_proposal : String → Db → Option Proposal
get_proposal i db = find (λ p. p.proposal_id == i) db.proposals

unfoldable pub get_experiment : String → Db → Option Experiment
get_experiment i db = find (λ e. e.experiment_id == i) db.experiments

unfoldable pub get_attempt : String → Db → Option Attempt
get_attempt i db = find (λ a. a.attempt_id == i) db.attempts

unfoldable pub get_allocation : String → Db → Option ProposerAllocation
get_allocation i db = find (λ a. a.allocation_id == i) db.proposer_allocations

unfoldable pub get_research_state : String → Db → Option ResearchState
get_research_state i db = find (λ s. s.research_state_id == i) db.research_states

unfoldable pub get_integration_request : String → Db → Option IntegrationRequest
get_integration_request i db = find (λ r. r.integration_request_id == i) db.integration_requests

unfoldable pub list_active_nodes : Db → List Node
list_active_nodes db =
    order_by (λ a b. ltb a.created_at b.created_at) (select (λ n. is_active n.status) db.nodes)
