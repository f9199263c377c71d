-- ===== src/Queries/Reads.antt =====
-- Counts, lists and projections over the tables.
use simple_evolution.Prelude.{
  ℕ, String, Bool, true, false, not, ◌&&◌, ◌||◌, Option, none, some, List, [], ◌∷◌, ◌==◌, string_eq,
  any, map, select, find, first?, take, count, order_by, ltb, nat_beq, is_none, is_some, get_or,
  max,
}
use simple_evolution.Text.{text_before}
use simple_evolution.Db.Rows.{
  Node, Episode, is_queued, is_open, proposer, ProposerAllocation, LeaseState, researching,
  awaiting_adjudication, reopen, Conclusion,
}
use simple_evolution.Db.State.{Db}
use simple_evolution.Attempts.Marks.{is_for}

unfoldable pub list_nodes : Db → List Node
list_nodes db = order_by (λ a b. ltb a.created_at b.created_at) db.nodes

-- ORDER BY last_active_at DESC LIMIT n
unfoldable pub episodes_for_node : String → ℕ → Db → List Episode
episodes_for_node node_id limit db = take limit (
    order_by (λ a b. ltb b.last_active_at a.last_active_at)
      (select (λ e. e.node_id == node_id) db.episodes))

unfoldable pub proposal_count_for_node : String → Db → ℕ
proposal_count_for_node node_id db = count (λ p. p.node_id == node_id) db.proposals

unfoldable pub queued_proposal_count : Db → ℕ
queued_proposal_count db = count (λ p. is_queued p.status) db.proposals

unfoldable pub is_open_lease : ProposerAllocation → Bool
is_open_lease a = is_none a.finished_at

unfoldable pub open_allocations : Db → List ProposerAllocation
unfolding is_open_lease
open_allocations db = select is_open_lease db.proposer_allocations

unfoldable pub open_allocation_count : Db → ℕ
unfolding is_open_lease
open_allocation_count db = count is_open_lease db.proposer_allocations

-- SELECT DISTINCT: the values in the order in which they come first.
unfoldable pub distinct : List String → List String
distinct [] = []
distinct (x ∷ xs) = let rest = distinct xs in x ∷ select (λ y. not (y == x)) rest

unfoldable pub open_allocation_node_ids : Db → List String
unfolding open_allocations distinct
open_allocation_node_ids db = distinct (map (λ a. a.node_id) (open_allocations db))

-- SELECT key, COUNT( * ) ... GROUP BY key
unfoldable pub group_counts : List String → List (String × ℕ)
unfolding distinct
group_counts keys = map (λ k. (k, count (λ j. j == k) keys)) (distinct keys)

unfoldable pub open_allocation_counts_by_node : Db → List (String × ℕ)
unfolding group_counts open_allocations
open_allocation_counts_by_node db = group_counts (map (λ a. a.node_id) (open_allocations db))

-- COALESCE(state, 'researching') = 'researching'
unfoldable pub is_researching : Option LeaseState → Bool
is_researching none = true
is_researching (some researching) = true
is_researching _ = false

unfoldable pub is_parked : Option LeaseState → Bool
is_parked (some awaiting_adjudication) = true
is_parked _ = false

unfoldable pub is_sent_back : Option LeaseState → Bool
is_sent_back (some reopen) = true
is_sent_back _ = false

unfoldable pub open_in_state : (Option LeaseState → Bool) → ProposerAllocation → Bool
unfolding is_open_lease
open_in_state p a = is_open_lease a && p a.state

unfoldable pub researching_open_allocation_count : Db → ℕ
unfolding open_in_state is_researching
researching_open_allocation_count db = count (open_in_state is_researching) db.proposer_allocations

unfoldable pub awaiting_adjudication_allocations : Db → List ProposerAllocation
unfolding open_in_state is_parked
awaiting_adjudication_allocations db = select (open_in_state is_parked) db.proposer_allocations

unfoldable pub reopen_allocations : Db → List ProposerAllocation
unfolding open_in_state is_sent_back
reopen_allocations db = select (open_in_state is_sent_back) db.proposer_allocations

unfoldable pub open_allocation_for_episode : String → Db → Option ProposerAllocation
unfolding is_open_lease
open_allocation_for_episode episode_id db =
    find (λ a. a.episode_id == episode_id && is_open_lease a) db.proposer_allocations

unfoldable pub lease_attempt_ids : String → Db → List String
unfolding is_for
lease_attempt_ids allocation_id db =
    map (λ a. a.attempt_id)
      (order_by (λ a b. ltb a.created_at b.created_at)
        (select (is_for allocation_id proposer) db.attempts))

unfoldable pub open_experiment_count : Db → ℕ
open_experiment_count db = count (λ e. is_open e.status) db.experiments

-- status IN ('completed', 'gate_rejected', 'no_change'): every status that is not open.
unfoldable pub terminal_experiment_count : Db → ℕ
terminal_experiment_count db = count (λ e. not (is_open e.status)) db.experiments

unfoldable pub allocated_episode_ids : Db → List String
unfolding distinct
allocated_episode_ids db = distinct (map (λ a. a.episode_id) db.proposer_allocations)

unfoldable pub count_allocations_for_node : String → Db → ℕ
count_allocations_for_node node_id db = count (λ a. a.node_id == node_id) db.proposer_allocations

-- The latest lease of the episode is closed.
unfoldable pub episode_allocation_finished : String → Db → Bool
episode_allocation_finished episode_id db = closed (
    first? (
      order_by (λ a b. ltb b.started_at a.started_at)
        (select (λ a. a.episode_id == episode_id) db.proposer_allocations)))
  where
    closed : Option ProposerAllocation → Bool
    closed none = false
    closed (some a) = is_some a.finished_at

unfoldable pub frontier_nodes : Db → List Node
frontier_nodes db =
    order_by (λ a b. ltb a.created_at b.created_at)
      (select (λ n. any (λ x. x.node_id == n.node_id) db.frontier_axes) db.nodes)

unfoldable pub root_node : Db → Option Node
root_node db = find (λ n. is_none n.parent_node_id) db.nodes

-- MAX(reopen_count), 0 when there is no row
unfoldable pub most_reopens : List ProposerAllocation → ℕ
most_reopens [] = 0
most_reopens (a ∷ xs) = max a.reopen_count (most_reopens xs)

-- One row of `episode_operator_rows`.
pub record OperatorRow : Type 0 where
  pub node_id : String
  pub episode_id : String
  pub lens : String
  pub leases : ℕ
  pub open_leases : ℕ
  pub lease_state : Option LeaseState
  pub reopen_count : ℕ
  pub proposals : ℕ
  pub conclusion_type : Option Conclusion

unfoldable pub state_of : Option ProposerAllocation → Option LeaseState
state_of none = none
state_of (some a) = some (get_or a.state researching)

unfoldable pub operator_row : Db → Episode → String → OperatorRow
unfolding is_open_lease state_of most_reopens open_allocation_for_episode
operator_row db e lens = record {
  node_id = e.node_id;
  episode_id = e.episode_id;
  lens = lens;
  leases = count (λ a. a.episode_id == e.episode_id) db.proposer_allocations;
  open_leases =
      count (λ a. a.episode_id == e.episode_id && is_open_lease a) db.proposer_allocations;
  lease_state = state_of (open_allocation_for_episode e.episode_id db);
  reopen_count = most_reopens (select (λ a. a.episode_id == e.episode_id) db.proposer_allocations);
  proposals = count (λ p. p.episode_id == e.episode_id) db.proposals;
  conclusion_type = e.conclusion_type;
}

-- WHERE e.variation_operator IS NOT NULL
unfoldable pub operator_rows_of : Db → List Episode → List OperatorRow
unfolding operator_row
operator_rows_of db [] = []
operator_rows_of db (e ∷ es) = elim e.variation_operator [
  | none ↦ operator_rows_of db es
  | some lens ↦ operator_row db e lens ∷ operator_rows_of db es
]

-- ORDER BY created_at, episode_id
unfoldable pub created_before : Episode → Episode → Bool
created_before a b =
    ltb a.created_at b.created_at
    || (nat_beq a.created_at b.created_at && text_before a.episode_id b.episode_id)

unfoldable pub episode_operator_rows : Db → List OperatorRow
unfolding operator_rows_of created_before
episode_operator_rows db = operator_rows_of db (order_by created_before db.episodes)
