-- ===== src/Seats/Tests.antt =====
-- Purchases on a small tree: a root with a burned lens, and its child.
use simple_evolution.Prelude.{
  true, false, ◌≡◌, ◌+◌, ◌≤◌, refl, Option, some, List, [], ◌∷◌, all, map, length,
}
use simple_evolution.Json.{Json, text, dict, list}
use simple_evolution.Db.Rows.{Node}
use simple_evolution.Db.State.{World}
use simple_evolution.Db.Exec.{Outcome, done, raised, after, lens_burned, transaction}
use simple_evolution.Lease.Allocate.{
  LeaseSpec, allocate_on_tx, check_episode, new_allocation, other_lens, reserve, reserved_count,
  stamp_lens,
}
use simple_evolution.Queries.Reads.{
  list_nodes, researching_open_allocation_count, allocated_episode_ids, created_before, distinct,
  episode_operator_rows, episodes_for_node, is_open_lease, is_researching, most_reopens,
  open_allocation_for_episode, open_in_state, operator_row, operator_rows_of, state_of,
}
use simple_evolution.Supervisor.Commit.{
  SupervisorCommit, accepted_payload, check_judgment, check_payload, commit_on_tx,
  commit_supervisor_decision, decide, decision_kind_of, decision_row, enact, has_items, is_decided,
  is_growth, present,
}
use simple_evolution.Seats.Purchase.{
  SeatPurchase, SeatRules, seat_leases, allocatable, clashes, exceeds_capacity, first_or_new,
  fresh_episode, full_text, has_extra, is_dead, is_empty_basis, lease_all, meets, new_seat_episode,
  parent_of, purchases_of, related, same_purchase, seat_episode_for_node, seat_lease, seat_purchase,
  seat_purchases,
}
use simple_evolution.Seats.Growth.{
  apply_growth, growth_judgment, has_untried, no_purchases, purchase_entry, untried_seats_remain,
  work_in_flight,
}
use simple_evolution.Seats.PurchaseLaws.{bought, legal, pairwise, seat_leases-legal}
use simple_evolution.Seats.GrowthLaws.{apply_growth-seats}
use simple_evolution.Text.{chars_before, show, text_before}
use simple_evolution.Db.Select.{get_episode, get_node}
use simple_evolution.Db.Update.{update_episodes}
use simple_evolution.Db.Insert.{
  create_allocation, create_episode, insert_scheduler_event, new_episode, open_resource,
}
use simple_evolution.Supervisor.Review.{is_empty}
use simple_evolution.Supervisor.Events.{supervisor_event_head}
use simple_evolution.Attempts.Marks.{running_of_kind}
use simple_evolution.Queries.Lineage.{all_lenses, ancestry, burned_lenses, climb, own_lenses}
use simple_evolution.Samples.{root, episode, small_db, world}

abbrev child : Node
child = record root { node_id = "n1"; parent_node_id = some "n0"; created_at = 7 }

-- The root has a seat at work and one that is closed; the child has an episode to be taken.
abbrev start : World
start = world (record small_db {
  nodes = root ∷ child ∷ [];
  episodes =
      record (episode "e1") { variation_operator = some "memory" }
      ∷ record (episode "e2") { variation_operator = some "memory" }
      ∷ record (episode "e3") { node_id = "n1" }
      ∷ [];
})

abbrev rules : SeatRules
rules = record { max_proposer_inflight = 3; basis = "memory" ∷ "loops" ∷ "threads" ∷ [] }

abbrev purchases : List SeatPurchase
purchases =
    record { node_id = "n0"; lens = "loops" } ∷ record { node_id = "n1"; lens = "threads" } ∷ []

abbrev leases_of : Outcome (List LeaseSpec) → List LeaseSpec
leases_of (done ls w) = ls
leases_of (raised e w) = []

abbrev seated : Outcome (List LeaseSpec)
seated = seat_leases rules purchases start

seats_return : seated ≡ done (leases_of seated) (after seated)
unfolding seat_leases exceeds_capacity is_empty_basis lease_all seat_lease same_purchase clashes
    related meets parent_of allocatable is_dead seat_episode_for_node fresh_episode first_or_new
    new_seat_episode create_episode new_episode transaction get_node list_nodes episodes_for_node
    allocated_episode_ids distinct researching_open_allocation_count open_in_state is_researching
    is_open_lease burned_lenses ancestry climb all_lenses own_lenses episode_operator_rows
    operator_rows_of operator_row state_of most_reopens open_allocation_for_episode created_before
    text_before chars_before show
seats_return = refl

seat_leases-legal_example :
    (map bought (leases_of seated) ≡ purchases)
    × (length (leases_of seated) + researching_open_allocation_count start.db
        ≤ rules.max_proposer_inflight)
    × (all (legal rules.basis start.db) (leases_of seated) ≡ true)
    × (pairwise (list_nodes start.db) (leases_of seated) ≡ true)
seat_leases-legal_example =
    seat_leases-legal rules purchases (leases_of seated) start (after seated) seats_return

-- Another lens for the child.
abbrev raw : Option Json
raw = some (list (dict (("node_id", text "n1") ∷ ("lens", text "threads") ∷ []) ∷ []))

abbrev growth_result : Outcome SupervisorCommit
growth_result = apply_growth rules "d1" "w1" 0 "an untried lens" raw start

abbrev commit_of : Outcome SupervisorCommit → SupervisorCommit
commit_of (done c w) = c
commit_of (raised e w) = record { decision_id = ""; replayed = false; allocations = [] }

growth_returns : growth_result ≡ done (commit_of growth_result) (after growth_result)
unfolding seat_leases exceeds_capacity is_empty_basis lease_all seat_lease same_purchase clashes
    related meets parent_of allocatable is_dead seat_episode_for_node fresh_episode first_or_new
    new_seat_episode create_episode new_episode transaction get_node list_nodes episodes_for_node
    allocated_episode_ids distinct researching_open_allocation_count open_in_state is_researching
    is_open_lease burned_lenses ancestry climb all_lenses own_lenses episode_operator_rows
    operator_rows_of operator_row state_of most_reopens open_allocation_for_episode created_before
    text_before chars_before show apply_growth seat_purchases purchases_of seat_purchase has_extra
    full_text no_purchases untried_seats_remain has_untried work_in_flight running_of_kind
    growth_judgment purchase_entry commit_supervisor_decision check_judgment decision_kind_of
    is_growth has_items check_payload is_empty commit_on_tx is_decided supervisor_event_head decide
    decision_row enact present allocate_on_tx check_episode stamp_lens other_lens update_episodes
    reserved_count reserve new_allocation create_allocation open_resource accepted_payload
    insert_scheduler_event get_episode
growth_returns = refl

apply_growth-seats_example :
    researching_open_allocation_count (after growth_result).db ≤ rules.max_proposer_inflight
apply_growth-seats_example =
    apply_growth-seats rules "d1" "w1" 0 "an untried lens" raw (commit_of growth_result) start
      (after growth_result) growth_returns

-- The same result, delivered again after its commit, does not reach the replay of the commit.
redelivery_refused :
    apply_growth rules "d1" "w1" 0 "an untried lens" raw (after growth_result)
    ≡ raised (lens_burned "n1" "threads") (after growth_result)
unfolding seat_leases exceeds_capacity is_empty_basis lease_all seat_lease same_purchase clashes
    related meets parent_of allocatable is_dead seat_episode_for_node fresh_episode first_or_new
    new_seat_episode create_episode new_episode transaction get_node list_nodes episodes_for_node
    allocated_episode_ids distinct researching_open_allocation_count open_in_state is_researching
    is_open_lease burned_lenses ancestry climb all_lenses own_lenses episode_operator_rows
    operator_rows_of operator_row state_of most_reopens open_allocation_for_episode created_before
    text_before chars_before show apply_growth seat_purchases purchases_of seat_purchase has_extra
    full_text no_purchases untried_seats_remain has_untried work_in_flight running_of_kind
    growth_judgment purchase_entry commit_supervisor_decision check_judgment decision_kind_of
    is_growth has_items check_payload is_empty commit_on_tx is_decided supervisor_event_head decide
    decision_row enact present allocate_on_tx check_episode stamp_lens other_lens update_episodes
    reserved_count reserve new_allocation create_allocation open_resource accepted_payload
    insert_scheduler_event get_episode
redelivery_refused = refl

-- A lens that an ancestor has burned.
descendant_refused :
    seat_leases rules (record { node_id = "n1"; lens = "memory" } ∷ []) start
    ≡ raised (lens_burned "n1" "memory") start
unfolding seat_leases exceeds_capacity is_empty_basis lease_all seat_lease same_purchase clashes
    related meets parent_of allocatable is_dead seat_episode_for_node fresh_episode first_or_new
    new_seat_episode create_episode new_episode transaction get_node list_nodes episodes_for_node
    allocated_episode_ids distinct researching_open_allocation_count open_in_state is_researching
    is_open_lease burned_lenses ancestry climb all_lenses own_lenses episode_operator_rows
    operator_rows_of operator_row state_of most_reopens open_allocation_for_episode created_before
    text_before chars_before show
descendant_refused = refl
