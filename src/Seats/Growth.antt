-- ===== src/Seats/Growth.antt =====
-- The growth branch of `_apply_supervisor_decision`, with the check of quiescence before it.
use simple_evolution.Prelude.{
  ℕ, String, Bool, true, false, not, ◌&&◌, ◌||◌, Option, none, List, [], ◌∷◌, any, length, map, ltb,
}
use simple_evolution.Json.{Json, text, dict, list}
use simple_evolution.Db.Rows.{
  Node, is_queued, is_open, proposer, experiment, integrator, is_open_request,
}
use simple_evolution.Db.State.{Db}
use simple_evolution.Db.Exec.{Exec, ◌>>=◌, ◌>>◌, raise_if, gets, premature_stop}
use simple_evolution.Lease.Allocate.{LeaseSpec}
use simple_evolution.Attempts.Marks.{running_of_kind}
use simple_evolution.Queries.Reads.{distinct, is_open_lease}
use simple_evolution.Queries.Lineage.{burned_lenses}
use simple_evolution.Supervisor.Commit.{Judgment, SupervisorCommit, commit_supervisor_decision}
use simple_evolution.Seats.Purchase.{
  SeatPurchase, SeatRules, is_dead, is_empty_basis, seat_purchases, seat_leases,
}

unfoldable pub work_in_flight : Db → Bool
unfolding running_of_kind is_open_lease
work_in_flight db =
    any (running_of_kind proposer) db.attempts
    || (any (running_of_kind experiment) db.attempts
        || (any (running_of_kind integrator) db.attempts
            || (any (λ p. is_queued p.status) db.proposals
                || (any is_open_lease db.proposer_allocations
                    || (any (λ e. is_open e.status) db.experiments
                        || any (λ r. is_open_request r.status) db.integration_requests)))))

-- A node that takes seats, and on which fewer lenses are burned than the basis has.
unfoldable pub has_untried : SeatRules → Db → Node → Bool
unfolding is_dead distinct
has_untried rules db n =
    not (is_dead n.status)
    && ltb (length (distinct (burned_lenses n.node_id db))) (length rules.basis)

unfoldable pub untried_seats_remain : SeatRules → Db → Bool
unfolding is_empty_basis has_untried
untried_seats_remain rules db =
    not (is_empty_basis rules.basis) && any (has_untried rules db) db.nodes

unfoldable pub no_purchases : List SeatPurchase → Bool
no_purchases [] = true
no_purchases (p ∷ ps) = false

unfoldable pub purchase_entry : SeatPurchase → Json
purchase_entry p = dict (("node_id", text p.node_id) ∷ ("lens", text p.lens) ∷ [])

unfoldable pub growth_judgment :
    String → String → ℕ → String → List SeatPurchase → List LeaseSpec → Judgment
unfolding purchase_entry
growth_judgment decision_id work_id cursor_to rationale ps leases = record {
  decision_id = decision_id;
  work_id = work_id;
  cursor_to = cursor_to;
  decision_kind = "growth";
  node_ids = map (λ p. p.node_id) ps;
  leases = leases;
  rationale = rationale;
  detail = ("seat_purchases", list (map purchase_entry ps)) ∷ [];
  max_proposals_per_node = none;
  integration_request = none;
  epoch_review = none;
}

-- The decision of a growth result, whose `seat_purchases` is `raw`.
unfoldable pub apply_growth :
    SeatRules → String → String → ℕ → String → Option Json → Exec SupervisorCommit
unfolding untried_seats_remain work_in_flight no_purchases growth_judgment
apply_growth rules decision_id work_id cursor_to rationale raw = do
  ps ← seat_purchases raw
  premature ←
      gets (λ db. no_purchases ps && (untried_seats_remain rules db && not (work_in_flight db)))
  raise_if premature premature_stop
  leases ← seat_leases rules ps
  commit_supervisor_decision (growth_judgment decision_id work_id cursor_to rationale ps leases)
