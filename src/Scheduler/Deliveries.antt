-- ===== src/Scheduler/Deliveries.antt =====
-- `_resolve_delivery_experiment` and `_reopen_or_conclude`: the outcome of a delivery goes back to
-- its lease.
use simple_evolution.Prelude.{
  ℕ, String, Bool, true, false, ◌&&◌, Option, none, some, string_eq, if◌then◌else◌,
}
use simple_evolution.Json.{Json, null, text, object, lookup, get_field}
use simple_evolution.Db.Rows.{
  Experiment, ExperimentStatus, gate_rejected, no_change, is_completed, ProposerAllocation,
  GateDecision, delivered, cut_off, rejected,
}
use simple_evolution.Db.State.{Db}
use simple_evolution.Db.Exec.{Exec, ◌>>=◌, pure, gets}
use simple_evolution.Db.Select.{get_experiment, get_proposal}
use simple_evolution.Lease.Conclude.{conclude_lease}
use simple_evolution.Lease.Adjudicate.{record_lease_adjudication, graduate_delivered_evidence}
use simple_evolution.Queries.Reads.{open_allocation_for_episode}

-- What the scheduler knows: the limit on reopens, whether it is capped, and whether the wall time
-- or the spend of a lease is used up.
pub record LeaseRules : Type 0 where
  pub max_lease_reopens : ℕ
  pub allocation_disabled : Bool
  pub budget_exhausted : ProposerAllocation → Bool

-- delivery.get("world_sha") if isinstance(delivery, dict) else None; a delivery holds it as a text
unfoldable pub sha_of : Option Json → Option String
sha_of (some (object fs)) = elim (get_field "world_sha" fs) [ some (text s) ↦ some s | _ ↦ none ]
sha_of _ = none

unfoldable pub delivery_world_sha : Experiment → Db → Option String
unfolding sha_of
delivery_world_sha x db = elim (get_proposal x.proposal_id db) [
  | none ↦ none
  | some p ↦ sha_of (lookup "delivery" p.rationale)
]

-- self._proposal_episode_id(proposal_id) or ""
unfoldable pub proposal_episode_id : String → Db → String
proposal_episode_id i db = elim (get_proposal i db) [ none ↦ "" | some p ↦ p.episode_id ]

unfoldable pub conclude_if_used_up : String → Bool → Exec (Unit {0})
conclude_if_used_up i true = pure tt
conclude_if_used_up i false = conclude_lease i rejected (text "reopen budget exhausted") null

unfoldable pub reopen_or_conclude :
    LeaseRules → ProposerAllocation → String → GateDecision → Exec (Unit {0})
unfolding conclude_if_used_up
reopen_or_conclude rules a experiment_id gate =
    if rules.allocation_disabled
    then pure tt
    else if rules.budget_exhausted a
    then conclude_lease a.allocation_id cut_off
        (text "lease budget exhausted at adjudication write-back") null
    else (do
      reopened ←
          record_lease_adjudication a.allocation_id experiment_id gate none rules.max_lease_reopens
      conclude_if_used_up a.allocation_id reopened)

-- status in {"gate_rejected", "no_change"}
unfoldable pub is_rejection : ExperimentStatus → Bool
is_rejection gate_rejected = true
is_rejection no_change = true
is_rejection _ = false

unfoldable pub deliver_pass : ProposerAllocation → String → Exec (Unit {0})
deliver_pass a sha = do
  _ ← graduate_delivered_evidence a.episode_id sha
  conclude_lease a.allocation_id delivered null (text sha)

unfoldable pub settle_delivery :
    LeaseRules
    → ProposerAllocation
    → String
    → String
    → ExperimentStatus
    → GateDecision
    → Exec (Unit {0})
unfolding deliver_pass reopen_or_conclude is_rejection
settle_delivery rules a sha experiment_id status gate =
    if is_completed status && gate.passed
    then deliver_pass a sha
    else if is_rejection status
    then reopen_or_conclude rules a experiment_id gate
    else pure tt

-- The lease and the world that an experiment adjudicates, if it does.
unfoldable pub delivery_of : String → Db → Option (ProposerAllocation × String)
unfolding delivery_world_sha proposal_episode_id
delivery_of experiment_id db = elim (get_experiment experiment_id db) [
  | none ↦ none
  | some x ↦ elim (delivery_world_sha x db) [
    | none ↦ none
    | some sha ↦ elim (open_allocation_for_episode (proposal_episode_id x.proposal_id db) db) [
      | none ↦ none
      | some a ↦ some (a, sha)
    ]
  ]
]

unfoldable pub settle_if_delivery :
    LeaseRules
    → String
    → ExperimentStatus
    → GateDecision
    → Option (ProposerAllocation × String)
    → Exec (Unit {0})
unfolding settle_delivery
settle_if_delivery rules experiment_id status gate none = pure tt
settle_if_delivery rules experiment_id status gate (some (a, sha)) =
    settle_delivery rules a sha experiment_id status gate

unfoldable pub resolve_delivery_experiment :
    LeaseRules → String → ExperimentStatus → GateDecision → Exec (Unit {0})
unfolding delivery_of settle_if_delivery
resolve_delivery_experiment rules experiment_id status gate = do
  found ← gets (delivery_of experiment_id)
  settle_if_delivery rules experiment_id status gate found
