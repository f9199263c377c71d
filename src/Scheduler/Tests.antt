-- ===== src/Scheduler/Tests.antt =====
-- A rejected delivery goes back to its lease, and the seat is launched again, once; the queue drains.
use simple_evolution.Prelude.{
  String, length, suc, false, ◌≡◌, ◌≤◌, refl, none, some, [], ◌∷◌, arith,
}
use simple_evolution.Text.{show}
use simple_evolution.Json.{text, dict}
use simple_evolution.Db.Rows.{
  Proposal, queued, experiment, running, Experiment, ProposerAllocation, awaiting_adjudication,
  reopen, gate_rejected, completed, GateDecision,
}
use simple_evolution.Db.State.{World}
use simple_evolution.Db.Exec.{done, after, transaction}
use simple_evolution.Scheduler.Admission.{RawRequest, validate_integration_request}
use simple_evolution.Scheduler.AdmissionLaws.{admissible, accepts, validate-admissible}
use simple_evolution.Scheduler.Deliveries.{
  LeaseRules, resolve_delivery_experiment, is_rejection, conclude_if_used_up, deliver_pass,
  delivery_of, delivery_world_sha, proposal_episode_id, reopen_or_conclude, settle_delivery,
  settle_if_delivery, sha_of,
}
use simple_evolution.Scheduler.DeliveryLaws.{InState, resolve-InState}
use simple_evolution.Scheduler.Resubmit.{resubmit_proposer, launch, must_wait, relaunch, wake}
use simple_evolution.Scheduler.ResubmitLaws.{running_seats, resubmit-running_seats}
use simple_evolution.Db.Select.{get_allocation, get_episode, get_experiment, get_node, get_proposal}
use simple_evolution.Db.Update.{
  update_allocations, set_experiment_status, transition_proposal_status,
}
use simple_evolution.Db.Insert.{insert_scheduler_event, new_attempt, create_experiment}
use simple_evolution.Attempts.Marks.{
  attempts_for_work, count_running_attempts, is_for, record_attempt, mark_experiment_running,
  running_of_kind,
}
use simple_evolution.Lease.Adjudicate.{
  adjudicate_on_tx, adjudication_payload, cannot_reopen, gate_rows, is_reopened, reactivate,
  reactivate_lease, record_lease_adjudication, send_back,
}
use simple_evolution.Queries.Reads.{is_open_lease, open_allocation_for_episode}
use simple_evolution.Scheduler.Drain.{
  DrainRules, drain_executor_queue, drain_one, drain_up_to, experiment_job, job_for, job_on,
  start_experiment, submit_to_capacity,
}
use simple_evolution.Scheduler.DrainLaws.{drain-bound}
use simple_evolution.Queue.Bound.{
  dequeue, enforce_bound, limited, overflow, overflow_all, queued_proposals,
}
use simple_evolution.Supervisor.Requests.{link_integration_experiment}
use simple_evolution.Samples.{open_gate, open_lease, closed_lease, small_db, world}

abbrev sha : String
sha = "9123456789012345678901234567890123456789"

abbrev delivery : Proposal
delivery = record {
  proposal_id = "p1";
  node_id = "n0";
  episode_id = "e1";
  instruction = "";
  rationale = ("delivery", dict (("world_sha", text sha) ∷ [])) ∷ [];
  status = running;
  created_at = 3;
  research_state_id = none;
  research_operation = none;
  donor_experiment_ids = [];
}

abbrev adjudication : Experiment
adjudication = record {
  experiment_id = "x1";
  proposal_id = "p1";
  parent_node_id = "n0";
  result_sha = none;
  metrics = [];
  gate_result = open_gate;
  status = completed;
  changed_paths = [];
  child_node_id = some "n1";
  created_at = 4;
}

abbrev parked : ProposerAllocation
parked = record open_lease { state = some awaiting_adjudication }

abbrev start : World
start = world (record small_db {
  proposals = delivery ∷ [];
  experiments = adjudication ∷ [];
  proposer_allocations = parked ∷ closed_lease ∷ [];
})

abbrev rules : LeaseRules
rules = record { max_lease_reopens = 2; allocation_disabled = false; budget_exhausted = λ a. false }

abbrev closed_gate : GateDecision
closed_gate = record { results = []; passed = false }

abbrev written_back : World
written_back = after (resolve_delivery_experiment rules "x1" gate_rejected closed_gate start)

resolve_returns :
    resolve_delivery_experiment rules "x1" gate_rejected closed_gate start ≡ done tt written_back
unfolding resolve_delivery_experiment settle_if_delivery settle_delivery delivery_of
    delivery_world_sha sha_of proposal_episode_id deliver_pass reopen_or_conclude
    conclude_if_used_up is_rejection record_lease_adjudication adjudicate_on_tx cannot_reopen
    send_back adjudication_payload gate_rows update_allocations insert_scheduler_event transaction
    get_experiment get_proposal get_allocation open_allocation_for_episode is_open_lease show
resolve_returns = refl

resolve-InState_example : InState "a1" reopen written_back
unfolding resolve_delivery_experiment settle_if_delivery settle_delivery delivery_of
    delivery_world_sha sha_of proposal_episode_id deliver_pass reopen_or_conclude
    conclude_if_used_up is_rejection record_lease_adjudication adjudicate_on_tx cannot_reopen
    send_back adjudication_payload gate_rows update_allocations insert_scheduler_event transaction
    get_experiment get_proposal get_allocation open_allocation_for_episode is_open_lease show
resolve-InState_example =
    resolve-InState rules "x1" gate_rejected closed_gate parked sha start written_back refl refl
      refl refl refl refl resolve_returns

abbrev launched : World
launched = after (resubmit_proposer "a1" written_back)

-- The reopened seat gets its job; asked again, it is left to its running attempt.
launches_once : resubmit_proposer "a1" launched ≡ done none launched
unfolding resolve_delivery_experiment settle_if_delivery settle_delivery delivery_of
    delivery_world_sha sha_of proposal_episode_id deliver_pass reopen_or_conclude
    conclude_if_used_up is_rejection record_lease_adjudication adjudicate_on_tx cannot_reopen
    send_back adjudication_payload gate_rows update_allocations insert_scheduler_event transaction
    get_experiment get_proposal get_allocation open_allocation_for_episode is_open_lease show
    resubmit_proposer relaunch launch wake must_wait reactivate_lease reactivate is_reopened
    record_attempt new_attempt attempts_for_work is_for get_node get_episode
launches_once = refl

resubmit-running_seats_example : running_seats "a1" launched ≤ 1
unfolding resolve_delivery_experiment settle_if_delivery settle_delivery delivery_of
    delivery_world_sha sha_of proposal_episode_id deliver_pass reopen_or_conclude
    conclude_if_used_up is_rejection record_lease_adjudication adjudicate_on_tx cannot_reopen
    send_back adjudication_payload gate_rows update_allocations insert_scheduler_event transaction
    get_experiment get_proposal get_allocation open_allocation_for_episode is_open_lease show
resubmit-running_seats_example = resubmit-running_seats "a1" written_back (ground arith)

abbrev raw : RawRequest
raw = record {
  integration_request_id = " ir-1 ";
  target_node_id = "n0";
  selection_rationale = "it is faster";
  donor_experiment_ids = "x1" ∷ [];
}

validate-admissible_example :
    (accepts (validate_integration_request "ep1" raw start) ≡ admissible raw start.db)
    × (after (validate_integration_request "ep1" raw start) ≡ start)
validate-admissible_example = validate-admissible "ep1" raw start

abbrev limits : DrainRules
limits = record { max_size = 8; max_experiment_inflight = 1 }

abbrev two_queued : World
two_queued = world (record small_db {
  proposals =
      record delivery { status = queued }
      ∷ record delivery { proposal_id = "p2"; status = queued }
      ∷ [];
})

-- One of the two starts: there is room for one.
one_starts :
    length (after (drain_executor_queue limits two_queued)).experiments
    ≡ suc (length two_queued.experiments)
unfolding drain_executor_queue submit_to_capacity drain_up_to drain_one job_for job_on
    experiment_job start_experiment count_running_attempts enforce_bound overflow_all overflow
    dequeue queued_proposals limited create_experiment transition_proposal_status
    mark_experiment_running set_experiment_status link_integration_experiment record_attempt
    attempts_for_work is_for transaction get_node get_proposal running_of_kind new_attempt
one_starts = refl

drain-bound_example :
    count_running_attempts experiment (after (drain_executor_queue limits two_queued)).db ≤ 1
unfolding count_running_attempts running_of_kind
drain-bound_example = drain-bound limits two_queued (ground arith)
