-- ===== src/Attempts/Tests.antt =====
-- A pass of the reconciler over a small store: a held proposer job, a parked lease, an experiment
-- whose result is there, and a supervisor at work.
use simple_evolution.Prelude.{
  String, true, ◌≡◌, ◌<◌, refl, ap, sym, Option, none, some, List, [], ◌∷◌, ◌++◌, map, all, count,
  ◌==◌, string_eq, if◌then◌else◌,
}
use simple_evolution.Db.Rows.{
  Attempt, AttemptKind, AttemptStatus, proposer, experiment, supervisor, is_running,
  ProposerAllocation, awaiting_adjudication, Experiment, ExperimentStatus,
}
use simple_evolution.Db.State.{World}
use simple_evolution.Db.Exec.{Error, done, after}
use simple_evolution.Attempts.Marks.{mark_running_attempts_lost, is_for}
use simple_evolution.Attempts.Reconcile.{
  Reconciler, ReconcileAction, Submitter, reconcile, offer, wait_action, probe, probed,
  held_or_gone, result_path, directory_of,
}
use simple_evolution.Attempts.MarksLaws.{mark_running_attempts_lost_lem}
use simple_evolution.Attempts.Conserves.{findings}
use simple_evolution.Attempts.ReconcileLaws.{reconcile-findings}
use simple_evolution.Attempts.Offers.{
  Removes, answer, lease_ids, experiment_ids, is_agent, reconcile-offers,
}
use simple_evolution.Attempts.Frees.{runs, offer-frees}
use simple_evolution.Samples.{open_gate, open_lease, closed_lease, small_db, world}

abbrev attempt : String → String → AttemptKind → Attempt
attempt i work kind = record {
  attempt_id = i;
  logical_work_id = work;
  kind = kind;
  status = AttemptStatus.running;
  trace_ref = none;
  artifact_ref = none;
  host = none;
  started_at = some 3;
  finished_at = none;
  created_at = 3;
}

abbrev parked : ProposerAllocation
parked = record open_lease { allocation_id = "a3"; state = some awaiting_adjudication }

abbrev started : Experiment
started = record {
  experiment_id = "x1";
  proposal_id = "p1";
  parent_node_id = "n0";
  result_sha = none;
  metrics = [];
  gate_result = open_gate;
  status = ExperimentStatus.running;
  changed_paths = [];
  child_node_id = none;
  created_at = 4;
}

abbrev start : World
start = world (record small_db {
  proposer_allocations = open_lease ∷ closed_lease ∷ parked ∷ [];
  experiments = started ∷ [];
  attempts =
      attempt "t1" "a1" proposer ∷ attempt "t2" "x1" experiment ∷ attempt "t3" "d1" supervisor ∷ [];
})

abbrev cluster : Submitter
cluster = record {
  probe_job = λ i k. if i == "a1" then some "held" else none;
  remove_job = λ i k. none;
}

abbrev reconciler : Reconciler
reconciler = record {
  exists = λ p. p == "run/experiments/x1/result.json";
  artifact_root = "run";
  submitter = some cluster;
}

abbrev raises : String → AttemptKind → Option Submitter → Option Error
raises i k none = none
raises i k (some s) = s.remove_job i k

cluster-Removes : Removes reconciler
cluster-Removes s h i k = sym (ap (raises i k) h)

mark_lost_example :
    (v : World) × (mark_running_attempts_lost start ≡ done 3 v)
    × (count (λ a. is_running a.status) v.attempts ≡ 0)
    × (map (λ a. a.attempt_id) v.attempts ≡ "t1" ∷ "t2" ∷ "t3" ∷ [])
mark_lost_example = mark_running_attempts_lost_lem start

reconcile-findings_example : findings (after (reconcile reconciler start)).db ≡ findings start.db
reconcile-findings_example = reconcile-findings reconciler start refl

reconcile-offers_example :
    (v : World) × (rest : List ReconcileAction) × (reconcile reconciler start
      ≡ done
          (map (answer reconciler proposer) (lease_ids start.db)
            ++ (map (answer reconciler experiment) (experiment_ids start.db) ++ rest))
          v)
    × (all is_agent rest ≡ true)
reconcile-offers_example = reconcile-offers reconciler cluster-Removes start

offer-frees_example :
    (v : World) × (offer reconciler proposer "a1" start
      ≡ done (wait_action "a1" proposer (probe reconciler.submitter "a1" proposer)) v)
    × (count (runs "a1" proposer) v.attempts < count (runs "a1" proposer) start.attempts)
unfolding result_path directory_of probe probed held_or_gone is_for
offer-frees_example = offer-frees reconciler cluster-Removes "a1" proposer start refl refl refl
