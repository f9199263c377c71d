-- ===== src/Attempts/Reconcile.antt =====
-- simpleevo/scheduler/reconcile.py. The files under the artifact root and the job scheduler are
-- parameters.
use simple_evolution.Prelude.{
  String, ◌<>◌, Bool, true, false, ◌&&◌, ◌||◌, Option, none, some, List, ◌++◌, ◌==◌, string_eq, map,
  select, last?, is_none, if◌then◌else◌,
}
use simple_evolution.Db.Rows.{
  Attempt, AttemptKind, proposer, experiment, supervisor, integrator, is_running,
  ProposerAllocation, LeaseState, awaiting_adjudication,
}
use simple_evolution.Db.State.{Db}
use simple_evolution.Db.Exec.{Error, Exec, ◌>>=◌, ◌>>◌, pure, raise, gets, collect}
use simple_evolution.Attempts.Marks.{
  attempts_for_work, running_attempts, open_experiments, mark_experiment_infra_failed,
  mark_proposer_infra_failed, mark_attempt_failed,
}

pub data ActionKind : Type 0 where
  ingest_result reattach_or_wait : ActionKind

pub record ReconcileAction : Type 0 where
  pub kind : ActionKind
  pub logical_work_id : String
  pub work_kind : AttemptKind
  pub attempt_id : Option String
  pub reason : String

-- The submitter: what a probe of a job says, `none` where it raises, and what a removal raises, if
-- it does.
pub record Submitter : Type 0 where
  pub probe_job : String → AttemptKind → Option String
  pub remove_job : String → AttemptKind → Option Error

-- The reconciler: whether a path exists, the artifact root and the submitter.
pub record Reconciler : Type 0 where
  pub exists : String → Bool
  pub artifact_root : String
  pub submitter : Option Submitter

unfoldable pub directory_of : AttemptKind → String
directory_of proposer = "proposer_allocations"
directory_of experiment = "experiments"
directory_of supervisor = "supervisor_decisions"
directory_of integrator = "integration_requests"

unfoldable pub result_path : Reconciler → AttemptKind → String → String
unfolding directory_of
result_path r k i = r.artifact_root <> ("/" <> (directory_of k <> ("/" <> (i <> "/result.json"))))

unfoldable pub kind_name : AttemptKind → String
kind_name proposer = "proposer"
kind_name experiment = "experiment"
kind_name supervisor = "supervisor"
kind_name integrator = "integrator"

-- The name of the kind in the reason for an ingest, where an integrator's has a capital.
unfoldable pub file_owner : AttemptKind → String
file_owner integrator = "Integrator"
file_owner proposer = "proposer"
file_owner experiment = "experiment"
file_owner supervisor = "supervisor"

unfoldable pub probed : Option String → String
probed none = "unknown"
probed (some s) = s

unfoldable pub probe : Option Submitter → String → AttemptKind → String
unfolding probed
probe none i k = "unknown"
probe (some s) i k = probed (s.probe_job i k)

-- probe in ("held", "gone")
unfoldable pub held_or_gone : String → Bool
held_or_gone p = p == "held" || p == "gone"

unfoldable pub mark_failed : AttemptKind → String → String → Exec (Unit {0})
mark_failed proposer i attempt_id = mark_proposer_infra_failed i attempt_id
mark_failed experiment i attempt_id = mark_experiment_infra_failed i attempt_id
mark_failed supervisor i attempt_id = mark_attempt_failed attempt_id
mark_failed integrator i attempt_id = mark_attempt_failed attempt_id

unfoldable pub mark_last : AttemptKind → String → Option Attempt → Exec (Unit {0})
unfolding mark_failed
mark_last k i none = pure tt
mark_last k i (some a) = mark_failed k i a.attempt_id

-- running[-1], if there is one.
unfoldable pub last_running : String → AttemptKind → Db → Option Attempt
last_running i k db = last? (select (λ a. is_running a.status) (attempts_for_work i k db))

unfoldable pub mark_infra_failed : String → AttemptKind → Exec (Unit {0})
unfolding last_running mark_last
mark_infra_failed i k = do attempt ← gets (last_running i k); mark_last k i attempt

unfoldable pub raise_some : Option Error → Exec (Unit {0})
raise_some none = pure tt
raise_some (some e) = raise e

unfoldable pub remove_job : Option Submitter → String → AttemptKind → Exec (Unit {0})
unfolding raise_some
remove_job none i k = pure tt
remove_job (some s) i k = raise_some (s.remove_job i k)

unfoldable pub wait_reason : String → AttemptKind → String
unfolding kind_name held_or_gone
wait_reason p k =
    if held_or_gone p
    then kind_name k <> (" job " <> (p <> ": marked infra-failed for retry"))
    else "result file not yet present"

unfoldable pub wait_action : String → AttemptKind → String → ReconcileAction
unfolding wait_reason
wait_action i k p = record {
  kind = reattach_or_wait;
  logical_work_id = i;
  work_kind = k;
  attempt_id = none;
  reason = wait_reason p k;
}

unfoldable pub retry : Option Submitter → String → AttemptKind → Exec (Unit {0})
unfolding remove_job mark_infra_failed
retry s i k = do remove_job s i k; mark_infra_failed i k

unfoldable pub wait_or_retry : Option Submitter → String → AttemptKind → Exec ReconcileAction
unfolding probe held_or_gone retry wait_action
wait_or_retry s i k = do
  if held_or_gone (probe s i k) then retry s i k else pure tt
  pure (wait_action i k (probe s i k))

unfoldable pub ingest_action : Reconciler → AttemptKind → String → ReconcileAction
unfolding file_owner result_path
ingest_action r k i = record {
  kind = ingest_result;
  logical_work_id = i;
  work_kind = k;
  attempt_id = none;
  reason = file_owner k <> (" result file exists: " <> result_path r k i);
}

-- One round of each of the four loops.
unfoldable pub offer : Reconciler → AttemptKind → String → Exec ReconcileAction
unfolding result_path ingest_action wait_or_retry
offer r k i =
    if r.exists (result_path r k i)
    then pure (ingest_action r k i)
    else wait_or_retry r.submitter i k

-- COALESCE(state, 'researching') != 'awaiting_adjudication'
unfoldable pub not_parked : Option LeaseState → Bool
not_parked (some awaiting_adjudication) = false
not_parked _ = true

unfoldable pub open_leases : Db → List ProposerAllocation
unfolding not_parked
open_leases db = select (λ a. is_none a.finished_at && not_parked a.state) db.proposer_allocations

unfoldable pub reconcile_proposers : Reconciler → Exec (List ReconcileAction)
unfolding open_leases offer
reconcile_proposers r = do
  ids ← gets (λ db. map (λ a. a.allocation_id) (open_leases db))
  collect ids (offer r proposer)

unfoldable pub reconcile_experiments : Reconciler → Exec (List ReconcileAction)
unfolding open_experiments offer
reconcile_experiments r = do
  ids ← gets (λ db. map (λ e. e.experiment_id) (open_experiments db))
  collect ids (offer r experiment)

unfoldable pub reconcile_supervisor : Reconciler → Exec (List ReconcileAction)
unfolding running_attempts offer
reconcile_supervisor r = do
  ids ← gets (λ db. map (λ a. a.logical_work_id) (running_attempts supervisor db))
  collect ids (offer r supervisor)

unfoldable pub reconcile_integrator : Reconciler → Exec (List ReconcileAction)
unfolding running_attempts offer
reconcile_integrator r = do
  ids ← gets (λ db. map (λ a. a.logical_work_id) (running_attempts integrator db))
  collect ids (offer r integrator)

unfoldable pub reconcile : Reconciler → Exec (List ReconcileAction)
unfolding reconcile_proposers reconcile_experiments reconcile_supervisor reconcile_integrator
reconcile r = do
  leases ← reconcile_proposers r
  experiments ← reconcile_experiments r
  decisions ← reconcile_supervisor r
  requests ← reconcile_integrator r
  pure (leases ++ (experiments ++ (decisions ++ requests)))
