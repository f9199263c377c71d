-- ===== src/Attempts/Marks.antt =====
-- The attempts of the store: their rows, and the marks that the scheduler and the reconciler make.
use simple_evolution.Prelude.{
  ℕ, String, Bool, ◌&&◌, Option, some, List, [], ◌∷◌, ◌++◌, ◌==◌, string_eq, any, select, order_by,
  count, update, coalesce, ltb,
}
use simple_evolution.Db.Rows.{
  Attempt, AttemptKind, AttemptStatus, is_running, succeeded, failed, lost, same_kind, Experiment,
  ExperimentStatus, is_open,
}
use simple_evolution.Db.State.{Db}
use simple_evolution.Db.Exec.{
  Exec, ◌>>=◌, ◌>>◌, pure, raise_if, gets, modify, time, new_id, transaction, integrity_error,
}
use simple_evolution.Db.Insert.{new_attempt}
use simple_evolution.Db.Update.{update_attempt_status, set_experiment_status}

unfoldable pub is_for : String → AttemptKind → Attempt → Bool
is_for work kind a = a.logical_work_id == work && same_kind a.kind kind

-- ORDER BY created_at
unfoldable pub attempts_for_work : String → AttemptKind → Db → List Attempt
unfolding is_for
attempts_for_work work kind db =
    order_by (λ a b. ltb a.created_at b.created_at) (select (is_for work kind) db.attempts)

unfoldable pub running_of_kind : AttemptKind → Attempt → Bool
running_of_kind kind a = same_kind a.kind kind && is_running a.status

unfoldable pub running_attempts : AttemptKind → Db → List Attempt
unfolding running_of_kind
running_attempts kind db = select (running_of_kind kind) db.attempts

unfoldable pub count_running_attempts : AttemptKind → Db → ℕ
unfolding running_of_kind
count_running_attempts kind db = count (running_of_kind kind) db.attempts

unfoldable pub open_experiments : Db → List Experiment
open_experiments db = select (λ e. is_open e.status) db.experiments

-- An attempt is marked with the status at the present time.
unfoldable pub mark_attempt : AttemptStatus → String → Exec (Unit {0})
mark_attempt status attempt_id = do
  now ← time
  modify (update_attempt_status attempt_id status (some now))

unfoldable pub mark_experiment_infra_failed : String → String → Exec (Unit {0})
unfolding mark_attempt
mark_experiment_infra_failed experiment_id attempt_id = transaction (do
  mark_attempt failed attempt_id
  modify (set_experiment_status experiment_id ExperimentStatus.pending))

unfoldable pub mark_proposer_infra_failed : String → String → Exec (Unit {0})
unfolding mark_attempt
mark_proposer_infra_failed allocation_id attempt_id = transaction (mark_attempt failed attempt_id)

unfoldable pub mark_attempt_succeeded : String → Exec (Unit {0})
unfolding mark_attempt
mark_attempt_succeeded i = transaction (mark_attempt succeeded i)

unfoldable pub mark_attempt_failed : String → Exec (Unit {0})
unfolding mark_attempt
mark_attempt_failed i = transaction (mark_attempt failed i)

unfoldable pub mark_attempt_lost : String → Exec (Unit {0})
unfolding mark_attempt
mark_attempt_lost i = transaction (mark_attempt lost i)

unfoldable pub mark_experiment_running : String → Exec (Unit {0})
mark_experiment_running i = transaction (modify (set_experiment_status i ExperimentStatus.running))

-- UPDATE attempts SET status = 'lost', finished_at = now WHERE status = 'running'; cur.rowcount
unfoldable pub mark_running_attempts_lost : Exec ℕ
mark_running_attempts_lost = do
  now ← time
  transaction (do
    n ← gets (λ db. count (λ a. is_running a.status) db.attempts)
    modify (λ db. record db {
      attempts =
          update (λ a. is_running a.status)
            (λ a. record a { status = lost; finished_at = some now }) db.attempts;
    })
    pure n)

unfoldable pub record_attempt :
    String
    → AttemptKind
    → AttemptStatus
    → Option String
    → Option String
    → Option String
    → Option ℕ
    → Exec Attempt
record_attempt work kind status trace_ref artifact_ref host started = transaction (do
  now ← time
  aid ← new_id
  db ← gets (λ d. d)
  raise_if (any (λ a. a.attempt_id == aid) db.attempts) integrity_error
  let a = record (new_attempt aid work kind status started now) {
    trace_ref = trace_ref;
    artifact_ref = artifact_ref;
    host = host;
  }
  modify (λ d. record d { attempts = d.attempts ++ (a ∷ []) })
  pure a)

-- The status, and each value that is given.
unfoldable pub revised :
    AttemptStatus → Option String → Option String → Option String → Option ℕ → Attempt → Attempt
revised status trace_ref artifact_ref host finished a = record a {
  status = status;
  trace_ref = coalesce trace_ref a.trace_ref;
  artifact_ref = coalesce artifact_ref a.artifact_ref;
  host = coalesce host a.host;
  finished_at = coalesce finished a.finished_at;
}

-- update_attempt_status of the store, with every column it may set.
unfoldable pub revise_attempt :
    String
    → AttemptStatus
    → Option String
    → Option String
    → Option String
    → Option ℕ
    → Exec (Unit {0})
unfolding revised
revise_attempt i status trace_ref artifact_ref host finished = transaction (
    modify λ db. record db {
      attempts =
          update (λ a. a.attempt_id == i) (revised status trace_ref artifact_ref host finished)
            db.attempts;
    })
