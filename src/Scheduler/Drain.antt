-- ===== src/Scheduler/Drain.antt =====
-- `_drain_executor_queue`: queued proposals become experiments, up to the capacity.
use simple_evolution.Prelude.{
  ℕ, ◌-◌, String, Option, none, some, List, [], leb, length, if◌then◌else◌,
}
use simple_evolution.Db.Rows.{
  Node, Proposal, ProposalStatus, Experiment, ExperimentStatus, experiment, AttemptStatus,
}
use simple_evolution.Db.Exec.{
  Exec, ◌>>=◌, ◌>>◌, pure, gets, modify, time, new_id, collect, transaction,
}
use simple_evolution.Db.Select.{get_node, get_proposal}
use simple_evolution.Db.Insert.{create_experiment}
use simple_evolution.Db.Update.{transition_proposal_status}
use simple_evolution.Attempts.Marks.{
  attempts_for_work, count_running_attempts, record_attempt, mark_experiment_running,
}
use simple_evolution.Queue.Bound.{enforce_bound, dequeue}
use simple_evolution.Supervisor.Requests.{link_integration_experiment}
use simple_evolution.Supervisor.Commit.{present}

-- The size of the queue and the limit on running experiments.
pub record DrainRules : Type 0 where
  pub max_size : ℕ
  pub max_experiment_inflight : ℕ

-- A job that is handed to the submitter.
pub record ExperimentJob : Type 0 where
  pub experiment_id : String
  pub proposal_id : String
  pub parent_node_id : String
  pub parent_sha : String
  pub instruction : String
  pub attempt_id : String
  pub attempt : ℕ

unfoldable pub start_experiment : Proposal → Exec Experiment
start_experiment p = transaction (do
  eid ← new_id
  x ← create_experiment eid p.proposal_id p.node_id ExperimentStatus.pending
  modify (transition_proposal_status p.proposal_id ProposalStatus.running)
  pure x)

unfoldable pub experiment_job : Proposal → Node → Exec (Option ExperimentJob)
unfolding start_experiment
experiment_job p n = do
  x ← start_experiment p
  link_integration_experiment p.proposal_id x.experiment_id
  now ← time
  t ← record_attempt x.experiment_id experiment AttemptStatus.running none none none (some now)
  ordinal ← gets (λ db. length (attempts_for_work x.experiment_id experiment db))
  mark_experiment_running x.experiment_id
  pure (
      some (record {
        experiment_id = x.experiment_id;
        proposal_id = p.proposal_id;
        parent_node_id = p.node_id;
        parent_sha = n.sha;
        instruction = p.instruction;
        attempt_id = t.attempt_id;
        attempt = ordinal;
      }))

unfoldable pub job_on : Proposal → Option Node → Exec (Option ExperimentJob)
unfolding experiment_job
job_on p none = pure none
job_on p (some n) = experiment_job p n

unfoldable pub job_for : Option Proposal → Exec (Option ExperimentJob)
unfolding job_on
job_for none = pure none
job_for (some p) = do node ← gets (get_node p.node_id); job_on p node

-- One round of the loop.
unfoldable pub drain_one : String → Exec (Option ExperimentJob)
unfolding job_for
drain_one proposal_id = do found ← gets (get_proposal proposal_id); job_for found

unfoldable pub drain_up_to : ℕ → Exec (List (Option ExperimentJob))
unfolding drain_one
drain_up_to capacity = do ids ← gets (dequeue capacity); collect ids drain_one

-- The capacity is max_experiment_inflight less the running attempts; none is left below one.
unfoldable pub submit_to_capacity : DrainRules → Exec (List ExperimentJob)
unfolding drain_up_to
submit_to_capacity rules = do
  running ← gets (count_running_attempts experiment)
  jobs ←
      (if leb rules.max_experiment_inflight running
        then pure []
        else drain_up_to (rules.max_experiment_inflight - running))
  pure (present jobs)

unfoldable pub drain_executor_queue : DrainRules → Exec (List ExperimentJob)
unfolding submit_to_capacity
drain_executor_queue rules = do _ ← enforce_bound rules.max_size; submit_to_capacity rules
