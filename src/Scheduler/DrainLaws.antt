-- ===== src/Scheduler/DrainLaws.antt =====
-- Draining the queue keeps the running experiments within their limit.
use simple_evolution.Prelude.{
  ℕ, zero, suc, ◌+◌, ◌-◌, ◌≤◌, String, Bool, true, false, ◌≡◌, refl, sym, subst, Option, none, some,
  List, [], ◌∷◌, count, length, map, take, leb, arith, if◌then◌else◌,
}
use simple_evolution.Db.Rows.{Node, Proposal, experiment, Attempt}
use simple_evolution.Db.State.{World}
use simple_evolution.Db.Exec.{Outcome, done, raised, and_then, pure, after, transaction}
use simple_evolution.Db.Insert.{create_experiment}
use simple_evolution.Db.Update.{transition_proposal_status, set_experiment_status}
use simple_evolution.Attempts.Marks.{
  running_of_kind, count_running_attempts, mark_experiment_running,
}
use simple_evolution.Attempts.Starts.{
  Starts, Starts-quiet, Starts-none, Starts-after, Starts-pure, Starts-collect, start_rules,
}
use simple_evolution.Queue.Bound.{
  enforce_bound, overflow, overflow_all, dequeue, queued_proposals, limited,
}
use simple_evolution.Supervisor.Requests.{link_integration_experiment}
use simple_evolution.Supervisor.Commit.{present}
use simple_evolution.Scheduler.Drain.{
  DrainRules, ExperimentJob, start_experiment, experiment_job, job_on, job_for, drain_one,
  drain_up_to, submit_to_capacity, drain_executor_queue,
}

abbrev runs_experiment : Attempt → Bool
runs_experiment = running_of_kind experiment

Starts-overflow : (p : Proposal) → Starts runs_experiment 0 (overflow p)
unfolding overflow transition_proposal_status transaction
Starts-overflow p = Starts-quiet runs_experiment _ λ w. refl

Starts-overflow_all : (ps : List Proposal) → Starts runs_experiment 0 (overflow_all ps)
unfolding overflow_all
Starts-overflow_all [] = Starts-pure runs_experiment 0
Starts-overflow_all (p ∷ ps) = Starts-after runs_experiment 0 (Starts-overflow p) λ _.
    Starts-after runs_experiment 0 (Starts-overflow_all ps) λ n. Starts-pure runs_experiment (n + 1)

Starts-enforce_bound : (n : ℕ) → Starts runs_experiment 0 (enforce_bound n)
unfolding enforce_bound
Starts-enforce_bound n = search (start_rules, Starts-overflow_all) depth 20

Starts-start_experiment : (p : Proposal) → Starts runs_experiment 0 (start_experiment p)
unfolding start_experiment create_experiment transition_proposal_status transaction
Starts-start_experiment p = Starts-quiet runs_experiment _ λ w. ground arith

Starts-link : (p x : String) → Starts runs_experiment 0 (link_integration_experiment p x)
unfolding link_integration_experiment transaction
Starts-link p x = Starts-quiet runs_experiment _ λ w. ground arith

Starts-mark : (x : String) → Starts runs_experiment 0 (mark_experiment_running x)
unfolding mark_experiment_running set_experiment_status transaction
Starts-mark x = Starts-quiet runs_experiment _ λ w. ground arith

Starts-experiment_job : (p : Proposal) (n : Node) → Starts runs_experiment 1 (experiment_job p n)
unfolding experiment_job
Starts-experiment_job p n =
    search (start_rules, Starts-start_experiment, Starts-link, Starts-mark) depth 20

Starts-job_on : (p : Proposal) (o : Option Node) → Starts runs_experiment 1 (job_on p o)
unfolding job_on
Starts-job_on p none = Starts-none runs_experiment 1 _ (Starts-pure runs_experiment none)
Starts-job_on p (some n) = Starts-experiment_job p n

Starts-job_for : (o : Option Proposal) → Starts runs_experiment 1 (job_for o)
unfolding job_for
Starts-job_for none = Starts-none runs_experiment 1 _ (Starts-pure runs_experiment none)
Starts-job_for (some p) = search (start_rules, Starts-job_on) depth 20

Starts-drain_one : (i : String) → Starts runs_experiment 1 (drain_one i)
unfolding drain_one
Starts-drain_one i = search (start_rules, Starts-job_for) depth 20

length-take : (n : ℕ) (ps : List Proposal) → length (map (λ p. p.proposal_id) (take n ps)) ≤ n
length-take zero ps = omega arith
length-take (suc n) [] = omega arith
length-take (suc n) (p ∷ ps) = ground (arith, length-take n ps)

drain_up_to-bound :
    (n : ℕ) (w : World)
    → count runs_experiment (after (drain_up_to n w)).attempts
      ≤ n + count runs_experiment w.attempts
unfolding drain_up_to dequeue queued_proposals limited
drain_up_to-bound n w = omega (
  arith,
  (Starts-collect runs_experiment (dequeue n w.db) drain_one Starts-drain_one).at w,
  length-take n (queued_proposals none w.db),
)

after-present :
    (o : Outcome (List (Option ExperimentJob)))
    → after (and_then o (λ jobs. pure (present jobs))) ≡ after o
after-present (done a u) = refl
after-present (raised e u) = refl

capacity-bound :
    (m : ℕ) (u : World) (b : Bool)
    → leb m (count_running_attempts experiment u.db) ≡ b
    → count_running_attempts experiment u.db ≤ m
    → count runs_experiment
        (after (
          (if b then pure [] else drain_up_to (m - count_running_attempts experiment u.db))
            u)).attempts
      ≤ m
unfolding count_running_attempts
capacity-bound m u true e h = h
capacity-bound m u false e h =
    omega (arith, h, drain_up_to-bound (m - count runs_experiment u.attempts) u)

submit-bound :
    (rules : DrainRules) (u : World)
    → count runs_experiment u.attempts ≤ rules.max_experiment_inflight
    → count runs_experiment (after (submit_to_capacity rules u)).attempts
      ≤ rules.max_experiment_inflight
unfolding submit_to_capacity count_running_attempts
submit-bound rules u h =
    let jobs : Outcome (List (Option ExperimentJob)) =
      (if leb rules.max_experiment_inflight (count runs_experiment u.attempts)
          then pure []
          else drain_up_to (rules.max_experiment_inflight - count runs_experiment u.attempts))
        u in
    let bound : count runs_experiment (after jobs).attempts ≤ rules.max_experiment_inflight =
      capacity-bound rules.max_experiment_inflight u _ refl h in
    subst (λ v. count runs_experiment v.attempts ≤ rules.max_experiment_inflight)
      (sym (after-present jobs)) bound

-- A call of _drain_executor_queue, whether it returns or raises, leaves no more experiments
-- running than max_experiment_inflight, if no more were.
pub drain-bound :
    (rules : DrainRules) (w : World)
    → count_running_attempts experiment w.db ≤ rules.max_experiment_inflight
    → count_running_attempts experiment (after (drain_executor_queue rules w)).db
      ≤ rules.max_experiment_inflight
unfolding drain_executor_queue count_running_attempts
drain-bound rules w h =
    go (enforce_bound rules.max_size w) ((Starts-enforce_bound rules.max_size).at w)
  where
    go :
        (o : Outcome ℕ)
        → count runs_experiment (after o).attempts ≤ 0 + count runs_experiment w.attempts
        → count runs_experiment (after (and_then o (λ _. submit_to_capacity rules))).attempts
          ≤ rules.max_experiment_inflight
    go (raised e u) k = omega (arith, h, k)
    go (done a u) k = submit-bound rules u (omega (arith, h, k))
