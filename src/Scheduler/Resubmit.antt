-- ===== src/Scheduler/Resubmit.antt =====
-- `_resubmit_proposer` and `_submit_pending_reopens`: a seat without a running attempt gets one.
use simple_evolution.Prelude.{
  ℕ, String, Bool, false, ◌||◌, Option, none, some, List, [], any, map, is_none, length,
  if◌then◌else◌,
}
use simple_evolution.Db.Rows.{AttemptStatus, is_running, proposer, ProposerAllocation}
use simple_evolution.Db.State.{Db}
use simple_evolution.Db.Exec.{Exec, ◌>>=◌, pure, gets, time, collect}
use simple_evolution.Db.Select.{get_allocation, get_node, get_episode}
use simple_evolution.Lease.Adjudicate.{is_awaiting, is_reopen, reactivate_lease}
use simple_evolution.Attempts.Marks.{attempts_for_work, record_attempt}
use simple_evolution.Queries.Reads.{reopen_allocations}

-- A job that is handed to the submitter: the lease, its attempt and the number of the attempt.
pub record SeatJob : Type 0 where
  pub allocation_id : String
  pub proposal_ids : List String
  pub attempt_id : String
  pub attempt : ℕ

-- The lease waits for its adjudication, an attempt of it runs, or its node or episode is gone.
unfoldable pub must_wait : ProposerAllocation → Db → Bool
must_wait a db =
    is_awaiting a.state
    || (any (λ t. is_running t.status) (attempts_for_work a.allocation_id proposer db)
        || (is_none (get_node a.node_id db) || is_none (get_episode a.episode_id db)))

unfoldable pub wake : ProposerAllocation → Exec Bool
wake a = if is_reopen a.state then reactivate_lease a.allocation_id else pure false

unfoldable pub launch : ProposerAllocation → Exec (Option SeatJob)
unfolding wake
launch a = do
  _ ← wake a
  now ← time
  t ← record_attempt a.allocation_id proposer AttemptStatus.running none none none (some now)
  ordinal ← gets (λ db. length (attempts_for_work a.allocation_id proposer db))
  pure (
      some (record {
        allocation_id = a.allocation_id;
        proposal_ids = a.reserved_proposal_ids;
        attempt_id = t.attempt_id;
        attempt = ordinal;
      }))

unfoldable pub relaunch : Option ProposerAllocation → Exec (Option SeatJob)
unfolding must_wait launch
relaunch none = pure none
relaunch (some a) = do waits ← gets (must_wait a); if waits then pure none else launch a

unfoldable pub resubmit_proposer : String → Exec (Option SeatJob)
unfolding relaunch
resubmit_proposer allocation_id = do found ← gets (get_allocation allocation_id); relaunch found

unfoldable pub submit_pending_reopens : Bool → Exec (List (Option SeatJob))
unfolding resubmit_proposer
submit_pending_reopens disabled = if disabled then pure [] else (do
  ids ← gets (λ db. map (λ a. a.allocation_id) (reopen_allocations db))
  collect ids resubmit_proposer)
