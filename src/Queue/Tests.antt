-- ===== src/Queue/Tests.antt =====
-- A queue of three proposals, bounded to two.
use simple_evolution.Prelude.{ℕ, String, ◌-◌, ◌≤◌, ◌≡◌, refl, none, [], ◌∷◌}
use simple_evolution.Db.Rows.{Proposal, queued}
use simple_evolution.Db.State.{World}
use simple_evolution.Db.Exec.{done, after, transaction}
use simple_evolution.Db.Update.{transition_proposal_status}
use simple_evolution.Queue.Bound.{
  limited, queued_proposals, dequeue, size, overflow, overflow_all, enforce_bound,
}
use simple_evolution.Queue.BoundLaws.{bounded_world, enforce_bound-size}
use simple_evolution.Samples.{small_db, world}

abbrev proposal : String → ℕ → Proposal
proposal i t = record {
  proposal_id = i;
  node_id = "n0";
  episode_id = "e1";
  instruction = "tile the loop";
  rationale = [];
  status = queued;
  created_at = t;
  research_state_id = none;
  research_operation = none;
  donor_experiment_ids = [];
}

abbrev full : World
full =
    world (record small_db { proposals = proposal "p3" 9 ∷ proposal "p1" 4 ∷ proposal "p2" 6 ∷ [] })

oldest_stay : dequeue 5 (after (enforce_bound 2 full)).db ≡ "p1" ∷ "p2" ∷ []
unfolding dequeue enforce_bound overflow_all overflow transaction transition_proposal_status
    queued_proposals limited
oldest_stay = refl

enforce_bound-size_example :
    (enforce_bound 2 full ≡ done (size full.db - 2) (bounded_world 2 full))
    × (size (bounded_world 2 full).db ≤ 2)
enforce_bound-size_example = enforce_bound-size 2 full
