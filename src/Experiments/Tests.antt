-- ===== src/Experiments/Tests.antt =====
-- The ingest of a passed experiment on a small store.
use simple_evolution.Prelude.{◌≡◌, ◌+◌, refl, none, some, [], ◌∷◌, ◌++◌, false, Option}
use simple_evolution.Prelude.Int.{pos}
use simple_evolution.Text.{show}
use simple_evolution.Json.{number}
use simple_evolution.Db.Rows.{
  Node, Experiment, running, completed, gate_rejected, Proposal, queued, SupervisorEvent,
  experiment_terminal,
}
use simple_evolution.Db.State.{World, event_head}
use simple_evolution.Db.Exec.{
  Outcome, done, raised, after, transaction, already_terminal, missing_parent,
}
use simple_evolution.Db.Select.{get_experiment, get_node, get_proposal}
use simple_evolution.Db.Insert.{
  create_node, create_episode, new_episode, insert_supervisor_event, seed_epoch, ignore_epoch,
}
use simple_evolution.Db.Update.{update_experiments, update_experiment_result, link_experiment_child}
use simple_evolution.Experiments.Ingest.{
  ExperimentResult, ingest_experiment_result, ingest_result_on_tx, record_result, wake_gate,
  child_if_passed, create_child, child_node, inherit_episode, refresh_frontier, terminal_payload,
}
use simple_evolution.Experiments.IngestLaws.{ingest-wakes}
use simple_evolution.Experiments.Once.{ingest-once}
use simple_evolution.Samples.{open_gate, small_db, world}

abbrev proposal : Proposal
proposal = record {
  proposal_id = "p1";
  node_id = "n0";
  episode_id = "e1";
  instruction = "tile the loop";
  rationale = [];
  status = queued;
  created_at = 3;
  research_state_id = none;
  research_operation = none;
  donor_experiment_ids = [];
}

abbrev started : Experiment
started = record {
  experiment_id = "x1";
  proposal_id = "p1";
  parent_node_id = "n0";
  result_sha = none;
  metrics = [];
  gate_result = record { results = []; passed = false };
  status = running;
  changed_paths = [];
  child_node_id = none;
  created_at = 4;
}

abbrev running_world : World
running_world = world (record small_db { proposals = proposal ∷ []; experiments = started ∷ [] })

abbrev passed : ExperimentResult
passed = record {
  experiment_id = "x1";
  result_sha = some "9123456789012345678901234567890123456789";
  metrics = ("score", number (pos 4)) ∷ [];
  gate_result = open_gate;
  status = completed;
  changed_paths = "main.c" ∷ [];
  frontier_config = none;
}

abbrev late_rejection : ExperimentResult
late_rejection = record passed { result_sha = none; status = gate_rejected }

abbrev answer : Outcome (Option Node) → Option Node
answer (done c w) = c
answer (raised e w) = none

abbrev child : Option Node
child = answer (ingest_experiment_result passed running_world)

abbrev ingested : World
ingested = after (ingest_experiment_result passed running_world)

ingest_returns : ingest_experiment_result passed running_world ≡ done child ingested
unfolding ingest_experiment_result ingest_result_on_tx record_result wake_gate child_if_passed
    create_child child_node inherit_episode refresh_frontier terminal_payload transaction
    get_experiment get_node get_proposal create_node create_episode new_episode seed_epoch
    ignore_epoch insert_supervisor_event update_experiments update_experiment_result
    link_experiment_child show
ingest_returns = refl

ingest-wakes_example :
    (e : SupervisorEvent) × (e.type ≡ experiment_terminal)
    × (e.event_id ≡ event_head running_world.supervisor_events + 1)
    × (ingested.supervisor_events ≡ running_world.supervisor_events ++ (e ∷ []))
    × (ingested.supervisor_cursor ≡ running_world.supervisor_cursor)
ingest-wakes_example = ingest-wakes passed running_world ingested child ingest_returns

ingest-once_example :
    ingest_experiment_result late_rejection ingested ≡ raised (already_terminal "x1") ingested
ingest-once_example =
    ingest-once passed late_rejection running_world ingested child ingest_returns refl refl

-- An experiment whose parent node is gone: the row has been updated before the error.
abbrev orphaned_world : World
orphaned_world = record running_world {
  db = record running_world.db { experiments = record started { parent_node_id = "n9" } ∷ [] };
}

abbrev refused : World
refused = after (ingest_experiment_result passed orphaned_world)

ingest_raises :
    ingest_experiment_result passed orphaned_world ≡ raised (missing_parent "x1") refused
unfolding ingest_experiment_result ingest_result_on_tx record_result child_if_passed create_child
    transaction get_experiment get_node update_experiments update_experiment_result
ingest_raises = refl
