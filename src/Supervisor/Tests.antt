-- ===== src/Supervisor/Tests.antt =====
-- Runs of the growth gate on a small store.
use simple_evolution.Prelude.{◌≤◌, suc, ◌≡◌, refl, none, some, [], ◌∷◌, false, arith}
use simple_evolution.Json.{dict}
use simple_evolution.Db.Rows.{growth, root_ready, SupervisorEvent}
use simple_evolution.Db.State.{World}
use simple_evolution.Db.Exec.{
  Outcome, done, raised, stale_decision, episode_of_another_node, after, transaction,
}
use simple_evolution.Db.Select.{get_node, get_episode}
use simple_evolution.Db.Insert.{
  create_allocation, open_resource, insert_scheduler_event, insert_supervisor_event,
}
use simple_evolution.Db.Update.{update_episodes}
use simple_evolution.Lease.Allocate.{
  allocate_on_tx, check_episode, stamp_lens, other_lens, reserved_count, reserve, new_allocation,
}
use simple_evolution.Supervisor.Events.{
  emit_supervisor_event, supervisor_event_head, supervisor_event_cursor, pending_supervisor_events,
}
use simple_evolution.Supervisor.Review.{is_empty}
use simple_evolution.Supervisor.Commit.{
  Judgment, SupervisorCommit, commit_supervisor_decision, check_judgment, decision_kind_of,
  is_growth, has_items, check_payload, commit_on_tx, is_decided, decide, decision_row, enact,
  present, accepted_payload,
}
use simple_evolution.Supervisor.CommitLaws.{
  replayed_commit, commit-again, commit-consumes, emit-stale,
}
use simple_evolution.Text.{show}
use simple_evolution.Supervisor.KeepsOne.{open_count}
use simple_evolution.Supervisor.OneOpen.{commit-one_open}
use simple_evolution.Samples.{small_db, world}

abbrev judgment : Judgment
judgment = record {
  decision_id = "d1";
  work_id = "w1";
  cursor_to = 1;
  decision_kind = "growth";
  node_ids = "n0" ∷ [];
  leases =
      record { node_id = "n0"; episode_id = "e1"; proposal_slots = 2; lens = some "local" } ∷ [];
  rationale = "grow";
  detail = [];
  max_proposals_per_node = none;
  integration_request = none;
  epoch_review = none;
}

abbrev first_event : SupervisorEvent
first_event = record { event_id = 1; type = root_ready; payload = dict []; created_at = 1 }

abbrev woken : World
woken = world (record small_db { supervisor_events = first_event ∷ [] })

-- What a commit that returns gives, and the judgment's answer otherwise.
abbrev answer : Outcome SupervisorCommit → SupervisorCommit
answer (done c w) = c
answer (raised e w) = record { decision_id = ""; replayed = false; allocations = [] }

abbrev first_commit : SupervisorCommit
first_commit = answer (commit_supervisor_decision judgment woken)

abbrev grown : World
grown = after (commit_supervisor_decision judgment woken)

commit_returns : commit_supervisor_decision judgment woken ≡ done first_commit grown
unfolding commit_supervisor_decision check_judgment decision_kind_of is_growth has_items
    check_payload is_empty commit_on_tx is_decided transaction supervisor_event_head decide
    decision_row enact present allocate_on_tx check_episode stamp_lens other_lens update_episodes
    reserved_count reserve new_allocation create_allocation open_resource accepted_payload
    insert_scheduler_event get_node get_episode show
commit_returns = refl

commit-again_example :
    commit_supervisor_decision judgment grown ≡ done (replayed_commit judgment grown.db) grown
commit-again_example = commit-again judgment woken first_commit grown commit_returns

was_fresh : first_commit.replayed ≡ false
unfolding commit_supervisor_decision check_judgment decision_kind_of is_growth has_items
    check_payload is_empty commit_on_tx is_decided transaction supervisor_event_head decide
    decision_row enact present allocate_on_tx check_episode stamp_lens other_lens update_episodes
    reserved_count reserve new_allocation create_allocation open_resource accepted_payload
    insert_scheduler_event get_node get_episode show
was_fresh = refl

commit-consumes_example :
    (supervisor_event_cursor grown.db ≡ supervisor_event_head woken.db)
    × (supervisor_event_head grown.db ≡ supervisor_event_head woken.db)
    × (pending_supervisor_events grown.db ≡ [])
commit-consumes_example = commit-consumes judgment woken first_commit grown commit_returns was_fresh

-- A judgment whose second lease is on an episode that is not there.
abbrev misdirected : Judgment
misdirected = record judgment {
  leases =
      record { node_id = "n0"; episode_id = "e1"; proposal_slots = 1; lens = none }
      ∷ record { node_id = "n0"; episode_id = "e9"; proposal_slots = 1; lens = none }
      ∷ [];
}

abbrev refused : World
refused = after (commit_supervisor_decision misdirected woken)

commit_raises :
    commit_supervisor_decision misdirected woken ≡ raised episode_of_another_node refused
unfolding commit_supervisor_decision check_judgment decision_kind_of is_growth has_items
    check_payload is_empty commit_on_tx is_decided transaction supervisor_event_head decide
    decision_row enact present allocate_on_tx check_episode stamp_lens other_lens update_episodes
    reserved_count reserve new_allocation create_allocation open_resource accepted_payload
    insert_scheduler_event get_node get_episode show
commit_raises = refl

-- Evidence that lands after the judgment was made.
abbrev woken_again : World
woken_again = after (emit_supervisor_event root_ready (dict []) woken)

emit-stale_example :
    (2 ≡ suc (supervisor_event_head woken.db))
    × (supervisor_event_head woken_again.db ≡ 2)
    × (commit_supervisor_decision judgment woken_again ≡ raised (stale_decision 2) woken_again)
unfolding check_judgment decision_kind_of is_growth check_payload is_empty is_decided
    supervisor_event_head emit_supervisor_event transaction insert_supervisor_event
emit-stale_example =
    emit-stale root_ready (dict []) woken judgment growth 2 woken_again refl refl refl (omega arith)

-- A judgment that asks for an integration.
abbrev asking : Judgment
asking = record judgment {
  decision_kind = "integration_request";
  node_ids = [];
  leases = [];
  integration_request = some (record {
    integration_request_id = "i1";
    epoch_id = "epoch-0";
    target_node_id = "n0";
    donor_experiment_ids = "x0" ∷ [];
    selection_rationale = "combine";
  });
}

abbrev with_epoch : World
with_epoch = record woken {
  db = record woken.db {
    epochs =
        record {
          epoch_id = "epoch-0";
          root_node_id = "n0";
          previous_epoch_id = none;
          created_at = 1;
        }
        ∷ [];
  };
}

commit-one_open_example : open_count (after (commit_supervisor_decision asking with_epoch)).db ≤ 1
commit-one_open_example = commit-one_open asking with_epoch (omega arith)
