-- ===== src/Supervisor/ReviewTests.antt =====
-- A review of a gate-passed candidate on a small store.
use simple_evolution.Prelude.{◌≡◌, refl, none, some, [], ◌∷◌}
use simple_evolution.Text.{strip, show}
use simple_evolution.Db.Rows.{Node, Epoch, Experiment, completed, IntegrationRequest, submitted}
use simple_evolution.Db.State.{World}
use simple_evolution.Db.Exec.{done, raised, after, review_needs_candidate}
use simple_evolution.Db.Select.{get_integration_request, get_experiment}
use simple_evolution.Db.Insert.{insert_scheduler_event}
use simple_evolution.Supervisor.Requests.{update_requests}
use simple_evolution.Supervisor.Review.{
  ReviewPayload, promote, action_of, apply_review_on_tx, review_candidate, reviewed, is_empty,
  truthy, linked_experiment, candidate_child, open_epoch, check_epoch, current_epoch, insert_epoch,
  next_epoch, close_request, promote_payload,
}
use simple_evolution.Supervisor.ReviewLaws.{Applied, review-applies, review-once}
use simple_evolution.Samples.{open_gate, root, small_db, world}

abbrev child_node : Node
child_node = record root {
  node_id = "n1";
  parent_node_id = some "n0";
  sha = "9123456789012345678901234567890123456789";
  depth = 1;
}

abbrev candidate : Experiment
candidate = record {
  experiment_id = "x1";
  proposal_id = "p1";
  parent_node_id = "n0";
  result_sha = some "9123456789012345678901234567890123456789";
  metrics = [];
  gate_result = open_gate;
  status = completed;
  changed_paths = [];
  child_node_id = some "n1";
  created_at = 5;
}

abbrev request : IntegrationRequest
request = record {
  integration_request_id = "i1";
  epoch_id = "epoch-0";
  target_node_id = "n0";
  donor_experiment_ids = "x0" ∷ [];
  selection_rationale = "combine";
  status = submitted;
  created_at = 4;
  integrator_episode_id = none;
  proposal_id = some "p1";
  experiment_id = some "x1";
  closed_at = none;
}

abbrev first_epoch : Epoch
first_epoch = record {
  epoch_id = "epoch-0";
  root_node_id = "n0";
  previous_epoch_id = none;
  created_at = 1;
}

abbrev submitted_world : World
submitted_world = world (record small_db {
  nodes = root ∷ child_node ∷ [];
  epochs = first_epoch ∷ [];
  experiments = candidate ∷ [];
  integration_requests = request ∷ [];
})

abbrev promotion : ReviewPayload
promotion = record {
  integration_request_id = "i1";
  action = "promote";
  rationale = "better";
  evidence_refs = [];
}

abbrev promoted_world : World
promoted_world = after (apply_review_on_tx promotion submitted_world)

promotion_returns : apply_review_on_tx promotion submitted_world ≡ done tt promoted_world
unfolding apply_review_on_tx is_empty action_of reviewed review_candidate strip truthy
    linked_experiment candidate_child open_epoch check_epoch current_epoch insert_epoch next_epoch
    close_request update_requests promote_payload insert_scheduler_event get_integration_request
    get_experiment show
promotion_returns = refl

review-applies_example : Applied promotion submitted_world.db promoted_world.db
review-applies_example = review-applies promotion submitted_world promoted_world promotion_returns

review-once_example :
    apply_review_on_tx promotion promoted_world ≡ raised review_needs_candidate promoted_world
unfolding strip is_empty action_of
review-once_example =
    review-once promotion promotion submitted_world promoted_world promotion_returns refl refl refl
      promote refl
