-- ===== src/Proposals/Tests.antt =====
-- Publications on a small store: a classic seat, and a batch with a research state.
use simple_evolution.Prelude.{String, ◌≡◌, refl, Option, none, some, List, [], ◌∷◌}
use simple_evolution.Text.{starts_with}
use simple_evolution.Db.Rows.{Proposal}
use simple_evolution.Db.State.{World}
use simple_evolution.Db.Exec.{Outcome, done, raised, after, transaction, duplicate_id}
use simple_evolution.Db.Select.{get_node, get_episode, get_research_state}
use simple_evolution.Db.Insert.{create_proposal, create_research_state, shares_lease}
use simple_evolution.Db.Update.{update_episode_last_active, update_episodes}
use simple_evolution.Proposals.Publish.{
  RawProposal, publish_proposals, publish_on_tx, publish_one, given, outside, has_donors,
  is_operation, operation_of, check_operation, new_proposal,
}
use simple_evolution.Proposals.Batch.{
  RawState, publish_research_batch, batch_on_tx, validate_unique_ids, all_given, names_episode,
  check_state_id, is_unknown, check_state, new_state, create_state, state_named, publish_with_state,
  check_owner,
}
use simple_evolution.Proposals.PublishLaws.{
  belongs, AllOrNothing, publish_proposals-AllOrNothing, publish_research_batch-AllOrNothing,
}
use simple_evolution.Samples.{small_db, world}

abbrev raw : RawProposal
raw = record {
  proposal_id = some "p1";
  instruction = some "tile the loop";
  rationale = [];
  research_operation = some "explore";
  donor_experiment_ids = [];
  research_state_id = some "rs-e1-1";
}

abbrev raw_state : RawState
raw_state = record {
  research_state_id = some "rs-e1-1";
  node_id = some "n0";
  episode_id = some "e1";
  derived_from_research_state_id = none;
  transformation_id = none;
  working_model = some "the loop is memory bound";
  evidence_refs = [];
  created_at = none;
}

abbrev start : World
start = world small_db

abbrev pool : Option (List String)
pool = some ("p1" ∷ [])

abbrev rows_of : Outcome (List Proposal) → List Proposal
rows_of (done ps w) = ps
rows_of (raised e w) = []

abbrev published : Outcome (List Proposal)
published = publish_proposals "n0" "e1" (raw ∷ []) pool start

publish_returns : published ≡ done (rows_of published) (after published)
unfolding publish_proposals publish_on_tx publish_one given outside has_donors is_operation
    operation_of check_operation new_proposal create_proposal transaction get_node get_episode
    update_episode_last_active update_episodes
publish_returns = refl

publish_proposals_example : AllOrNothing (belongs "n0" "e1" pool) start published
publish_proposals_example = publish_proposals-AllOrNothing "n0" "e1" (raw ∷ []) pool start

abbrev batch : Outcome (List Proposal)
batch = publish_research_batch "n0" "e1" (raw_state ∷ []) (raw ∷ []) pool start

batch_returns : batch ≡ done (rows_of batch) (after batch)
unfolding publish_research_batch batch_on_tx validate_unique_ids all_given names_episode
    check_state_id is_unknown check_state new_state create_state state_named publish_with_state
    check_owner given outside has_donors is_operation operation_of check_operation new_proposal
    create_proposal create_research_state shares_lease transaction get_node get_episode
    get_research_state update_episode_last_active update_episodes starts_with
batch_returns = refl

-- Two proposals of one id.
batch_refuses :
    publish_research_batch "n0" "e1" (raw_state ∷ []) (raw ∷ raw ∷ []) pool start
    ≡ raised (duplicate_id "proposal_id") (record start { readings = 11 })
unfolding publish_research_batch batch_on_tx validate_unique_ids all_given check_owner given
    transaction get_node get_episode
batch_refuses = refl

publish_research_batch_example : AllOrNothing (belongs "n0" "e1" pool) start batch
publish_research_batch_example =
    publish_research_batch-AllOrNothing "n0" "e1" (raw_state ∷ []) (raw ∷ []) pool start
