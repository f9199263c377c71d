-- ===== src/Proposals/Batch.antt =====
-- `publish_research_batch`: the research states and the proposals of one episode.
use simple_evolution.Prelude.{
  ℕ, String, ◌<>◌, Bool, true, false, not, ◌&&◌, ◌||◌, Option, none, some, List, [], ◌∷◌, ◌==◌,
  string_eq, option_eq, member, is_none, is_some, is_unique, get_or, map,
}
use simple_evolution.Text.{chars, starts_with}
use simple_evolution.Db.Rows.{Proposal, Episode, ResearchState}
use simple_evolution.Db.State.{Db}
use simple_evolution.Db.Exec.{
  Exec, ◌>>=◌, ◌>>◌, pure, raise_if, or_raise, gets, modify, time, collect, for_each, transaction,
  unknown_node, unknown_episode, episode_of_another_node, missing_id, duplicate_id,
  invalid_state_id, duplicate_state_id, unknown_state_id, unknown_derived_from, state_of_another,
  not_reserved, missing_proposal_id, key_error,
}
use simple_evolution.Db.Select.{get_node, get_episode, get_research_state}
use simple_evolution.Db.Insert.{create_proposal, create_research_state}
use simple_evolution.Db.Update.{update_episode_last_active}
use simple_evolution.Proposals.Publish.{RawProposal, given, outside, check_operation, new_proposal}

-- A research state as a worker's document gives it.
pub record RawState : Type 0 where
  pub research_state_id : Option String
  pub node_id : Option String
  pub episode_id : Option String
  pub derived_from_research_state_id : Option String
  pub transformation_id : Option String
  pub working_model : Option String
  pub evidence_refs : List String
  pub created_at : Option ℕ

-- The texts of a list in which none is missing or empty.
unfoldable pub all_given : List (Option String) → Option (List String)
unfolding given
all_given [] = some []
all_given (o ∷ os) = elim (given o) [
  | none ↦ none
  | some s ↦ elim (all_given os) [ none ↦ none | some ss ↦ some (s ∷ ss) ]
]

-- _validate_unique_ids
unfoldable pub validate_unique_ids : List (Option String) → String → Exec (List String)
unfolding all_given
validate_unique_ids values field = do
  ids ← or_raise (all_given values) (missing_id field)
  raise_if (not (is_unique ids)) (duplicate_id field)
  pure ids

-- state_id.startswith(f"rs-{episode_id}-")
unfoldable pub names_episode : String → String → Bool
unfolding starts_with
names_episode episode_id i = starts_with (chars ("rs-" <> (episode_id <> "-"))) (chars i)

unfoldable pub check_state_id : String → String → Exec (Unit {0})
unfolding names_episode
check_state_id episode_id i = do
  raise_if (not (names_episode episode_id i)) (invalid_state_id i)
  there ← gets (get_research_state i)
  raise_if (is_some there) (duplicate_state_id i)

-- derived_id and derived_id not in incoming_states and it is not in the table
unfoldable pub is_unknown : List String → Option String → Db → Bool
is_unknown incoming none db = false
is_unknown incoming (some i) db = not (member i incoming) && is_none (get_research_state i db)

unfoldable pub check_state : String → String → List String → RawState → Exec (Unit {0})
unfolding given is_unknown
check_state node_id episode_id incoming raw = do
  raise_if (not (raw.node_id == some node_id) || not (raw.episode_id == some episode_id))
      state_of_another
  unknown ← gets (is_unknown incoming (given raw.derived_from_research_state_id))
  raise_if unknown (unknown_derived_from (get_or raw.derived_from_research_state_id ""))

unfoldable pub new_state : String → String → String → String → RawState → ℕ → ResearchState
new_state i node_id episode_id working_model raw now = record {
  research_state_id = i;
  node_id = node_id;
  episode_id = episode_id;
  derived_from_research_state_id = raw.derived_from_research_state_id;
  transformation_id = raw.transformation_id;
  working_model = working_model;
  evidence_refs = raw.evidence_refs;
  created_at = get_or raw.created_at now;
  evidence = some [];
  experiment_log = some [];
  deliverables = some [];
  conclusion = none;
  revision = none;
  lease_id = none;
}

unfoldable pub create_state : String → String → ℕ → RawState → Exec (Unit {0})
unfolding new_state
create_state node_id episode_id now raw = do
  i ← or_raise raw.research_state_id (key_error "research_state_id")
  working_model ← or_raise raw.working_model (key_error "working_model")
  create_research_state (new_state i node_id episode_id working_model raw now)

unfoldable pub state_named : Option String → Db → Option ResearchState
state_named none db = none
state_named (some i) db = get_research_state i db

-- One round of the loop over the proposals of a batch, whose ids have been validated.
unfoldable pub publish_with_state :
    String → String → Option (List String) → ℕ → RawProposal → Exec Proposal
unfolding given outside state_named check_operation new_proposal
publish_with_state node_id episode_id reserved now raw = do
  i ← or_raise (given raw.proposal_id) missing_proposal_id
  raise_if (outside reserved i) (not_reserved i)
  found ← gets (state_named (given raw.research_state_id))
  state ← or_raise found (unknown_state_id (get_or raw.research_state_id ""))
  raise_if (not (state.node_id == node_id) || not (state.episode_id == episode_id)) state_of_another
  operation ← check_operation raw
  instruction ← or_raise raw.instruction (key_error "instruction")
  let p = new_proposal i node_id episode_id raw instruction operation raw.research_state_id now
  create_proposal p
  pure p

unfoldable pub check_owner : String → Option Episode → String → Exec (Unit {0})
check_owner node_id none episode_id = raise_if true (unknown_episode episode_id)
check_owner node_id (some e) episode_id =
    raise_if (not (e.node_id == node_id)) episode_of_another_node

unfoldable pub batch_on_tx :
    String
    → String
    → List RawState
    → List RawProposal
    → Option (List String)
    → ℕ
    → Exec (List Proposal)
unfolding check_owner validate_unique_ids check_state_id check_state create_state publish_with_state
batch_on_tx node_id episode_id states raws reserved now = do
  db ← gets (λ d. d)
  raise_if (is_none (get_node node_id db)) (unknown_node node_id)
  check_owner node_id (get_episode episode_id db) episode_id
  incoming ← validate_unique_ids (map (λ s. s.research_state_id) states) "research_state_id"
  _ ← validate_unique_ids (map (λ p. p.proposal_id) raws) "proposal_id"
  for_each incoming (check_state_id episode_id)
  for_each states (check_state node_id episode_id incoming)
  for_each states (create_state node_id episode_id now)
  created ← collect raws (publish_with_state node_id episode_id reserved now)
  modify (update_episode_last_active episode_id now)
  pure created

unfoldable pub publish_research_batch :
    String → String → List RawState → List RawProposal → Option (List String) → Exec (List Proposal)
unfolding batch_on_tx
publish_research_batch node_id episode_id states raws reserved = do
  now ← time
  transaction (batch_on_tx node_id episode_id states raws reserved now)
