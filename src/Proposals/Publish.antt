-- ===== src/Proposals/Publish.antt =====
-- `publish_proposals`: the proposals of a classic seat.
use simple_evolution.Prelude.{
  ℕ, String, Bool, true, false, not, ◌&&◌, Option, none, some, List, [], ◌∷◌, ◌==◌, string_eq,
  member, is_none, if◌then◌else◌,
}
use simple_evolution.Json.{Dict}
use simple_evolution.Db.Rows.{Proposal, queued, Operation, explore, synthesize}
use simple_evolution.Db.Exec.{
  Exec, ◌>>=◌, ◌>>◌, pure, raise_if, or_raise, gets, modify, time, collect, transaction,
  unknown_node, unknown_episode, missing_proposal_id, not_reserved, explore_with_donors,
  synthesize_without_donors, unknown_operation, key_error,
}
use simple_evolution.Db.Select.{get_node, get_episode}
use simple_evolution.Db.Insert.{create_proposal}
use simple_evolution.Db.Update.{update_episode_last_active}

-- A proposal as a worker's document gives it: a missing key is `none`, a list that is missing empty.
pub record RawProposal : Type 0 where
  pub proposal_id : Option String
  pub instruction : Option String
  pub rationale : Dict
  pub research_operation : Option String
  pub donor_experiment_ids : List String
  pub research_state_id : Option String

-- The text of a key, where a missing one and the empty one are falsy.
unfoldable pub given : Option String → Option String
given none = none
given (some s) = if s == "" then none else some s

-- reserved is not None and proposal_id not in reserved
unfoldable pub outside : Option (List String) → String → Bool
outside none i = false
outside (some ids) i = not (member i ids)

unfoldable pub has_donors : List String → Bool
has_donors [] = false
has_donors (d ∷ ds) = true

unfoldable pub is_operation : String → Option String → Bool
is_operation op none = false
is_operation op (some o) = o == op

unfoldable pub operation_of : Option String → Option (Option Operation)
operation_of none = some none
operation_of (some o) =
    if o == "explore"
    then some (some explore)
    else if o == "synthesize"
    then some (some synthesize)
    else none

-- The checks of the operation and its donors, in the order of the code.
unfoldable pub check_operation : RawProposal → Exec (Option Operation)
unfolding has_donors is_operation operation_of
check_operation raw = do
  raise_if (is_operation "explore" raw.research_operation && has_donors raw.donor_experiment_ids)
      explore_with_donors
  raise_if
      (is_operation "synthesize" raw.research_operation
        && not (has_donors raw.donor_experiment_ids))
      synthesize_without_donors
  or_raise (operation_of raw.research_operation) unknown_operation

unfoldable pub new_proposal :
    String
    → String
    → String
    → RawProposal
    → String
    → Option Operation
    → Option String
    → ℕ
    → Proposal
new_proposal i node_id episode_id raw instruction operation state now = record {
  proposal_id = i;
  node_id = node_id;
  episode_id = episode_id;
  instruction = instruction;
  rationale = raw.rationale;
  status = queued;
  created_at = now;
  research_state_id = state;
  research_operation = operation;
  donor_experiment_ids = raw.donor_experiment_ids;
}

-- One round of the loop of `publish_proposals`.
unfoldable pub publish_one :
    String → String → Option (List String) → ℕ → RawProposal → Exec Proposal
unfolding given outside check_operation new_proposal
publish_one node_id episode_id reserved now raw = do
  i ← or_raise (given raw.proposal_id) missing_proposal_id
  raise_if (outside reserved i) (not_reserved i)
  operation ← check_operation raw
  instruction ← or_raise raw.instruction (key_error "instruction")
  let p = new_proposal i node_id episode_id raw instruction operation none now
  create_proposal p
  pure p

unfoldable pub publish_on_tx :
    String → String → List RawProposal → Option (List String) → ℕ → Exec (List Proposal)
unfolding publish_one
publish_on_tx node_id episode_id raws reserved now = do
  db ← gets (λ d. d)
  raise_if (is_none (get_node node_id db)) (unknown_node node_id)
  raise_if (is_none (get_episode episode_id db)) (unknown_episode episode_id)
  created ← collect raws (publish_one node_id episode_id reserved now)
  modify (update_episode_last_active episode_id now)
  pure created

unfoldable pub publish_proposals :
    String → String → List RawProposal → Option (List String) → Exec (List Proposal)
unfolding publish_on_tx
publish_proposals node_id episode_id raws reserved = do
  now ← time
  transaction (publish_on_tx node_id episode_id raws reserved now)
