-- ===== src/Lease/Allocate.antt =====
-- `allocate_proposer` and `_allocate_on_tx`.
use simple_evolution.Prelude.{
  ℕ, ◌-◌, String, Bool, false, not, ◌&&◌, Option, none, some, List, ◌==◌, string_eq, length, select,
  sum_of, count, min, if◌then◌else◌, nat_beq, is_none,
}
use simple_evolution.Db.Rows.{Episode, ProposerAllocation, researching, seat}
use simple_evolution.Db.State.{Db}
use simple_evolution.Db.Exec.{
  Exec, ◌>>=◌, ◌>>◌, pure, raise, raise_if, gets, modify, time, new_id, new_ids, transaction,
  unknown_node, episode_of_another_node, episode_holds_lens,
}
use simple_evolution.Db.Select.{get_node, get_episode}
use simple_evolution.Db.Insert.{create_allocation, open_resource}
use simple_evolution.Db.Update.{update_episodes}

pub record LeaseSpec : Type 0 where
  pub node_id : String
  pub episode_id : String
  pub proposal_slots : ℕ
  pub lens : Option String

-- The episode of the lease, which has to be there and to belong to the node.
unfoldable pub check_episode : LeaseSpec → Option Episode → Exec Episode
check_episode spec none = raise episode_of_another_node
check_episode spec (some e) =
    if e.node_id == spec.node_id then pure e else raise episode_of_another_node

unfoldable pub other_lens : String → Option String → Bool
other_lens lens none = false
other_lens lens (some held) = not (held == lens)

unfoldable pub stamp_lens : LeaseSpec → Episode → Option String → Exec (Unit {0})
unfolding other_lens update_episodes
stamp_lens spec e none = pure tt
stamp_lens spec e (some lens) = do
  raise_if (other_lens lens e.variation_operator) (episode_holds_lens spec.episode_id lens)
  modify (update_episodes spec.episode_id (λ x. record x { variation_operator = some lens }))

-- How many proposal ids the lease may reserve. Subtraction stops at 0, as max(0, ...) does.
unfoldable pub reserved_count : LeaseSpec → Option ℕ → Db → ℕ
reserved_count spec none db = spec.proposal_slots
reserved_count spec (some cap) db = min spec.proposal_slots (cap - published - open_reserved)
  where
    published : ℕ
    published = count (λ p. p.node_id == spec.node_id) db.proposals

    open_reserved : ℕ
    open_reserved =
        sum_of (λ a. length a.reserved_proposal_ids)
          (select (λ a. a.node_id == spec.node_id && is_none a.finished_at) db.proposer_allocations)

unfoldable pub new_allocation :
    String → LeaseSpec → List String → ℕ → Option String → ProposerAllocation
new_allocation aid spec reserved now decision = record {
  allocation_id = aid;
  node_id = spec.node_id;
  episode_id = spec.episode_id;
  reserved_proposal_ids = reserved;
  started_at = now;
  finished_at = none;
  proposals_produced = 0;
  decision_id = decision;
  state = some researching;
  reopen_count = 0;
}

unfoldable pub reserve : LeaseSpec → Option String → ℕ → Exec (Option ProposerAllocation)
unfolding new_allocation
reserve spec decision slots = do
  now ← time
  aid ← new_id
  ids ← new_ids slots
  let a = new_allocation aid spec ids now decision
  create_allocation a
  open_resource seat aid (some aid) none now
  pure (some a)

-- _allocate_on_tx
unfoldable pub allocate_on_tx :
    LeaseSpec → Option ℕ → Option String → Exec (Option ProposerAllocation)
unfolding check_episode stamp_lens reserve
allocate_on_tx spec cap decision = do
  db ← gets (λ d. d)
  raise_if (is_none (get_node spec.node_id db)) (unknown_node spec.node_id)
  e ← check_episode spec (get_episode spec.episode_id db)
  stamp_lens spec e spec.lens
  slots ← gets (reserved_count spec cap)
  if nat_beq slots 0 then pure none else reserve spec decision slots

unfoldable pub allocate_proposer : LeaseSpec → Option ℕ → Exec (Option ProposerAllocation)
allocate_proposer spec cap = transaction (allocate_on_tx spec cap none)
