-- ===== src/Queue/Bound.antt =====
-- class ExecutorQueue, over `queued_proposals` of the store, and the store's
-- `transition_proposal_status`, one transaction for each proposal.
use simple_evolution.Prelude.{
  ℕ, ◌+◌, String, Option, none, some, List, [], ◌∷◌, length, take, drop, order_by, select, ltb, map,
}
use simple_evolution.Db.Rows.{Proposal, is_queued, overflowed_dormant}
use simple_evolution.Db.State.{Db}
use simple_evolution.Db.Exec.{Exec, ◌>>=◌, ◌>>◌, pure, gets, modify, transaction}
use simple_evolution.Db.Update.{transition_proposal_status}

-- LIMIT ?
unfoldable pub limited : Option ℕ → List Proposal → List Proposal
limited none ps = ps
limited (some n) ps = take n ps

-- queued_proposals, for no node ids in particular: FIFO by created_at.
unfoldable pub queued_proposals : Option ℕ → Db → List Proposal
unfolding limited
queued_proposals limit db = limited limit (
    order_by (λ a b. ltb a.created_at b.created_at) (select (λ p. is_queued p.status) db.proposals))

unfoldable pub dequeue : ℕ → Db → List String
dequeue n db = map (λ p. p.proposal_id) (queued_proposals (some n) db)

unfoldable pub size : Db → ℕ
size db = length (queued_proposals none db)

unfoldable pub overflow : Proposal → Exec (Unit {0})
overflow p = transaction (modify (transition_proposal_status p.proposal_id overflowed_dormant))

-- The loop over the proposals beyond the bound, which counts them.
unfoldable pub overflow_all : List Proposal → Exec ℕ
unfolding overflow
overflow_all [] = pure 0
overflow_all (p ∷ ps) = do overflow p; demoted ← overflow_all ps; pure (demoted + 1)

unfoldable pub enforce_bound : ℕ → Exec ℕ
unfolding overflow_all
enforce_bound max_size = do
  queued ← gets (queued_proposals none)
  overflow_all (drop max_size queued)
