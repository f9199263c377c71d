-- ===== src/Lease/Conclude.antt =====
-- `_conclude_on_tx`, `conclude_lease` and `deallocate_proposer`.
use simple_evolution.Prelude.{
  ℕ, String, ◌&&◌, Option, none, some, [], ◌∷◌, ◌==◌, string_eq, count, update, if◌then◌else◌,
  is_none, nat_beq,
}
use simple_evolution.Prelude.Int.{pos}
use simple_evolution.Json.{Json, null, text, number, dict}
use simple_evolution.Db.Rows.{
  Node, ProposerAllocation, Conclusion, delivered, abstain, cut_off, rejected, lease_terminal,
  is_seat,
}
use simple_evolution.Db.State.{Db}
use simple_evolution.Db.Exec.{
  Exec, ◌>>=◌, ◌>>◌, pure, raise, gets, modify, time, transaction, no_allocation,
}
use simple_evolution.Db.Select.{get_node, get_allocation}
use simple_evolution.Db.Insert.{insert_supervisor_event, insert_scheduler_event}
use simple_evolution.Db.Update.{finish_allocation, update_episodes}

abbrev pub conclusion_text : Conclusion → String
conclusion_text delivered = "delivered"
conclusion_text abstain = "abstain"
conclusion_text cut_off = "cut_off"
conclusion_text rejected = "rejected"

-- dict(node.metrics) if node else None
unfoldable pub metrics_of : Option Node → Json
metrics_of none = null
metrics_of (some n) = dict n.metrics

unfoldable pub terminal_payload : ProposerAllocation → Conclusion → Option Node → Json → Json → Json
unfolding metrics_of
terminal_payload a outcome node reason world_sha = dict (
    ("allocation_id", text a.allocation_id)
    ∷ ("node_id", text a.node_id)
    ∷ ("outcome", text (conclusion_text outcome))
    ∷ ("node_metrics", metrics_of node)
    ∷ ("reopen_count", number (pos a.reopen_count))
    ∷ ("reason", reason)
    ∷ ("world_sha", world_sha)
    ∷ [])

-- A delivered lease counts the proposals of its episode.
unfoldable pub produced_by : ProposerAllocation → Conclusion → Db → ℕ
produced_by a delivered db = count (λ p. p.episode_id == a.episode_id) db.proposals
produced_by a _ db = a.proposals_produced

unfoldable pub record_reason : ProposerAllocation → Conclusion → ℕ → Json → Exec (Unit {0})
record_reason a outcome now null = pure tt
record_reason a outcome now reason =
    insert_scheduler_event "lease_concluded"
      (dict (
        ("allocation_id", text a.allocation_id)
        ∷ ("outcome", text (conclusion_text outcome))
        ∷ ("reason", reason)
        ∷ []))
      now

-- UPDATE resource_ledger SET closed_at WHERE kind = 'seat' AND ref_id = ? AND closed_at IS NULL
unfoldable pub close_seat : String → ℕ → Db → Db
close_seat i now db = record db {
  resource_ledger =
      update (λ r. is_seat r.kind && (r.ref_id == i && is_none r.closed_at))
        (λ r. record r { closed_at = some now }) db.resource_ledger;
}

unfoldable pub stamp_conclusion : String → Conclusion → ℕ → Db → Db
unfolding update_episodes
stamp_conclusion i outcome now =
    update_episodes i λ e. record e { conclusion_type = some outcome; concluded_at = some now }

-- The lease row, the conclusion of its episode and the wake event.
unfoldable pub close_rows : ProposerAllocation → Conclusion → ℕ → Json → Json → Db → Db
unfolding terminal_payload produced_by stamp_conclusion finish_allocation insert_supervisor_event
close_rows a outcome now reason world_sha db =
    insert_supervisor_event lease_terminal
      (terminal_payload a outcome (get_node a.node_id db) reason world_sha) now
      (stamp_conclusion a.episode_id outcome now
        (finish_allocation a.allocation_id (produced_by a outcome db) now (some outcome) db))

unfoldable pub conclude_open : ProposerAllocation → Conclusion → ℕ → Json → Json → Exec (Unit {0})
unfolding close_rows
conclude_open a outcome now reason world_sha = do
  modify (close_rows a outcome now reason world_sha)
  record_reason a outcome now reason
  modify (close_seat a.allocation_id now)

-- _conclude_on_tx: a lease that is closed stays as it is.
unfoldable pub conclude_on_tx :
    Option ProposerAllocation → Conclusion → ℕ → Json → Json → Exec (Unit {0})
conclude_on_tx none outcome now reason world_sha = raise (no_allocation)
conclude_on_tx (some a) outcome now reason world_sha =
    if is_none a.finished_at then conclude_open a outcome now reason world_sha else pure tt

unfoldable pub conclude_lease : String → Conclusion → Json → Json → Exec (Unit {0})
conclude_lease i outcome reason world_sha =
    transaction
      (do a ← gets (get_allocation i); now ← time; conclude_on_tx a outcome now reason world_sha)

unfoldable pub abstention_payload : String → Option ProposerAllocation → Option Node → Json
unfolding metrics_of
abstention_payload i none _ = dict (
    ("allocation_id", text i)
    ∷ ("node_id", null)
    ∷ ("outcome", text "abstain")
    ∷ ("node_metrics", null)
    ∷ [])
abstention_payload i (some a) node = dict (
    ("allocation_id", text i)
    ∷ ("node_id", text a.node_id)
    ∷ ("outcome", text "abstain")
    ∷ ("node_metrics", metrics_of node)
    ∷ [])

unfoldable pub node_of : Option ProposerAllocation → Db → Option Node
node_of none _ = none
node_of (some a) db = get_node a.node_id db

-- The classic close, for a caller that gives no outcome.
unfoldable pub close_classic : String → Option ProposerAllocation → ℕ → ℕ → Exec (Unit {0})
unfolding abstention_payload node_of
close_classic i a produced now = do
  modify (finish_allocation i produced now none)
  node ← gets (node_of a)
  if nat_beq produced 0
      then modify (insert_supervisor_event lease_terminal (abstention_payload i a node) now)
      else pure tt

unfoldable pub deallocate_on_tx : String → ℕ → Option Conclusion → ℕ → Exec (Unit {0})
unfolding close_classic
deallocate_on_tx i produced none now = do
  a ← gets (get_allocation i)
  close_classic i a produced now
deallocate_on_tx i produced (some outcome) now = do
  a ← gets (get_allocation i)
  conclude_on_tx a outcome now null null

unfoldable pub deallocate_proposer : String → ℕ → Option Conclusion → Exec (Unit {0})
unfolding deallocate_on_tx
deallocate_proposer i produced outcome = do
  now ← time
  transaction (deallocate_on_tx i produced outcome now)
