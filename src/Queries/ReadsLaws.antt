-- ===== src/Queries/ReadsLaws.antt =====
-- What the projections count, and which lenses a lineage burns.
use simple_evolution.Prelude.{
  String, Bool, true, false, not, ◌&&◌, ◌||◌, ◌≡◌, ◌+◌, refl, ◌∙◌, Option, some, List, [], ◌∷◌,
  ◌++◌, ◌==◌, string_eq, option_eq, any, member, map, select, count, length, order_by, arith,
  any-order_by, any-select, all, length-select, is_none,
}
use simple_evolution.Db.Rows.{Node, Episode, ProposerAllocation, LeaseState, concluded}
use simple_evolution.Db.State.{Db}
use simple_evolution.Queries.Reads.{
  OperatorRow, operator_row, operator_rows_of, episode_operator_rows, created_before, list_nodes,
  is_open_lease, open_in_state, is_researching, is_parked, is_sent_back, open_allocation_count,
  researching_open_allocation_count, awaiting_adjudication_allocations, reopen_allocations,
}
use simple_evolution.Queries.Lineage.{ancestry, own_lenses, all_lenses, burned_lenses}

-- The episode belongs to the node and carries the lens.
abbrev pub carries : String → Node → Episode → Bool
carries lens n e = e.node_id == n.node_id && e.variation_operator == some lens

any-rows :
    (lens : String) (n : Node) (db : Db) (es : List Episode)
    → any (λ r. r.node_id == n.node_id && r.lens == lens) (operator_rows_of db es)
      ≡ any (carries lens n) es
unfolding operator_rows_of operator_row
any-rows lens n db [] = refl
any-rows lens n db (e ∷ es) = ground (arith, any-rows lens n db es)

member-map :
    (lens : String) (rs : List OperatorRow)
    → member lens (map (λ r. r.lens) rs) ≡ any (λ r. r.lens == lens) rs
member-map lens [] = refl
member-map lens (r ∷ rs) = ground (arith, member-map lens rs)

member-own :
    (lens : String) (n : Node) (db : Db)
    → member lens (own_lenses (episode_operator_rows db) n) ≡ any (carries lens n) db.episodes
unfolding own_lenses episode_operator_rows
member-own lens n db =
    member-map lens (
      select (λ r. r.node_id == n.node_id)
        (operator_rows_of db (order_by created_before db.episodes)))
    ∙ any-select (λ r. r.lens == lens) (λ r. r.node_id == n.node_id)
        (operator_rows_of db (order_by created_before db.episodes))
    ∙ any-rows lens n db (order_by created_before db.episodes)
    ∙ any-order_by (carries lens n) created_before db.episodes

member-append :
    (s : String) (xs ys : List String) → member s (xs ++ ys) ≡ (member s xs || member s ys)
member-append s [] ys = refl
member-append s (x ∷ xs) ys = ground (arith, member-append s xs ys)

member-all :
    (lens : String) (db : Db) (ns : List Node)
    → member lens (all_lenses (episode_operator_rows db) ns)
      ≡ any (λ n. any (carries lens n) db.episodes) ns
unfolding all_lenses
member-all lens db [] = refl
member-all lens db (n ∷ ns) = ground (
  arith,
  member-append lens (own_lenses (episode_operator_rows db) n)
      (all_lenses (episode_operator_rows db) ns),
  member-own lens n db,
  member-all lens db ns,
)

-- A lens is burned on a node exactly if an episode of the node or of one of its ancestors carries
-- it.
pub burned_lenses_lem :
    (lens i : String) (db : Db)
    → member lens (burned_lenses i db)
      ≡ any (λ n. any (carries lens n) db.episodes) (ancestry (list_nodes db) i)
unfolding burned_lenses
burned_lenses_lem lens i db = member-all lens db (ancestry (list_nodes db) i)

-- A lease that is open has no outcome.
abbrev pub no_outcome : ProposerAllocation → Bool
no_outcome a = not (is_none a.finished_at) || is_live a.state
  where
    is_live : Option LeaseState → Bool
    is_live (some (concluded o)) = false
    is_live _ = true

split_count :
    (xs : List ProposerAllocation)
    → all no_outcome xs ≡ true
    → count is_open_lease xs
      ≡ count (open_in_state is_researching) xs
        + (count (open_in_state is_parked) xs + count (open_in_state is_sent_back) xs)
unfolding is_open_lease open_in_state is_researching is_parked is_sent_back
split_count [] h = refl
split_count (a ∷ xs) h = ground (arith, split_count xs, h)

-- When no open lease has an outcome, the open leases are those that research, those that await
-- adjudication and those that are sent back, with none counted twice.
pub open_allocation_count_lem :
    (db : Db)
    → all no_outcome db.proposer_allocations ≡ true
    → open_allocation_count db
      ≡ researching_open_allocation_count db
        + (length (awaiting_adjudication_allocations db) + length (reopen_allocations db))
unfolding open_allocation_count researching_open_allocation_count awaiting_adjudication_allocations
    reopen_allocations
open_allocation_count_lem db h = omega (
  arith,
  split_count db.proposer_allocations h,
  length-select (open_in_state is_parked) db.proposer_allocations,
  length-select (open_in_state is_sent_back) db.proposer_allocations,
)
