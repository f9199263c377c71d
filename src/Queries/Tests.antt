-- ===== src/Queries/Tests.antt =====
-- A small tree: a root and its child, with a lens on each.
use simple_evolution.Prelude.{◌≡◌, ◌+◌, refl, some, List, [], ◌∷◌, any, member, length, string_eq}
use simple_evolution.Db.Rows.{Node, awaiting_adjudication}
use simple_evolution.Db.State.{Db}
use simple_evolution.Queries.Reads.{
  open_allocation_count, researching_open_allocation_count, awaiting_adjudication_allocations,
  reopen_allocations, list_nodes,
}
use simple_evolution.Queries.Lineage.{node_lineage, ancestry, reversed, burned_lenses}
use simple_evolution.Queries.LineageLaws.{Climbs, node_lineage-Climbs}
use simple_evolution.Queries.ReadsLaws.{carries, burned_lenses_lem, open_allocation_count_lem}
use simple_evolution.Samples.{root, episode, open_lease, closed_lease, small_db}

abbrev child : Node
child = record root { node_id = "n1"; parent_node_id = some "n0"; created_at = 7 }

abbrev tree_db : Db
tree_db = record small_db {
  nodes = root ∷ child ∷ [];
  episodes =
      record (episode "e1") { variation_operator = some "memory" }
      ∷ record (episode "e3") { node_id = "n1"; variation_operator = some "loops" }
      ∷ [];
  proposer_allocations =
      open_lease ∷ closed_lease ∷ record open_lease { state = some awaiting_adjudication } ∷ [];
}

node_lineage-Climbs_example :
    (ns : List Node) × (node_lineage "n1" tree_db ≡ reversed ns [])
    × Climbs tree_db.nodes [] (some "n1") ns
node_lineage-Climbs_example = node_lineage-Climbs "n1" tree_db

burned_lenses_example :
    member "memory" (burned_lenses "n1" tree_db)
    ≡ any (λ n. any (carries "memory" n) tree_db.episodes) (ancestry (list_nodes tree_db) "n1")
burned_lenses_example = burned_lenses_lem "memory" "n1" tree_db

open_allocation_count_example :
    open_allocation_count tree_db
    ≡ researching_open_allocation_count tree_db
      + (length (awaiting_adjudication_allocations tree_db) + length (reopen_allocations tree_db))
open_allocation_count_example = open_allocation_count_lem tree_db refl
