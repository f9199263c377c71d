-- ===== src/Queries/Lineage.antt =====
-- The walks from a node to the root: `node_lineage` and `burned_lenses`.
use simple_evolution.Prelude.{
  ℕ, zero, suc, String, true, false, ◌||◌, Option, none, some, List, [], ◌∷◌, ◌++◌, ◌==◌, string_eq,
  member, map, select, find, length,
}
use simple_evolution.Db.Rows.{Node}
use simple_evolution.Db.State.{Db}
use simple_evolution.Queries.Reads.{OperatorRow, episode_operator_rows, list_nodes}

-- while current and current not in seen: the nodes on the way, in at most so many rounds.
unfoldable pub climb : ℕ → List Node → List String → Option String → List Node
climb zero nodes seen current = []
climb (suc fuel) nodes seen none = []
climb (suc fuel) nodes seen (some i) = elim (i == "" || member i seen) [
  | true ↦ []
  | false ↦ elim (find (λ n. n.node_id == i) nodes) [
    | none ↦ []
    | some n ↦ n ∷ climb fuel nodes (i ∷ seen) n.parent_node_id
  ]
]

-- The walk from a node, in one round more than there are nodes.
unfoldable pub ancestry : List Node → String → List Node
unfolding climb
ancestry nodes i = climb (suc (length nodes)) nodes [] (some i)

unfoldable pub reversed : List Node → List Node → List Node
reversed [] acc = acc
reversed (n ∷ ns) acc = reversed ns (n ∷ acc)

-- root -> ... -> node
unfoldable pub node_lineage : String → Db → List Node
unfolding ancestry reversed
node_lineage i db = reversed (ancestry db.nodes i) []

-- The lenses that the episodes of a node carry.
unfoldable pub own_lenses : List OperatorRow → Node → List String
own_lenses rows n = map (λ r. r.lens) (select (λ r. r.node_id == n.node_id) rows)

unfoldable pub all_lenses : List OperatorRow → List Node → List String
unfolding own_lenses
all_lenses rows [] = []
all_lenses rows (n ∷ ns) = own_lenses rows n ++ all_lenses rows ns

-- burned_lenses().get(node_id, frozenset())
unfoldable pub burned_lenses : String → Db → List String
unfolding ancestry all_lenses
burned_lenses i db = all_lenses (episode_operator_rows db) (ancestry (list_nodes db) i)
