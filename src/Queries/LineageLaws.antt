-- ===== src/Queries/LineageLaws.antt =====
-- The walk to the root ends, and what it burns.
use simple_evolution.Prelude.{
  ℕ, zero, suc, String, Bool, true, false, not, ◌||◌, ◌≡◌, ◌<◌, ◌≤◌, refl, Option, none, some, List,
  [], ◌∷◌, ◌==◌, string_eq, option_eq, member, find, count, length, arith, eq_refl, eq_iff,
}
use simple_evolution.Db.Rows.{Node}
use simple_evolution.Db.State.{Db}
use simple_evolution.Queries.Lineage.{climb, ancestry, reversed, node_lineage}

module _ (nodes : List Node) where
  -- The walk as a loop without a bound: the nodes that the rounds from here on append.
  pub data Climbs : List String → Option String → List Node → Type 0 where
    at_root : (seen : List String) → Climbs seen none []
    stops :
        (seen : List String) (i : String)
        → (i == "" || member i seen) ≡ true
        → Climbs seen (some i) []
    missing :
        (seen : List String) (i : String)
        → (i == "" || member i seen) ≡ false
        → find (λ n. n.node_id == i) nodes ≡ none
        → Climbs seen (some i) []
    round :
        (seen : List String) (i : String) (n : Node) (ns : List Node)
        → (i == "" || member i seen) ≡ false
        → find (λ n. n.node_id == i) nodes ≡ some n
        → Climbs (i ∷ seen) n.parent_node_id ns
        → Climbs seen (some i) (n ∷ ns)

-- The nodes that a walk has not been at.
unseen : List String → List Node → ℕ
unseen seen ns = count (λ n. not (member n.node_id seen)) ns

unseen-shrinks :
    (seen : List String) (i : String) (ns : List Node) → unseen (i ∷ seen) ns ≤ unseen seen ns
unfolding unseen
unseen-shrinks seen i [] = omega arith
unseen-shrinks seen i (n ∷ ns) = ground (arith, unseen-shrinks seen i ns)

unseen-find :
    (seen : List String) (i : String) (n : Node) (ns : List Node)
    → find (λ n. n.node_id == i) ns ≡ some n
    → member i seen ≡ false
    → unseen (i ∷ seen) ns < unseen seen ns
unfolding unseen
unseen-find seen i n [] h k = cc
unseen-find seen i n (m ∷ ns) h k =
    ground
      (arith, unseen-shrinks seen i ns, unseen-find seen i n ns, eq_iff m.node_id i, eq_refl i, k)

climb-Climbs :
    (nodes : List Node) (fuel : ℕ) (seen : List String) (current : Option String)
    → unseen seen nodes < fuel
    → Climbs nodes seen current (climb fuel nodes seen current)
unfolding climb
climb-Climbs nodes zero seen current h = ground arith
climb-Climbs nodes (suc fuel) seen none h = at_root seen
climb-Climbs nodes (suc fuel) seen (some i) h =
    go (i == "" || member i seen) refl (find (λ n. n.node_id == i) nodes) refl
      (λ n. climb-Climbs nodes fuel (i ∷ seen) n.parent_node_id)
  where
    go :
        (b : Bool)
        → (i == "" || member i seen) ≡ b
        → (o : Option Node) → find (λ n. n.node_id == i) nodes ≡ o
        → ((n : Node)
            → unseen (i ∷ seen) nodes < fuel
            → Climbs nodes
                (i ∷ seen)
                n.parent_node_id
                (climb fuel nodes (i ∷ seen) n.parent_node_id))
        → Climbs nodes seen (some i) (elim b [
          | true ↦ []
          | false ↦ elim o [ none ↦ [] | some n ↦ n ∷ climb fuel nodes (i ∷ seen) n.parent_node_id ]
        ])
    go true e o f rest = stops seen i e
    go false e none f rest = missing seen i e f
    go false e (some n) f rest =
        round seen i n _ e f (rest n (ground (arith, h, unseen-find seen i n nodes f, e)))

unseen-nothing : (ns : List Node) → unseen [] ns ≡ length ns
unfolding unseen
unseen-nothing [] = refl
unseen-nothing (n ∷ ns) = ground (arith, unseen-nothing ns)

-- The lineage walk ends on any table of nodes, cycles included: in one round more than there are
-- nodes it does what the loop without a bound does, and node_lineage is its nodes from the root
-- down.
pub node_lineage-Climbs :
    (i : String) (db : Db)
    → (ns : List Node) × (node_lineage i db ≡ reversed ns []) × Climbs db.nodes [] (some i) ns
unfolding node_lineage ancestry
node_lineage-Climbs i db = (
  _,
  refl,
  climb-Climbs db.nodes (suc (length db.nodes)) [] (some i)
      (ground (arith, unseen-nothing db.nodes)),
)
