-- ===== src/Seats/Purchase.antt =====
-- `_seat_purchases` and `_seat_leases`: the purchases of a growth decision become leases.
use simple_evolution.Prelude.{
  ℕ, zero, suc, String, Bool, true, false, not, ◌&&◌, ◌||◌, ◌+◌, Option, none, some, List, [], ◌∷◌,
  ◌==◌, string_eq, any, member, find, length, ltb, if◌then◌else◌,
}
use simple_evolution.Json.{
  Json, Items, nil, cons, Fields, end, field, null, array, object, text, get_field,
}
use simple_evolution.Db.Rows.{Node, NodeStatus, dead, Episode}
use simple_evolution.Db.State.{Db}
use simple_evolution.Db.Exec.{
  Exec, ◌>>=◌, ◌>>◌, pure, raise, raise_if, or_raise, gets, transaction, malformed_purchase,
  too_many_seats, no_lens_basis, duplicate_purchase, unknown_lens, not_allocatable, lens_burned,
}
use simple_evolution.Db.Select.{get_node}
use simple_evolution.Db.Insert.{create_episode}
use simple_evolution.Lease.Allocate.{LeaseSpec}
use simple_evolution.Queries.Reads.{
  list_nodes, episodes_for_node, allocated_episode_ids, researching_open_allocation_count,
}
use simple_evolution.Queries.Lineage.{burned_lenses}

pub record SeatPurchase : Type 0 where
  pub node_id : String
  pub lens : String

-- The settings of the scheduler: the limit on seats and the ids of the lens basis.
pub record SeatRules : Type 0 where
  pub max_proposer_inflight : ℕ
  pub basis : List String

-- set(item) - {"node_id", "lens"} is not empty.
unfoldable pub has_extra : Fields → Bool
has_extra end = false
has_extra (field k v fs) = not (k == "node_id" || k == "lens") || has_extra fs

-- A text that is not empty.
unfoldable pub full_text : Option Json → Option String
full_text (some (text s)) = if s == "" then none else some s
full_text _ = none

unfoldable pub seat_purchase : Json → Exec SeatPurchase
unfolding has_extra full_text
seat_purchase (object fs) = do
  raise_if (has_extra fs) (malformed_purchase "seat purchase may carry only node_id and lens")
  node_id ←
      or_raise (full_text (get_field "node_id" fs))
        (malformed_purchase "seat purchase node_id must be non-empty")
  lens ←
      or_raise (full_text (get_field "lens" fs))
        (malformed_purchase "seat purchase lens must be non-empty")
  pure (record { node_id = node_id; lens = lens })
seat_purchase _ = raise (malformed_purchase "each seat purchase must be an object")

unfoldable pub purchases_of : Items → Exec (List SeatPurchase)
unfolding seat_purchase
purchases_of nil = pure []
purchases_of (cons x xs) = do p ← seat_purchase x; ps ← purchases_of xs; pure (p ∷ ps)

-- result.get("seat_purchases")
unfoldable pub seat_purchases : Option Json → Exec (List SeatPurchase)
unfolding purchases_of
seat_purchases none = raise (malformed_purchase "growth decision must carry seat_purchases")
seat_purchases (some null) = raise (malformed_purchase "growth decision must carry seat_purchases")
seat_purchases (some (array xs)) = purchases_of xs
seat_purchases (some _) = raise (malformed_purchase "seat_purchases must be a list")

-- parents.get(i)
unfoldable pub parent_of : List Node → String → Option String
parent_of nodes i = elim (find (λ n. n.node_id == i) nodes) [
  | none ↦ none
  | some n ↦ n.parent_node_id
]

-- Whether the walk from `current` meets a in so many rounds.
unfoldable pub meets : ℕ → List Node → String → Option String → Bool
unfolding parent_of
meets zero nodes a current = false
meets (suc hops) nodes a none = false
meets (suc hops) nodes a (some c) =
    let rest = meets hops nodes a (parent_of nodes c) in not (c == "") && (c == a || rest)

-- a is an ancestor of b, at most 100 generations away.
unfoldable pub related : List Node → String → String → Bool
unfolding meets parent_of
related nodes a b = meets 100 nodes a (parent_of nodes b)

unfoldable pub same_purchase : SeatPurchase → SeatPurchase → Bool
same_purchase p q = q.node_id == p.node_id && q.lens == p.lens

-- A sibling purchase of the lens on an ancestor or on a descendant.
unfoldable pub clashes : List Node → SeatPurchase → SeatPurchase → Bool
unfolding related
clashes nodes p q =
    q.lens == p.lens
    && (not (q.node_id == p.node_id)
        && (related nodes q.node_id p.node_id || related nodes p.node_id q.node_id))

unfoldable pub is_dead : NodeStatus → Bool
is_dead dead = true
is_dead _ = false

unfoldable pub allocatable : Option Node → Bool
unfolding is_dead
allocatable none = false
allocatable (some n) = not (is_dead n.status)

unfoldable pub new_seat_episode : String → Exec Episode
new_seat_episode node_id = transaction (create_episode none node_id)

unfoldable pub first_or_new : String → Option Episode → Exec Episode
unfolding new_seat_episode
first_or_new node_id (some e) = pure e
first_or_new node_id none = new_seat_episode node_id

-- An episode of the node that no lease has held and no purchase of this decision has claimed.
unfoldable pub fresh_episode : String → List String → Db → Option Episode
fresh_episode node_id claimed db =
    find
      (λ e.
        not (member e.episode_id (allocated_episode_ids db)) && not (member e.episode_id claimed))
      (episodes_for_node node_id 1000 db)

unfoldable pub seat_episode_for_node : String → List String → Exec Episode
unfolding fresh_episode first_or_new
seat_episode_for_node node_id claimed = do
  found ← gets (fresh_episode node_id claimed)
  first_or_new node_id found

-- What the loop over the purchases reads once, before it starts.
pub record Snapshot : Type 0 where
  pub known : List String
  pub before : Db

-- One purchase, after those in `seen`, which have claimed episodes. An episode is always found or
-- made.
unfoldable pub seat_lease :
    Snapshot → List SeatPurchase → List String → SeatPurchase → Exec LeaseSpec
unfolding same_purchase clashes allocatable seat_episode_for_node
seat_lease s seen claimed p = do
  raise_if (any (same_purchase p) seen) (duplicate_purchase p.node_id p.lens)
  raise_if (not (member p.lens s.known)) (unknown_lens p.lens)
  node ← gets (get_node p.node_id)
  raise_if (not (allocatable node)) (not_allocatable p.node_id)
  raise_if (member p.lens (burned_lenses p.node_id s.before)) (lens_burned p.node_id p.lens)
  raise_if (any (clashes (list_nodes s.before) p) seen) (lens_burned p.node_id p.lens)
  e ← seat_episode_for_node p.node_id claimed
  pure (record {
    node_id = p.node_id;
    episode_id = e.episode_id;
    proposal_slots = 1;
    lens = some p.lens;
  })

unfoldable pub lease_all :
    Snapshot → List SeatPurchase → List String → List SeatPurchase → Exec (List LeaseSpec)
unfolding seat_lease
lease_all s seen claimed [] = pure []
lease_all s seen claimed (p ∷ ps) = do
  l ← seat_lease s seen claimed p
  ls ← lease_all s (p ∷ seen) (l.episode_id ∷ claimed) ps
  pure (l ∷ ls)

unfoldable pub is_empty_basis : List String → Bool
is_empty_basis [] = true
is_empty_basis (l ∷ ls) = false

-- More purchases than max_proposer_inflight less the leases that research: the capacity may be
-- negative, which refuses the empty list as well.
unfoldable pub exceeds_capacity : SeatRules → ℕ → Db → Bool
exceeds_capacity rules n db =
    ltb rules.max_proposer_inflight (n + researching_open_allocation_count db)

unfoldable pub seat_leases : SeatRules → List SeatPurchase → Exec (List LeaseSpec)
unfolding exceeds_capacity is_empty_basis lease_all
seat_leases rules ps = do
  db ← gets (λ d. d)
  raise_if (exceeds_capacity rules (length ps) db) too_many_seats
  raise_if (is_empty_basis rules.basis) no_lens_basis
  lease_all (record { known = rules.basis; before = db }) [] [] ps
