-- ===== src/Frontier/Policy.antt =====
-- GepaPolicy.compute, TopKPolicy.compute and compute_frontier.
use simple_evolution.Prelude.{
  ℕ, String, Bool, false, not, ◌&&◌, ◌||◌, Option, none, some, List, [], ◌∷◌, ◌==◌, string_eq,
  member, select, any, take, order_by, max, nat_beq, get_or, if◌then◌else◌, map,
}
use simple_evolution.Prelude.Int.{ℤ, ltbℤ, eqbℤ}
use simple_evolution.Text.{text_before}
use simple_evolution.Json.{Dict, lookup}
use simple_evolution.Db.Rows.{Node, is_active}
use simple_evolution.Frontier.Axis.{
  Measured, Values, metric_values, axis_direction, winners, add, better,
}

pub record Frontier : Type 0 where
  pub node_ids : List String
  pub axes : List (String × List String)

pub data Policy : Type 0 where
  gepa : Policy
  topk : ℕ → Policy

pub record FrontierConfig : Type 0 where
  pub axes : List String
  pub policy : Policy
  pub schema : Option Dict

-- axes_winners[axis] = winners, if there are any.
unfoldable pub add_axis :
    String → List String → List (String × List String) → List (String × List String)
add_axis axis [] rest = rest
add_axis axis (w ∷ ws) rest = (axis, w ∷ ws) ∷ rest

-- union.update(w)
unfoldable pub add_all : List String → List String → List String
add_all [] union = union
add_all (w ∷ ws) union = add_all ws (add w union)

unfoldable pub union_of : List (String × List String) → List String → List String
unfolding add_all
union_of [] union = union
union_of ((axis, ws) ∷ rest) union = union_of rest (add_all ws union)

-- One entry for each of the axes. An axis that is named twice has its entry twice, with the same
-- winners, where the dict has it once.
unfoldable pub best_per_axis : Option Dict → Values → List String → List (String × List String)
unfolding add_axis
best_per_axis schema values [] = []
best_per_axis schema values (axis ∷ axes) =
    add_axis axis (winners (axis_direction axis schema) axis values)
      (best_per_axis schema values axes)

-- The loop of `dominates` over the axes of v, with the flag `strictly`.
unfoldable pub dominates_from : Option Dict → Measured → Measured → Bool → Bool
dominates_from schema u_vals [] strictly = strictly
dominates_from schema u_vals ((axis, v) ∷ v_vals) strictly = elim (lookup axis u_vals) [
  | none ↦ false
  | some u ↦
      let lower = axis_direction axis schema in
      let rest = dominates_from schema u_vals v_vals (better lower u v || strictly) in
      if better lower v u then false else rest
]

unfoldable pub dominates : Option Dict → Values → String → String → Bool
unfolding dominates_from
dominates schema values u v =
    dominates_from schema (get_or (lookup u values) []) (get_or (lookup v values) []) false

unfoldable pub non_dominated : Option Dict → Values → List String → List String
unfolding dominates
non_dominated schema values union =
    select (λ i. not (any (λ other. not (other == i) && dominates schema values other i) union))
      union

-- {axis: w & non_dominated}, without the axes that hold no winner any more.
unfoldable pub prune : List String → List (String × List String) → List (String × List String)
unfolding add_axis
prune kept [] = []
prune kept ((axis, ws) ∷ rest) = add_axis axis (select (λ w. member w kept) ws) (prune kept rest)

unfoldable pub gepa_compute : Option Dict → Values → List String → Frontier
unfolding best_per_axis union_of non_dominated prune
gepa_compute schema values axes =
    let found = best_per_axis schema values axes in
    let kept = non_dominated schema values (union_of found []) in
    record { node_ids = kept; axes = prune kept found }

unfoldable pub axis_entries : String → Values → List (String × ℤ)
axis_entries axis [] = []
axis_entries axis ((i, vals) ∷ rest) = elim (lookup axis vals) [
  | none ↦ axis_entries axis rest
  | some v ↦ (i, v) ∷ axis_entries axis rest
]

-- key=lambda t: (t[1], t[0])
unfoldable pub entry_before : String × ℤ → String × ℤ → Bool
entry_before (i, u) (j, v) = ltbℤ u v || (eqbℤ u v && text_before i j)

abbrev pub backwards : {A : Type 0} → List A → List A → List A
backwards [] acc = acc
backwards (x ∷ xs) acc = backwards xs (x ∷ acc)

unfoldable pub sorted_by : Bool → List (String × ℤ) → List (String × ℤ)
unfolding entry_before
sorted_by lower entries =
    let sorted = order_by entry_before entries in if lower then sorted else backwards sorted []

unfoldable pub top_of_axis : ℕ → Bool → List (String × ℤ) → List String
unfolding sorted_by
top_of_axis k lower entries = map (λ e. e.0) (take (max 1 k) (sorted_by lower entries))

unfoldable pub top_per_axis : ℕ → Option Dict → Values → List String → List (String × List String)
unfolding axis_entries top_of_axis add_axis
top_per_axis k schema values [] = []
top_per_axis k schema values (axis ∷ axes) =
    add_axis axis (top_of_axis k (axis_direction axis schema) (axis_entries axis values))
      (top_per_axis k schema values axes)

unfoldable pub topk_compute : ℕ → Option Dict → Values → List String → Frontier
unfolding top_per_axis union_of
topk_compute k schema values axes =
    let found = top_per_axis k schema values axes in
    record { node_ids = union_of found []; axes = found }

unfoldable pub policy_compute : List Node → FrontierConfig → Frontier
unfolding gepa_compute topk_compute
policy_compute nodes config = apply config.policy
  where
    values : Values
    values = metric_values (select (λ n. is_active n.status) nodes) config.axes

    apply : Policy → Frontier
    apply gepa = gepa_compute config.schema values config.axes
    apply (topk k) = topk_compute k config.schema values config.axes

-- The active nodes of depth 0.
unfoldable pub active_roots : List Node → List String
active_roots nodes =
    map (λ n. n.node_id) (select (λ n. is_active n.status && nat_beq n.depth 0) nodes)

unfoldable pub or_bootstrap : List Node → Frontier → Frontier
unfolding active_roots
or_bootstrap nodes f = elim f.node_ids [
  | [] ↦ record { node_ids = active_roots nodes; axes = [] }
  | _ ∷ _ ↦ f
]

unfoldable pub compute_frontier : List Node → FrontierConfig → Frontier
unfolding policy_compute or_bootstrap
compute_frontier nodes config = or_bootstrap nodes (policy_compute nodes config)
