-- ===== src/Frontier/Axis.antt =====
-- One axis of the frontier: the direction of an axis, the measured values of the nodes, and the scan
-- for the best ones.
use simple_evolution.Prelude.{
  String, Bool, true, false, Option, none, some, List, [], ◌∷◌, ◌++◌, string_eq, member,
  if◌then◌else◌,
}
use simple_evolution.Prelude.Int.{ℤ, ltbℤ, eqbℤ}
use simple_evolution.Json.{Json, Dict, number, object, get_field, lookup, is_text, truthy}
use simple_evolution.Db.Rows.{Node}

-- bool(block.get("lower_is_better", True)), for a block that is a dict; no block is an empty one.
-- The call raises on a block that is neither, and that case is left out: it counts as an empty one.
unfoldable pub lower_is_better : Option Json → Bool
lower_is_better (some (object fs)) = elim (get_field "lower_is_better" fs) [
  | none ↦ true
  | some v ↦ truthy v
]
lower_is_better _ = true

-- objective.get("key") == axis
unfoldable pub is_objective : String → Option Json → Bool
is_objective axis (some (object fs)) = is_text axis (get_field "key" fs)
is_objective axis _ = false

-- _axis_direction: true if lower is better.
unfoldable pub axis_direction : String → Option Dict → Bool
unfolding lower_is_better is_objective
axis_direction axis none = true
axis_direction axis (some schema) =
    if is_objective axis (lookup "objective" schema)
    then lower_is_better (lookup "objective" schema)
    else lower_is_better (lookup axis schema)

-- The values of one node, by axis; and of all measured nodes, by node id.
abbrev pub Measured : Type 0
Measured = List (String × ℤ)

abbrev pub Values : Type 0
Values = List (String × Measured)

-- A finite number, no Boolean.
abbrev pub numeric : Option Json → Option ℤ
numeric (some (number v)) = some v
numeric _ = none

-- One axis named twice holds the same value twice.
unfoldable pub measure : Dict → List String → Measured
measure metrics [] = []
measure metrics (axis ∷ axes) = elim (numeric (lookup axis metrics)) [
  | none ↦ measure metrics axes
  | some v ↦ (axis, v) ∷ measure metrics axes
]

unfoldable pub add_values : String → Measured → Values → Values
add_values i [] rest = rest
add_values i (v ∷ vs) rest = (i, v ∷ vs) ∷ rest

-- _metric_values
unfoldable pub metric_values : List Node → List String → Values
unfolding measure add_values
metric_values [] axes = []
metric_values (n ∷ ns) axes = add_values n.node_id (measure n.metrics axes) (metric_values ns axes)

-- v < best if lower else v > best
abbrev pub better : Bool → ℤ → ℤ → Bool
better lower v best = if lower then ltbℤ v best else ltbℤ best v

-- winners.add(nid)
abbrev pub add : String → List String → List String
add i is = if member i is then is else is ++ (i ∷ [])

-- One round of the loop over `values`, with the value of the round.
unfoldable pub weigh : Bool → String → Option ℤ → Option ℤ × List String → Option ℤ × List String
weigh lower i none best = best
weigh lower i (some v) (none, winners) = (some v, i ∷ [])
weigh lower i (some v) (some b, winners) =
    if better lower v b
    then (some v, i ∷ [])
    else if eqbℤ v b
    then (some b, add i winners)
    else (some b, winners)

unfoldable pub scan : Bool → String → Option ℤ × List String → Values → Option ℤ × List String
unfolding weigh
scan lower axis best [] = best
scan lower axis best ((i, vals) ∷ rest) =
    scan lower axis (weigh lower i (lookup axis vals) best) rest

-- The winners of an axis.
unfoldable pub winners : Bool → String → Values → List String
unfolding scan
winners lower axis values = (scan lower axis (none, []) values).1
