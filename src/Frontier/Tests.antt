-- ===== src/Frontier/Tests.antt =====
-- Frontiers of three nodes.
use simple_evolution.Prelude.{
  ℕ, String, ◌≡◌, refl, none, some, [], ◌∷◌, List, true, false, ◌⊎◌, member, any, all, ◌&&◌, ◌==◌,
  string_eq, length, max,
}
use simple_evolution.Prelude.Int.{pos}
use simple_evolution.Json.{number, lookup}
use simple_evolution.Db.Rows.{Node}
use simple_evolution.Frontier.Axis.{
  metric_values, measure, add_values, axis_direction, winners, scan, weigh,
}
use simple_evolution.Frontier.Policy.{
  gepa, topk, compute_frontier, policy_compute, or_bootstrap, gepa_compute, best_per_axis, add_axis,
  union_of, add_all, non_dominated, dominates, dominates_from, prune, topk_compute, axis_entries,
}
use simple_evolution.Frontier.Winners.{is_best, winners-best}
use simple_evolution.Frontier.Survivors.{survivors, beats, survivors-undominated, survivors-cover}
use simple_evolution.Frontier.Bounds.{compute_frontier-live}
use simple_evolution.Frontier.Top.{size_of_top, is_among, topk-best}
use simple_evolution.Samples.{root}

abbrev measured : String → ℕ → ℕ → Node
measured i time size = record root {
  node_id = i;
  metrics = ("time", number (pos time)) ∷ ("size", number (pos size)) ∷ [];
}

-- The second node ties on time and is worse on size.
abbrev nodes : List Node
nodes = measured "n1" 1 5 ∷ measured "n2" 1 7 ∷ measured "n3" 4 2 ∷ []

abbrev axes : List String
axes = "time" ∷ "size" ∷ []

gepa_keeps :
    (compute_frontier nodes (record { axes = axes; policy = gepa; schema = none })).node_ids
    ≡ "n1" ∷ "n3" ∷ []
unfolding compute_frontier policy_compute or_bootstrap gepa_compute best_per_axis add_axis union_of
    add_all non_dominated dominates dominates_from prune metric_values measure add_values
    axis_direction winners scan weigh
gepa_keeps = refl

survivors-undominated_example : beats none nodes axes "n3" "n1" ≡ false
unfolding gepa_compute best_per_axis add_axis union_of add_all non_dominated dominates
    dominates_from prune metric_values measure add_values axis_direction winners scan weigh
survivors-undominated_example = survivors-undominated none nodes axes "n1" "n3" refl refl

survivors-cover_example :
    (member "n2" (survivors none nodes axes) ≡ true)
    ⊎ ((m : String) × (member m (survivors none nodes axes) ≡ true)
        × (beats none nodes axes m "n2" ≡ true))
unfolding best_per_axis add_axis union_of add_all metric_values measure add_values axis_direction
    winners scan weigh
survivors-cover_example = survivors-cover none nodes axes "n2" refl

winners-best_example :
    member "n2" (winners true "time" (metric_values nodes axes))
    ≡ any
        (λ e. (e.0 == "n2") && is_best true "time" (metric_values nodes axes) e.1)
        (metric_values nodes axes)
winners-best_example = winners-best true "time" (metric_values nodes axes) "n2"

topk-best_example :
    (ws : List String) × (lookup "time" (topk_compute 2 none (metric_values nodes axes) axes).axes
      ≡ some ws)
    × (length ws ≡ size_of_top (max 1 2) (axis_entries "time" (metric_values nodes axes)))
    × (all
          (is_among
            (axis_direction "time" none)
            (max 1 2)
            (axis_entries "time" (metric_values nodes axes)))
          ws
        ≡ true)
unfolding metric_values measure add_values axis_entries
topk-best_example = topk-best 2 none (metric_values nodes axes) axes "time" refl refl

compute_frontier-live_example :
    (i : String) × (rest : List String) × ((compute_frontier
        (root ∷ [])
        (record { axes = axes; policy = topk 3; schema = none })).node_ids
      ≡ i ∷ rest)
compute_frontier-live_example =
    compute_frontier-live (root ∷ []) (record { axes = axes; policy = topk 3; schema = none }) refl
