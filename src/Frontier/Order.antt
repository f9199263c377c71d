-- ===== src/Frontier/Order.antt =====
-- Domination is a strict order on measured nodes.
use simple_evolution.Prelude.{
  String, Bool, true, false, not, ◌&&◌, ◌||◌, ◌≡◌, refl, Option, none, some, List, [], ◌∷◌, ◌==◌,
  string_eq, any, all, member, arith, get_or, eq_refl, eq_iff, Bool-cases, ◌⊎◌, inl, inr,
  if◌then◌else◌, subst,
}
use simple_evolution.Prelude.Int.{ℤ}
use simple_evolution.Json.{Dict, lookup}
use simple_evolution.Db.Rows.{Node}
use simple_evolution.Frontier.Axis.{
  Measured, Values, measure, metric_values, add_values, numeric, better, axis_direction,
}
use simple_evolution.Frontier.Policy.{dominates, dominates_from}
use simple_evolution.Frontier.Winners.{better_irrefl}

worse_trans :
    (lower : Bool) (x y z : ℤ)
    → better lower x y ≡ false
    → better lower y z ≡ false
    → better lower x z ≡ false
worse_trans lower x y z h k = ground arith

better_than :
    (lower : Bool) (x y z : ℤ)
    → better lower y x ≡ true
    → better lower y z ≡ false
    → better lower z x ≡ true
better_than lower x y z h k = ground arith

module _ (schema : Option Dict) where
  -- Measured on the axis, and no worse than the value.
  no_worse : Measured → String × ℤ → Bool
  no_worse u (axis, v) = elim (lookup axis u) [
    | none ↦ false
    | some x ↦ not (better (axis_direction axis schema) v x)
  ]

  stronger_on : Measured → String × ℤ → Bool
  stronger_on u (axis, v) = elim (lookup axis u) [
    | none ↦ false
    | some x ↦ better (axis_direction axis schema) x v
  ]

  -- The loop checks one condition on all the axes, and one on some axis.
  Checks : Measured → Measured → Type 0
  Checks u v =
      (strictly : Bool)
      → dominates_from schema u v strictly
        ≡ (all (no_worse u) v && (any (stronger_on u) v || strictly))

  dominates_step :
      (u : Measured) (axis : String) (x : ℤ) (v : Measured) → Checks u v → Checks u ((axis, x) ∷ v)
  unfolding Checks dominates_from no_worse stronger_on
  dominates_step u axis x v ih strictly = go (lookup axis u) refl
    where
      go :
          (o : Option ℤ)
          → lookup axis u ≡ o
          → dominates_from schema u ((axis, x) ∷ v) strictly ≡ (
              all (no_worse u) ((axis, x) ∷ v) && (any (stronger_on u) ((axis, x) ∷ v) || strictly))
      go none e = ground (arith, e)
      go (some y) e = ground (arith, e, ih (better (axis_direction axis schema) y x || strictly))

  dominates_from_lem : (u v : Measured) → Checks u v
  unfolding Checks dominates_from
  dominates_from_lem u [] strictly = ground arith
  dominates_from_lem u ((axis, x) ∷ v) strictly =
      dominates_step u axis x v (dominates_from_lem u v) strictly

  all-lookup :
      (u v : Measured) (axis : String) (x : ℤ)
      → all (no_worse u) v ≡ true
      → lookup axis v ≡ some x
      → no_worse u (axis, x) ≡ true
  all-lookup u [] axis x h e = cc
  all-lookup u ((other, y) ∷ v) axis x h e = go (Bool-cases (other == axis)) (all-lookup u v axis x)
    where
      go :
          ((other == axis) ≡ true) ⊎ ((other == axis) ≡ false)
          → (all (no_worse u) v ≡ true → lookup axis v ≡ some x → no_worse u (axis, x) ≡ true)
          → no_worse u (axis, x) ≡ true
      go (inl q) ih =
          let p : other ≡ axis = (eq_iff other axis).0 q in
          let r : y ≡ x = ground (arith, q, e) in
          let s : no_worse u (other, y) ≡ true = ground (arith, h) in cc (p, r, s)
      go (inr q) ih = ih (ground (arith, h)) (ground (arith, e, q))

  -- On one axis: what is no worse than a node that is no worse than the value.
  entry_trans :
      (u v : Measured) (axis : String) (x : ℤ)
      → all (no_worse u) v ≡ true
      → no_worse v (axis, x) ≡ true
      → (no_worse u (axis, x) ≡ true)
        × (stronger_on v (axis, x) ≡ true → stronger_on u (axis, x) ≡ true)
  unfolding no_worse stronger_on
  entry_trans u v axis x h k = go (lookup axis v) refl
    where
      Result : Type 0
      Result =
          (no_worse u (axis, x) ≡ true)
          × (stronger_on v (axis, x) ≡ true → stronger_on u (axis, x) ≡ true)

      at : (y : ℤ) (o : Option ℤ) → lookup axis v ≡ some y → lookup axis u ≡ o → Result
      at y none e f = ground (arith, e, f, all-lookup u v axis y h e)
      at y (some z) e f = (
        ground (
          arith,
          e,
          f,
          k,
          all-lookup u v axis y h e,
          worse_trans (axis_direction axis schema) x y z,
        ),
        λ s. ground (
          arith,
          e,
          f,
          k,
          s,
          all-lookup u v axis y h e,
          better_than (axis_direction axis schema) x y z,
        ),
      )

      go : (o : Option ℤ) → lookup axis v ≡ o → Result
      go none e = ground (arith, e, k)
      go (some y) e = at y (lookup axis u) e refl

  -- What dominates a node is no worse than all that the node is no worse than.
  no_worse_trans :
      (u v w : Measured)
      → all (no_worse u) v ≡ true
      → all (no_worse v) w ≡ true
      → all (no_worse u) w ≡ true
  no_worse_trans u v [] h k = refl
  no_worse_trans u v ((axis, x) ∷ w) h k =
      let head : no_worse v (axis, x) ≡ true = ground (arith, k) in
      let tail : all (no_worse v) w ≡ true = ground (arith, k) in
      ground (arith, (entry_trans u v axis x h head).0, no_worse_trans u v w h tail)

  stronger_on_trans :
      (u v w : Measured)
      → all (no_worse u) v ≡ true
      → all (no_worse v) w ≡ true
      → any (stronger_on v) w ≡ true
      → any (stronger_on u) w ≡ true
  stronger_on_trans u v [] h k s = cc
  stronger_on_trans u v ((axis, x) ∷ w) h k s =
      let head : no_worse v (axis, x) ≡ true = ground (arith, k) in
      let tail : all (no_worse v) w ≡ true = ground (arith, k) in
      ground (arith, s, (entry_trans u v axis x h head).1, stronger_on_trans u v w h tail)

  pub dominates_from_trans :
      (u v w : Measured)
      → dominates_from schema u v false ≡ true
      → dominates_from schema v w false ≡ true
      → dominates_from schema u w false ≡ true
  unfolding Checks
  dominates_from_trans u v w h k =
      let a : all (no_worse u) v ≡ true = ground (arith, h, dominates_from_lem u v false) in
      let b : all (no_worse v) w ≡ true = ground (arith, k, dominates_from_lem v w false) in
      let c : any (stronger_on v) w ≡ true = ground (arith, k, dominates_from_lem v w false) in
      ground (
        arith,
        no_worse_trans u v w a b,
        stronger_on_trans u v w a b c,
        dominates_from_lem u w false,
      )

lookup-measure :
    (metrics : Dict) (axes : List String) (a : String)
    → lookup a (measure metrics axes) ≡ (if member a axes then numeric (lookup a metrics) else none)
unfolding measure
lookup-measure metrics [] a = refl
lookup-measure metrics (axis ∷ axes) a =
    go (Bool-cases (axis == a)) (numeric (lookup axis metrics)) refl (lookup-measure metrics axes a)
  where
    go :
        ((axis == a) ≡ true) ⊎ ((axis == a) ≡ false)
        → (o : Option ℤ) → numeric (lookup axis metrics) ≡ o
        → lookup a (measure metrics axes)
          ≡ (if member a axes then numeric (lookup a metrics) else none)
        → lookup a (measure metrics (axis ∷ axes))
          ≡ (if member a (axis ∷ axes) then numeric (lookup a metrics) else none)
    go (inl q) none e ih =
        let p : axis ≡ a = (eq_iff axis a).0 q in
        let f : numeric (lookup a metrics) ≡ none =
          subst (λ x. numeric (lookup x metrics) ≡ none) p e in
        ground (arith, q, e, f, ih)
    go (inl q) (some v) e ih =
        let p : axis ≡ a = (eq_iff axis a).0 q in
        let f : numeric (lookup a metrics) ≡ some v =
          subst (λ x. numeric (lookup x metrics) ≡ some v) p e in
        ground (arith, q, e, f)
    go (inr q) none e ih = ground (arith, q, e, ih)
    go (inr q) (some v) e ih = ground (arith, q, e, ih)

measure_irrefl :
    (schema : Option Dict) (metrics : Dict) (full axes : List String)
    → ((a : String) → member a axes ≡ true → member a full ≡ true)
    → any (stronger_on schema (measure metrics full)) (measure metrics axes) ≡ false
unfolding measure stronger_on
measure_irrefl schema metrics full [] h = refl
measure_irrefl schema metrics full (axis ∷ axes) h =
    go (numeric (lookup axis metrics)) refl (h axis (ground (arith, eq_refl axis)))
      (measure_irrefl schema metrics full axes λ a m. h a (ground (arith, m)))
  where
    go :
        (o : Option ℤ)
        → numeric (lookup axis metrics) ≡ o
        → member axis full ≡ true
        → any (stronger_on schema (measure metrics full)) (measure metrics axes) ≡ false
        → any (stronger_on schema (measure metrics full)) (measure metrics (axis ∷ axes)) ≡ false
    go none e m ih = ground (arith, e, ih)
    go (some v) e m ih = ground (
      arith,
      e,
      ih,
      m,
      lookup-measure metrics full axis,
      better_irrefl (axis_direction axis schema) v,
    )

-- A node does not dominate itself.
pub dominates_irrefl :
    (schema : Option Dict) (nodes : List Node) (axes : List String) (i : String)
    → dominates schema (metric_values nodes axes) i i ≡ false
unfolding dominates metric_values add_values Checks
dominates_irrefl schema [] axes i = ground arith
dominates_irrefl schema (n ∷ nodes) axes i =
    go (measure n.metrics axes) refl (dominates_irrefl schema nodes axes i)
  where
    go :
        (vals : Measured)
        → measure n.metrics axes ≡ vals
        → dominates schema (metric_values nodes axes) i i ≡ false
        → dominates schema (add_values n.node_id vals (metric_values nodes axes)) i i ≡ false
    go [] e ih = ih
    go (v ∷ vals) e ih =
        let s : any (stronger_on schema (v ∷ vals)) (v ∷ vals) ≡ false =
          subst (λ x. any (stronger_on schema x) x ≡ false) e
            (measure_irrefl schema n.metrics axes axes λ a m. m) in
        ground (arith, ih, s, dominates_from_lem schema (v ∷ vals) (v ∷ vals) false)

pub dominates_trans :
    (schema : Option Dict) (values : Values) (i j k : String)
    → dominates schema values i j ≡ true
    → dominates schema values j k ≡ true
    → dominates schema values i k ≡ true
unfolding dominates
dominates_trans schema values i j k =
    dominates_from_trans schema (get_or (lookup i values) []) (get_or (lookup j values) [])
      (get_or (lookup k values) [])
