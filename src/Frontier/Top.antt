-- ===== src/Frontier/Top.antt =====
-- The Top-K policy: the best of each axis, and as many as there are up to the limit.
use simple_evolution.Prelude.{
  ℕ, zero, suc, String, Bool, true, false, ◌&&◌, ◌==◌, string_eq, ◌≡◌, refl, sym, ap, ◌∙◌, Option,
  some, List, [], ◌∷◌, all, any, take, length, map, member, arith, ltb, leb, max, all_mono,
  any-take, eq_refl, eq_iff, subst, if◌then◌else◌,
}
use simple_evolution.Prelude.Int.{ℤ}
use simple_evolution.Json.{Dict, lookup}
use simple_evolution.Frontier.Axis.{Values, better, axis_direction}
use simple_evolution.Frontier.Policy.{
  topk_compute, top_per_axis, top_of_axis, sorted_by, axis_entries, add_axis,
}
use simple_evolution.Frontier.Ranks.{
  Entries, rank, ranked-sorted_by, any-sorted_by, count-sorted_by, length-sorted_by, rank-take,
}

-- An entry of the node has less than `n` better ones.
abbrev pub is_among : Bool → ℕ → Entries → String → Bool
is_among lower n es i = any (λ e. (e.0 == i) && ltb (rank lower es e.1) n) es

abbrev pub size_of_top : ℕ → Entries → ℕ
size_of_top n es = if leb n (length es) then n else length es

length-top : (n : ℕ) (es : Entries) → length (map (λ e. e.0) (take n es)) ≡ size_of_top n es
length-top zero es = ground arith
length-top (suc n) [] = ground arith
length-top (suc n) (e ∷ es) = ground (arith, length-top n es)

all-map : (p : String → Bool) (es : Entries) → all p (map (λ e. e.0) es) ≡ all (λ e. p e.0) es
all-map p [] = refl
all-map p (e ∷ es) = ground (arith, all-map p es)

-- The entries of a list that pass a test are among those of their node that do.
all-own :
    (q : String × ℤ → Bool) (es : Entries)
    → all q es ≡ true
    → all (λ e. any (λ o. (o.0 == e.0) && q o) es) es ≡ true
all-own q [] h = refl
all-own q (x ∷ xs) h = ground (
  arith,
  h,
  eq_refl x.0,
  all_mono (λ e. any (λ o. (o.0 == e.0) && q o) xs) (λ e. any (λ o. (o.0 == e.0) && q o) (x ∷ xs))
      (λ e k. ground (arith, k)) xs (all-own q xs (ground (arith, h))),
)

top_of_axis-is_among :
    (k : ℕ) (lower : Bool) (es : Entries)
    → all (is_among lower (max 1 k) es) (top_of_axis k lower es) ≡ true
unfolding top_of_axis
top_of_axis-is_among k lower es =
    all-map (is_among lower n es) (take n sorted)
    ∙ all_mono (λ e. any (λ o. (o.0 == e.0) && few o) (take n sorted))
        (λ e. is_among lower n es e.0) in_axis (take n sorted) (all-own few (take n sorted) kept)
  where
    n : ℕ
    n = max 1 k

    sorted : Entries
    sorted = sorted_by lower es

    few : String × ℤ → Bool
    few e = ltb (rank lower es e.1) n

    kept : all few (take n sorted) ≡ true
    kept =
        all_mono (λ e. ltb (rank lower sorted e.1) n) few
          (λ e h. ground (arith, h, count-sorted_by (λ o. better lower o.1 e.1) lower es))
          (take n sorted) (rank-take lower n sorted (ranked-sorted_by lower es))

    in_axis :
        (e : String × ℤ)
        → any (λ o. (o.0 == e.0) && few o) (take n sorted) ≡ true
        → is_among lower n es e.0 ≡ true
    in_axis e h = ground (
      arith,
      any-take (λ o. (o.0 == e.0) && few o) n sorted h,
      any-sorted_by (λ o. (o.0 == e.0) && few o) lower es,
    )

length-top_of_axis :
    (k : ℕ) (lower : Bool) (es : Entries)
    → length (top_of_axis k lower es) ≡ size_of_top (max 1 k) es
unfolding top_of_axis
length-top_of_axis k lower es =
    ground (arith, length-top (max 1 k) (sorted_by lower es), length-sorted_by lower es)

lookup-add_axis :
    (axis a : String) (ws : List String) (rest : List (String × List String))
    → ltb 0 (length ws) ≡ true
    → lookup axis (add_axis a ws rest) ≡ (if a == axis then some ws else lookup axis rest)
unfolding add_axis
lookup-add_axis axis a [] rest h = ground (arith, h)
lookup-add_axis axis a (w ∷ ws) rest h = refl

lookup-skip :
    (axis a : String) (ws : List String) (rest : List (String × List String))
    → (a == axis) ≡ false
    → lookup axis (add_axis a ws rest) ≡ lookup axis rest
unfolding add_axis
lookup-skip axis a [] rest h = refl
lookup-skip axis a (w ∷ ws) rest h = ground (arith, h)

module _ (k : ℕ) (schema : Option Dict) (values : Values) where
  top_on : String → List String
  top_on axis = top_of_axis k (axis_direction axis schema) (axis_entries axis values)

  lookup-top_per_axis :
      (axis : String) (axes : List String)
      → member axis axes ≡ true
      → ltb 0 (length (top_on axis)) ≡ true
      → lookup axis (top_per_axis k schema values axes) ≡ some (top_on axis)
  unfolding top_per_axis top_on
  lookup-top_per_axis axis [] h p = cc
  lookup-top_per_axis axis (a ∷ axes) h p =
      go (λ m. lookup-top_per_axis axis axes m p) (a == axis) refl
    where
      go :
          (member axis axes ≡ true
            → lookup axis (top_per_axis k schema values axes) ≡ some (top_on axis))
          → (b : Bool) → (a == axis) ≡ b
          → lookup axis (add_axis a (top_on a) (top_per_axis k schema values axes))
            ≡ some (top_on axis)
      go later true e =
          let same : axis ≡ a = sym ((eq_iff a axis).0 e) in
          let some_left : ltb 0 (length (top_on a)) ≡ true =
            subst (λ x. ltb 0 (length (top_on x)) ≡ true) same p in
          lookup-add_axis axis a (top_on a) (top_per_axis k schema values axes) some_left
          ∙ ground (arith, e)
          ∙ ap (λ x. some (top_on x)) (sym same)
      go later false e =
          lookup-skip axis a (top_on a) (top_per_axis k schema values axes) e
          ∙ later (ground (arith, h, e))

-- On each axis that is named and on which something was measured, the Top-K frontier lists as
-- many nodes as there are entries, but no more than max(1, k); and each of them has an entry on
-- the axis than which fewer than max(1, k) entries are better.
pub topk-best :
    (k : ℕ) (schema : Option Dict) (values : Values) (axes : List String) (axis : String)
    → member axis axes ≡ true
    → ltb 0 (length (axis_entries axis values)) ≡ true
    → (ws : List String) × (lookup axis (topk_compute k schema values axes).axes ≡ some ws)
      × (length ws ≡ size_of_top (max 1 k) (axis_entries axis values))
      × (all (is_among (axis_direction axis schema) (max 1 k) (axis_entries axis values)) ws ≡ true)
unfolding topk_compute top_on
topk-best k schema values axes axis named measured =
    let lower = axis_direction axis schema in
    let es = axis_entries axis values in
    let many : length (top_on k schema values axis) ≡ size_of_top (max 1 k) es =
      length-top_of_axis k lower es in
    (
      top_on k schema values axis,
      lookup-top_per_axis k schema values axis axes named (ground (arith, many, measured)),
      many,
      top_of_axis-is_among k lower es,
    )
