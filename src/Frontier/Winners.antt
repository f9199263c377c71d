-- ===== src/Frontier/Winners.antt =====
-- The scan of an axis finds the best nodes.
use simple_evolution.Prelude.{
  String, Bool, true, false, not, ◌&&◌, ◌||◌, ◌≡◌, refl, Option, none, some, List, [], ◌∷◌, ◌++◌,
  ◌==◌, string_eq, member, any, all, arith, ap, ◌⊎◌, inl, inr, Bool-cases, subst, sym, eq_iff,
}
use simple_evolution.Prelude.Int.{ℤ, pos, negsuc, eqbℤ}
use simple_evolution.Json.{lookup}
use simple_evolution.Frontier.Axis.{Measured, Values, better, add, weigh, scan, winners}

-- No node that is measured on the axis has a better value.
abbrev pub not_beaten : Bool → String → Values → ℤ → Bool
not_beaten lower axis values v =
    all (λ e. elim (lookup axis e.1) [ none ↦ true | some u ↦ not (better lower u v) ]) values

-- Measured on the axis, and not beaten on it.
abbrev pub is_best : Bool → String → Values → Measured → Bool
is_best lower axis values vals = elim (lookup axis vals) [
  | none ↦ false
  | some v ↦ not_beaten lower axis values v
]

pub better_irrefl : (lower : Bool) (v : ℤ) → better lower v v ≡ false
better_irrefl lower v = ground arith

-- What beats a value beats all that it beats.
pub better_trans :
    (lower : Bool) (u b v : ℤ)
    → better lower u b ≡ true
    → better lower b v ≡ true
    → better lower u v ≡ true
better_trans lower u b v h k = ground arith

pub better_asym : (lower : Bool) (u b : ℤ) → better lower u b ≡ true → better lower b u ≡ false
better_asym lower u b h = ground arith

best_of :
    (lower : Bool) (u b v : ℤ)
    → better lower u b ≡ true
    → not (better lower u v) ≡ (not (better lower b v) && not (better lower u v))
best_of lower u b v h = ground arith

best_of_flip :
    (lower : Bool) (b u v : ℤ)
    → better lower b u ≡ true
    → not (better lower b v) ≡ (not (better lower b v) && not (better lower u v))
best_of_flip lower b u v h = ground arith

best_of_same :
    (lower : Bool) (b u v : ℤ)
    → u ≡ b
    → not (better lower b v) ≡ (not (better lower b v) && not (better lower u v))
best_of_same lower b u v h =
    subst (λ x. not (better lower b v) ≡ (not (better lower b v) && not (better lower x v))) (sym h)
      (both (better lower b v))
  where
    both : (x : Bool) → not x ≡ (not x && not x)
    both true = refl
    both false = refl

better_total :
    (lower : Bool) (u b : ℤ) → better lower u b ≡ false → eqbℤ u b ≡ false → better lower b u ≡ true
better_total lower u b h k = ground arith

eqbℤ_lem : (u b : ℤ) → eqbℤ u b ≡ true → u ≡ b
eqbℤ_lem (pos m) (pos n) h = ground arith
eqbℤ_lem (pos m) (negsuc n) h = ground arith
eqbℤ_lem (negsuc m) (pos n) h = ground arith
eqbℤ_lem (negsuc m) (negsuc n) h = ground arith

any-ext : {A : Type 0} (p q : A → Bool) (xs : List A) → ((a : A) → p a ≡ q a) → any p xs ≡ any q xs
any-ext p q [] h = refl
any-ext p q (x ∷ xs) h = ground (arith, h x, any-ext p q xs h)

member-append :
    (i j : String) (is : List String) → member i (is ++ (j ∷ [])) ≡ (member i is || (j == i))
member-append i j [] = ground arith
member-append i j (x ∷ is) = ground (arith, member-append i j is)

member-add : (i j : String) (is : List String) → member i (add j is) ≡ (member i is || (j == i))
member-add i j is = go (Bool-cases (member j is)) (Bool-cases (j == i))
  where
    go :
        (member j is ≡ true) ⊎ (member j is ≡ false)
        → ((j == i) ≡ true) ⊎ ((j == i) ≡ false)
        → member i (add j is) ≡ (member i is || (j == i))
    go (inl h) (inl e) =
        let m : member i is ≡ true = subst (λ x. member x is ≡ true) ((eq_iff j i).0 e) h in
        ground (arith, m)
    go (inl h) (inr e) = ground arith
    go (inr h) c = ground (arith, member-append i j is)

module _ (lower : Bool) (axis : String) (i : String) where
  -- Best among the values, and not beaten by the best one so far.
  holds : ℤ → Values → Measured → Bool
  holds b values vals = elim (lookup axis vals) [
    | none ↦ false
    | some v ↦ not (better lower b v) && not_beaten lower axis values v
  ]

  -- What the scan of `values` gives, after a best value and its holders.
  Scans : Values → Type 0
  Scans values =
      (b : ℤ) (ws : List String)
      → member i (scan lower axis (some b, ws) values).1 ≡ (
          (member i ws && not_beaten lower axis values b)
          || any (λ e. (e.0 == i) && holds b values e.1) values)

  scan_step :
      (b : ℤ) (ws : List String) (j : String) (vals : Measured) (rest : Values)
      → Scans rest
      → member i (scan lower axis (some b, ws) ((j, vals) ∷ rest)).1 ≡ (
          (member i ws && not_beaten lower axis ((j, vals) ∷ rest) b)
          || any (λ e. (e.0 == i) && holds b ((j, vals) ∷ rest) e.1) ((j, vals) ∷ rest))
  unfolding Scans scan weigh holds
  scan_step b ws j vals rest ih = go (lookup axis vals) refl
    where
      all_of : Values
      all_of = (j, vals) ∷ rest

      keeps :
          (c : ℤ)
          → ((vs : Measured) → holds c rest vs ≡ holds b all_of vs)
          → any (λ e. (e.0 == i) && holds c rest e.1) rest
            ≡ any (λ e. (e.0 == i) && holds b all_of e.1) rest
      keeps c h =
          any-ext (λ e. (e.0 == i) && holds c rest e.1) (λ e. (e.0 == i) && holds b all_of e.1) rest
            λ e. ap (λ x. (e.0 == i) && x) (h e.1)

      Result : Option ℤ → Type 0
      Result o = member i (scan lower axis (weigh lower j o (some b, ws)) rest).1 ≡ (
          (member i ws && not_beaten lower axis all_of b)
          || any (λ e. (e.0 == i) && holds b all_of e.1) all_of)

      -- One more value to beat, for a best value `c` that stands for both.
      stronger :
          (c u : ℤ)
          → lookup axis vals ≡ some u
          → ((v : ℤ) → not (better lower c v) ≡ (not (better lower b v) && not (better lower u v)))
          → (vs : Measured) → holds c rest vs ≡ holds b all_of vs
      stronger c u e both vs = at (lookup axis vs) refl
        where
          at : (o : Option ℤ) → lookup axis vs ≡ o → holds c rest vs ≡ holds b all_of vs
          at none f = ground (arith, f)
          at (some v) f = ground (arith, e, f, both v)

      go : (o : Option ℤ) → lookup axis vals ≡ o → Result o
      go none e = ground (arith, e, ih b ws, keeps b (λ vs. ground (arith, e)))
      go (some u) e = by (Bool-cases (better lower u b)) (Bool-cases (eqbℤ u b))
        where
          by :
              (better lower u b ≡ true) ⊎ (better lower u b ≡ false)
              → (eqbℤ u b ≡ true) ⊎ (eqbℤ u b ≡ false)
              → Result (some u)
          by (inl h) c = ground (
            arith,
            e,
            ih u (j ∷ []),
            better_irrefl lower u,
            better_asym lower u b h,
            keeps u (stronger u u e (λ v. best_of lower u b v h)),
          )
          by (inr h) (inl q) =
              let p = eqbℤ_lem u b q in
              ground (
                arith,
                e,
                p,
                ih b (add j ws),
                member-add i j ws,
                better_irrefl lower b,
                h,
                q,
                keeps b (stronger b u e (λ v. best_of_same lower b u v p)),
              )
          by (inr h) (inr q) = ground (
            arith,
            e,
            ih b ws,
            better_total lower u b h q,
            keeps b (stronger b u e (λ v. best_of_flip lower b u v (better_total lower u b h q))),
          )

  scan_best : (values : Values) → Scans values
  unfolding Scans scan holds
  scan_best [] b ws = ground arith
  scan_best ((j, vals) ∷ rest) b ws = scan_step b ws j vals rest (scan_best rest)

  first_step :
      (j : String) (vals : Measured) (rest : Values)
      → member i (scan lower axis (none, []) rest).1
        ≡ any (λ e. (e.0 == i) && is_best lower axis rest e.1) rest
      → member i (scan lower axis (none, []) ((j, vals) ∷ rest)).1
        ≡ any (λ e. (e.0 == i) && is_best lower axis ((j, vals) ∷ rest) e.1) ((j, vals) ∷ rest)
  unfolding scan weigh holds Scans
  first_step j vals rest ih = go (lookup axis vals) refl
    where
      all_of : Values
      all_of = (j, vals) ∷ rest

      keeps :
          (f : Measured → Bool)
          → ((vs : Measured) → f vs ≡ is_best lower axis all_of vs)
          → any (λ e. (e.0 == i) && f e.1) rest
            ≡ any (λ e. (e.0 == i) && is_best lower axis all_of e.1) rest
      keeps f h =
          any-ext (λ e. (e.0 == i) && f e.1) (λ e. (e.0 == i) && is_best lower axis all_of e.1) rest
            λ e. ap (λ x. (e.0 == i) && x) (h e.1)

      go :
          (o : Option ℤ)
          → lookup axis vals ≡ o
          → member i (scan lower axis (weigh lower j o (none, [])) rest).1
            ≡ any (λ e. (e.0 == i) && is_best lower axis all_of e.1) all_of
      go none e = ground (arith, e, ih, keeps (is_best lower axis rest) (λ vs. ground (arith, e)))
      go (some u) e = ground (
        arith,
        e,
        scan_best rest u (j ∷ []),
        better_irrefl lower u,
        keeps (holds u rest) (λ vs. ground (arith, e)),
      )

  scan_first :
      (values : Values)
      → member i (scan lower axis (none, []) values).1
        ≡ any (λ e. (e.0 == i) && is_best lower axis values e.1) values
  unfolding scan weigh
  scan_first [] = refl
  scan_first ((j, vals) ∷ rest) = first_step j vals rest (scan_first rest)

-- The winners of an axis are the nodes that are measured on it and that no measured node beats,
-- ties included.
pub winners-best :
    (lower : Bool) (axis : String) (values : Values) (i : String)
    → member i (winners lower axis values)
      ≡ any (λ e. (e.0 == i) && is_best lower axis values e.1) values
unfolding winners
winners-best lower axis values i = scan_first lower axis i values
