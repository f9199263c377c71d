-- ===== src/Frontier/Survivors.antt =====
-- The nodes that the pruning of GepaPolicy keeps.
use simple_evolution.Prelude.{
  ℕ, zero, suc, ◌≤◌, ◌<◌, String, Bool, true, false, not, ◌&&◌, ◌≡◌, refl, Option, List, [], ◌∷◌,
  ◌==◌, string_eq, eq_iff, eq_refl, member, any, count, select, arith, subst, sym, ◌⊎◌, inl, inr,
  Bool-cases,
}
use simple_evolution.Json.{Dict}
use simple_evolution.Db.Rows.{Node}
use simple_evolution.Frontier.Axis.{metric_values}
use simple_evolution.Frontier.Policy.{
  best_per_axis, union_of, dominates, non_dominated, gepa_compute,
}
use simple_evolution.Frontier.Order.{dominates_irrefl, dominates_trans}

-- Some text of the list passes a test that fails on none of the others.
any-witness :
    (p : String → Bool) (xs : List String)
    → any p xs ≡ true
    → (y : String) × (member y xs ≡ true) × (p y ≡ true)
any-witness p [] h = cc
any-witness p (x ∷ xs) h = go (Bool-cases (p x)) (any-witness p xs)
  where
    go :
        (p x ≡ true) ⊎ (p x ≡ false)
        → (any p xs ≡ true → (y : String) × (member y xs ≡ true) × (p y ≡ true))
        → (y : String) × (member y (x ∷ xs) ≡ true) × (p y ≡ true)
    go (inl q) ih = (x, ground (arith, eq_refl x), q)
    go (inr q) ih = let (y, m, r) = ih (ground (arith, h, q)) in (y, ground (arith, m), r)

any-none :
    (p : String → Bool) (xs : List String) (y : String)
    → any p xs ≡ false
    → member y xs ≡ true
    → p y ≡ false
any-none p [] y h m = cc
any-none p (x ∷ xs) y h m = go (Bool-cases (x == y)) (any-none p xs y)
  where
    go :
        ((x == y) ≡ true) ⊎ ((x == y) ≡ false)
        → (any p xs ≡ false → member y xs ≡ true → p y ≡ false)
        → p y ≡ false
    go (inl q) ih =
        let r : p x ≡ false = ground (arith, h) in subst (λ z. p z ≡ false) ((eq_iff x y).0 q) r
    go (inr q) ih = ih (ground (arith, h)) (ground (arith, m, q))

member-select :
    (p : String → Bool) (xs : List String) (y : String)
    → member y (select p xs) ≡ (member y xs && p y)
member-select p [] y = refl
member-select p (x ∷ xs) y = go (Bool-cases (x == y)) (member-select p xs y)
  where
    go :
        ((x == y) ≡ true) ⊎ ((x == y) ≡ false)
        → member y (select p xs) ≡ (member y xs && p y)
        → member y (select p (x ∷ xs)) ≡ (member y (x ∷ xs) && p y)
    go (inl q) ih =
        let r : p x ≡ p y = subst (λ z. p x ≡ p z) ((eq_iff x y).0 q) refl in
        ground (arith, q, r, ih)
    go (inr q) ih = ground (arith, q, ih)

module _ (p q : String → Bool) (weaker : (x : String) → p x ≡ true → q x ≡ true) where
  count-le : (xs : List String) → count p xs ≤ count q xs
  count-le [] = omega arith
  count-le (x ∷ xs) = ground (arith, weaker x, count-le xs)

  count-lt :
      (xs : List String) (y : String)
      → member y xs ≡ true
      → p y ≡ false
      → q y ≡ true
      → count p xs < count q xs
  count-lt [] y m h k = cc
  count-lt (x ∷ xs) y m h k = go (Bool-cases (x == y)) (count-lt xs y)
    where
      go :
          ((x == y) ≡ true) ⊎ ((x == y) ≡ false)
          → (member y xs ≡ true → p y ≡ false → q y ≡ true → count p xs < count q xs)
          → count p (x ∷ xs) < count q (x ∷ xs)
      go (inl e) ih =
          let a : p x ≡ false = subst (λ z. p z ≡ false) (sym ((eq_iff x y).0 e)) h in
          let b : q x ≡ true = subst (λ z. q z ≡ true) (sym ((eq_iff x y).0 e)) k in
          ground (arith, a, b, count-le xs)
      go (inr e) ih = ground (arith, weaker x, ih (ground (arith, m, e)) h k)

-- Nothing of the list is above a text, or something of the list is that has nothing above it.
abbrev Covered : (String → String → Bool) → List String → String → Type 0
Covered above xs x =
    (any (λ y. above y x) xs ≡ false)
    ⊎ ((m : String) × (member m xs ≡ true) × (any (λ y. above y m) xs ≡ false) × (above m x ≡ true))

-- In a finite list every text is maximal in a strict order, or below one that is.
module _ (above : String → String → Bool) (irrefl : (x : String) → above x x ≡ false)
    (trans : (x y z : String) → above x y ≡ true → above y z ≡ true → above x z ≡ true)
    (xs : List String) where
  -- `bound` exceeds the number of texts above `x`.
  covered : (bound : ℕ) (x : String) → count (λ y. above y x) xs < bound → Covered above xs x
  covered zero x h = ground arith
  covered (suc bound) x h = go (Bool-cases (any (λ y. above y x) xs)) (covered bound)
    where
      go :
          (any (λ y. above y x) xs ≡ true) ⊎ (any (λ y. above y x) xs ≡ false)
          → ((z : String) → count (λ y. above y z) xs < bound → Covered above xs z)
          → Covered above xs x
      go (inr e) ih = inl e
      go (inl e) ih = past y r m (ih y (omega (arith, fewer, h)))
        where
          y : String
          y = (any-witness (λ z. above z x) xs e).0

          m : member y xs ≡ true
          m = (any-witness (λ z. above z x) xs e).1

          r : above y x ≡ true
          r = (any-witness (λ z. above z x) xs e).2

          fewer : count (λ z. above z y) xs < count (λ z. above z x) xs
          fewer =
              count-lt (λ z. above z y) (λ z. above z x) (λ z a. trans z y x a r) xs y m (irrefl y)
                r

          past :
              (z : String)
              → above z x ≡ true
              → member z xs ≡ true
              → Covered above xs z
              → Covered above xs x
          past z b n (inl none_above) = inr (z, n, none_above, b)
          past z b n (inr (top, t, none_above, a)) = inr (top, t, none_above, trans top z x a b)

module _ (schema : Option Dict) (nodes : List Node) (axes : List String) where
  -- What the survivors are chosen from: the winners of all axes.
  abbrev pub candidates : List String
  candidates = union_of (best_per_axis schema (metric_values nodes axes) axes) []

  abbrev pub survivors : List String
  survivors = (gepa_compute schema (metric_values nodes axes) axes).node_ids

  abbrev pub beats : String → String → Bool
  beats = dominates schema (metric_values nodes axes)

  others_lem :
      (is : List String) (i : String)
      → any (λ other. not (other == i) && beats other i) is ≡ any (λ other. beats other i) is
  others_lem [] i = refl
  others_lem (j ∷ is) i = go (Bool-cases (j == i)) (others_lem is i)
    where
      go :
          ((j == i) ≡ true) ⊎ ((j == i) ≡ false)
          → any (λ other. not (other == i) && beats other i) is ≡ any (λ other. beats other i) is
          → any (λ other. not (other == i) && beats other i) (j ∷ is)
            ≡ any (λ other. beats other i) (j ∷ is)
      go (inl q) ih =
          let p : beats j i ≡ false =
            subst (λ z. beats z i ≡ false) (sym ((eq_iff j i).0 q))
              (dominates_irrefl schema nodes axes i) in
          ground (arith, q, p, ih)
      go (inr q) ih = ground (arith, q, ih)

  survivors_lem :
      (i : String)
      → member i survivors ≡ (member i candidates && not (any (λ other. beats other i) candidates))
  unfolding gepa_compute non_dominated
  survivors_lem i = ground (
    arith,
    others_lem candidates i,
    member-select (λ j. not (any (λ other. not (other == j) && beats other j) candidates))
        candidates i,
  )

-- No winner of an axis dominates a node that the pruning keeps.
pub survivors-undominated :
    (schema : Option Dict) (nodes : List Node) (axes : List String) (i j : String)
    → member i (survivors schema nodes axes) ≡ true
    → member j (candidates schema nodes axes) ≡ true
    → beats schema nodes axes j i ≡ false
survivors-undominated schema nodes axes i j h k =
    any-none (λ other. beats schema nodes axes other i) (candidates schema nodes axes) j
      (ground (arith, h, survivors_lem schema nodes axes i)) k

-- Each winner of an axis is kept by the pruning or dominated by a node that is kept.
pub survivors-cover :
    (schema : Option Dict) (nodes : List Node) (axes : List String) (i : String)
    → member i (candidates schema nodes axes) ≡ true
    → (member i (survivors schema nodes axes) ≡ true)
      ⊎ ((m : String) × (member m (survivors schema nodes axes) ≡ true)
          × (beats schema nodes axes m i ≡ true))
survivors-cover schema nodes axes i h = go (
    covered (beats schema nodes axes) (dominates_irrefl schema nodes axes)
      (dominates_trans schema (metric_values nodes axes)) (candidates schema nodes axes)
      (suc (count (λ y. beats schema nodes axes y i) (candidates schema nodes axes))) i
      (omega arith))
  where
    go :
        Covered (beats schema nodes axes) (candidates schema nodes axes) i
        → (member i (survivors schema nodes axes) ≡ true)
          ⊎ ((m : String) × (member m (survivors schema nodes axes) ≡ true)
              × (beats schema nodes axes m i ≡ true))
    go (inl e) = inl (ground (arith, survivors_lem schema nodes axes i, e, h))
    go (inr (m, n, e, a)) = inr (m, ground (arith, survivors_lem schema nodes axes m, e, n), a)
