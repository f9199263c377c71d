-- ===== src/Frontier/Bounds.antt =====
-- The frontier of a tree that has an active root.
use simple_evolution.Prelude.{
  String, Bool, true, false, ◌&&◌, ◌≡◌, refl, List, [], ◌∷◌, map, any, select, arith, nat_beq,
  Bool-cases, ◌⊎◌, inl, inr,
}
use simple_evolution.Db.Rows.{Node, is_active}
use simple_evolution.Frontier.Policy.{
  FrontierConfig, compute_frontier, policy_compute, or_bootstrap, active_roots,
}

select_there :
    {A : Type 0} (p : A → Bool) (xs : List A)
    → any p xs ≡ true
    → (a : A) × (rest : List A) × (select p xs ≡ a ∷ rest)
select_there p [] h = cc
select_there {A} p (x ∷ xs) h = go (Bool-cases (p x)) (select_there p xs)
  where
    go :
        (p x ≡ true) ⊎ (p x ≡ false)
        → (any p xs ≡ true → (a : A) × (rest : List A) × (select p xs ≡ a ∷ rest))
        → (a : A) × (rest : List A) × (select p (x ∷ xs) ≡ a ∷ rest)
    go (inl q) ih = (x, select p xs, ground (arith, q))
    go (inr q) ih = let (a, rest, e) = ih (ground (arith, h, q)) in (a, rest, ground (arith, q, e))

-- While an active root node is there, the frontier is not empty, whatever the nodes measured.
pub compute_frontier-live :
    (nodes : List Node) (config : FrontierConfig)
    → any (λ n. is_active n.status && nat_beq n.depth 0) nodes ≡ true
    → (i : String) × (rest : List String) × ((compute_frontier nodes config).node_ids ≡ i ∷ rest)
unfolding compute_frontier or_bootstrap active_roots
compute_frontier-live nodes config h = go (policy_compute nodes config).node_ids refl
  where
    roots :
        (n : Node) × (rest : List Node) × (select
            (λ n. is_active n.status && nat_beq n.depth 0)
            nodes
          ≡ n ∷ rest)
    roots = select_there (λ n. is_active n.status && nat_beq n.depth 0) nodes h

    go :
        (is : List String)
        → (policy_compute nodes config).node_ids ≡ is
        → (i : String) × (rest : List String) × ((compute_frontier nodes config).node_ids
            ≡ i ∷ rest)
    go [] e =
        let (n, rest, r) = roots in (n.node_id, map (λ m. m.node_id) rest, ground (arith, e, r))
    go (i ∷ is) e = (i, is, ground (arith, e))
