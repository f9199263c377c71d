-- ===== src/Queue/BoundLaws.antt =====
-- The bound of the queue.
use simple_evolution.Prelude.{
  count-order_by, length-order_by, ℕ, zero, suc, ◌+◌, ◌-◌, ◌≤◌, String, Bool, true, false, not,
  ◌&&◌, ◌≡◌, refl, ◌∙◌, List, [], ◌∷◌, none, arith, length, drop, member, all, count, select,
  update, map, ltb, ◌==◌, string_eq, eq_refl, eq_iff, Bool-cases, ◌⊎◌, inl, inr, sym,
}
use simple_evolution.Db.Rows.{Proposal, is_queued, overflowed_dormant}
use simple_evolution.Db.State.{Db, World}
use simple_evolution.Db.Exec.{done, transaction}
use simple_evolution.Db.Update.{transition_proposal_status}
use simple_evolution.Queue.Bound.{
  limited, queued_proposals, size, overflow, overflow_all, enforce_bound,
}

==-comm : (x y : String) → (x == y) ≡ (y == x)
==-comm x y = go (Bool-cases (x == y)) (Bool-cases (y == x))
  where
    go :
        ((x == y) ≡ true) ⊎ ((x == y) ≡ false)
        → ((y == x) ≡ true) ⊎ ((y == x) ≡ false)
        → (x == y) ≡ (y == x)
    go (inl p) (inl q) = p ∙ sym q
    go (inr p) (inr q) = p ∙ sym q
    go (inl p) (inr q) = let e : y ≡ x = sym ((eq_iff x y).0 p) in p ∙ sym ((eq_iff y x).1 e)
    go (inr p) (inl q) = let e : x ≡ y = sym ((eq_iff y x).0 q) in (eq_iff x y).1 e ∙ sym q

module _ {A : Type 0} where
  length-drop : (n : ℕ) (xs : List A) → length (drop n xs) ≡ length xs - n
  length-drop zero xs = omega arith
  length-drop (suc n) [] = omega arith
  length-drop (suc n) (x ∷ xs) = omega (arith, length-drop n xs)

  count-take-drop : (p : A → Bool) (n : ℕ) (xs : List A) → count p xs ≤ n + count p (drop n xs)
  count-take-drop p zero xs = omega arith
  count-take-drop p (suc n) [] = omega arith
  count-take-drop p (suc n) (x ∷ xs) = ground (arith, count-take-drop p n xs)

  count-select : (p q : A → Bool) (xs : List A) → count p (select q xs) ≡ count (λ x. q x && p x) xs
  count-select p q [] = refl
  count-select p q (x ∷ xs) = ground (arith, count-select p q xs)

  length-selected : (q : A → Bool) (xs : List A) → length (select q xs) ≡ count q xs
  length-selected q [] = refl
  length-selected q (x ∷ xs) = ground (arith, length-selected q xs)

ids_of : List Proposal → List String
ids_of ps = map (λ p. p.proposal_id) ps

-- The proposals after the transitions of a list.
demoted : List Proposal → List Proposal → List Proposal
demoted [] ps = ps
demoted (o ∷ os) ps = demoted os (
    update (λ p. p.proposal_id == o.proposal_id) (λ p. record p { status = overflowed_dormant }) ps)

-- What is still queued after an update of one proposal, whatever else is asked of the id.
count-demoted_one :
    (o : Proposal) (test : String → Bool) (ps : List Proposal)
    → count
        (λ p. is_queued p.status && test p.proposal_id)
        (update
          (λ p. p.proposal_id == o.proposal_id)
          (λ p. record p { status = overflowed_dormant })
          ps)
      ≡ count
          (λ p. is_queued p.status && (not (p.proposal_id == o.proposal_id) && test p.proposal_id))
          ps
count-demoted_one o test [] = refl
count-demoted_one o test (p ∷ ps) = ground (arith, count-demoted_one o test ps)

count-ext :
    (f g : Proposal → Bool) (ps : List Proposal)
    → ((p : Proposal) → f p ≡ g p)
    → count f ps ≡ count g ps
count-ext f g [] h = refl
count-ext f g (p ∷ ps) h = ground (arith, h p, count-ext f g ps h)

count-demoted :
    (os : List Proposal) (ps : List Proposal)
    → count (λ p. is_queued p.status) (demoted os ps)
      ≡ count (λ p. is_queued p.status && not (member p.proposal_id (ids_of os))) ps
unfolding demoted ids_of
count-demoted [] ps =
    count-ext (λ p. is_queued p.status) (λ p. is_queued p.status && true) ps λ p. ground arith
count-demoted (o ∷ os) ps =
    count-demoted os (
      update (λ p. p.proposal_id == o.proposal_id) (λ p. record p { status = overflowed_dormant })
        ps)
    ∙ count-demoted_one o (λ i. not (member i (ids_of os))) ps
    ∙ count-ext
        (λ p.
          is_queued p.status
          && (not (p.proposal_id == o.proposal_id) && not (member p.proposal_id (ids_of os))))
        (λ p. is_queued p.status && not (member p.proposal_id (ids_of (o ∷ os)))) ps
        λ p. ground (arith, ==-comm p.proposal_id o.proposal_id)

all-weaken :
    (x : String) (ids : List String) (os : List Proposal)
    → all (λ o. member o.proposal_id ids) os ≡ true
    → all (λ o. member o.proposal_id (x ∷ ids)) os ≡ true
all-weaken x ids [] h = refl
all-weaken x ids (o ∷ os) h = ground (arith, h, all-weaken x ids os (ground (arith, h)))

-- The proposals of a list have their ids among its ids.
all-ids_of : (os : List Proposal) → all (λ o. member o.proposal_id (ids_of os)) os ≡ true
unfolding ids_of
all-ids_of [] = refl
all-ids_of (o ∷ os) =
    ground (arith, eq_refl o.proposal_id, all-weaken o.proposal_id (ids_of os) os (all-ids_of os))

count-none :
    (ids : List String) (os : List Proposal)
    → all (λ o. member o.proposal_id ids) os ≡ true
    → count (λ o. not (member o.proposal_id ids)) os ≡ 0
count-none ids [] h = refl
count-none ids (o ∷ os) h = ground (arith, h, count-none ids os (ground (arith, h)))

transitions :
    (os : List Proposal) (w : World)
    → overflow_all os w
      ≡ done (length os) (record w { db = record w.db { proposals = demoted os w.proposals } })
unfolding demoted overflow_all overflow transaction transition_proposal_status
transitions [] w = refl
transitions (o ∷ os) w = ground (
  arith,
  transitions os (record w {
    db = record w.db {
      proposals =
          update (λ p. p.proposal_id == o.proposal_id)
            (λ p. record p { status = overflowed_dormant }) w.proposals;
    };
  }),
)

demote : Proposal → Proposal
demote p = record p { status = overflowed_dormant }

-- The ids of the proposals that FIFO order puts after the first `max_size` of the queue.
abbrev pub beyond : ℕ → Db → List String
beyond max_size db = map (λ p. p.proposal_id) (drop max_size (queued_proposals none db))

-- The world with the proposals of those ids demoted, and no other row changed.
abbrev pub bounded_world : ℕ → World → World
bounded_world max_size w = record w {
  db = record w.db {
    proposals =
        update (λ p. member p.proposal_id (beyond max_size w.db))
          (λ p. record p { status = overflowed_dormant }) w.proposals;
  };
}

update-twice :
    (o : Proposal) (ids : List String) (ps : List Proposal)
    → update
        (λ p. member p.proposal_id ids)
        demote
        (update (λ p. p.proposal_id == o.proposal_id) demote ps)
      ≡ update (λ p. member p.proposal_id (o.proposal_id ∷ ids)) demote ps
unfolding demote
update-twice o ids [] = refl
update-twice o ids (p ∷ ps) =
    ground (arith, update-twice o ids ps, ==-comm p.proposal_id o.proposal_id)

update-none : (ps : List Proposal) → update (λ p. member p.proposal_id []) demote ps ≡ ps
update-none [] = refl
update-none (p ∷ ps) = ground (arith, update-none ps)

-- The transitions one after another are one update.
demoted-update :
    (os : List Proposal) (ps : List Proposal)
    → demoted os ps ≡ update (λ p. member p.proposal_id (ids_of os)) demote ps
unfolding demoted ids_of demote
demoted-update [] ps = sym (update-none ps)
demoted-update (o ∷ os) ps =
    demoted-update os (
      update (λ p. p.proposal_id == o.proposal_id) (λ p. record p { status = overflowed_dormant })
        ps)
    ∙ update-twice o (ids_of os) ps

-- Enforcing the bound returns how many proposals the queue has beyond `max_size`. It demotes the
-- proposals with the ids of those that FIFO order puts after the first `max_size`, and changes no
-- other row; at most `max_size` are left in the queue.
pub enforce_bound-size :
    (max_size : ℕ) (w : World)
    → (enforce_bound max_size w ≡ done (size w.db - max_size) (bounded_world max_size w))
      × (size (bounded_world max_size w).db ≤ max_size)
unfolding enforce_bound size queued_proposals limited ids_of demote
enforce_bound-size max_size w = (
  ground (arith, transitions over w, length-drop max_size queued, same),
  ground (arith, bounded, same),
)
  where
    queued : List Proposal
    queued = queued_proposals none w.db

    over : List Proposal
    over = drop max_size queued

    same :
        demoted over w.proposals
        ≡ update
            (λ p. member p.proposal_id (beyond max_size w.db))
            (λ p. record p { status = overflowed_dormant })
            w.proposals
    same = demoted-update over w.proposals

    left : World
    left = record w { db = record w.db { proposals = demoted over w.proposals } }

    stays : Proposal → Bool
    stays p = not (member p.proposal_id (ids_of over))

    bounded : size left.db ≤ max_size
    bounded = omega (
      arith,
      length-order_by (λ a b. ltb a.created_at b.created_at)
          (select (λ p. is_queued p.status) (demoted over w.proposals)),
      length-selected (λ p. is_queued p.status) (demoted over w.proposals),
      count-demoted over w.proposals,
      count-select stays (λ p. is_queued p.status) w.proposals,
      count-order_by stays (λ a b. ltb a.created_at b.created_at)
          (select (λ p. is_queued p.status) w.proposals),
      count-take-drop stays max_size queued,
      count-none (ids_of over) over (all-ids_of over),
    )
