-- ===== src/Seats/PurchaseLaws.antt =====
-- The leases that a growth decision may buy.
use simple_evolution.Prelude.{
  String, Bool, true, false, not, ◌&&◌, ◌||◌, ◌≡◌, ◌≤◌, ◌+◌, refl, sym, subst, ◌∙◌, List, [], ◌∷◌,
  ◌==◌, string_eq, any, any_cong, all, map, all_mono, member, length, arith, eq_iff, get_or,
}
use simple_evolution.Db.Rows.{Node, Episode}
use simple_evolution.Db.State.{Db, World}
use simple_evolution.Db.Exec.{Outcome, done, raised}
use simple_evolution.Db.Select.{get_node, has_episode}
use simple_evolution.Lease.Allocate.{LeaseSpec}
use simple_evolution.Queries.Reads.{list_nodes, researching_open_allocation_count}
use simple_evolution.Queries.Lineage.{burned_lenses}
use simple_evolution.Seats.Purchase.{
  related, SeatPurchase, SeatRules, Snapshot, seat_lease, lease_all, seat_leases, same_purchase,
  clashes, allocatable, seat_episode_for_node, exceeds_capacity,
}
use simple_evolution.Seats.Apart.{Seated, seat_episode-Seated}

-- The purchase that a lease carries out.
abbrev pub bought : LeaseSpec → SeatPurchase
bought l = record { node_id = l.node_id; lens = get_or l.lens "" }

-- Two purchases of one seat, or of one lens on one line of descent.
abbrev pub conflicts : List Node → SeatPurchase → SeatPurchase → Bool
conflicts nodes p q =
    q.lens == p.lens
    && (q.node_id == p.node_id
        || (related nodes q.node_id p.node_id || related nodes p.node_id q.node_id))

-- A seat of its own: the lens is known and not burned on the node, which takes seats.
abbrev pub legal : List String → Db → LeaseSpec → Bool
legal known db l =
    member (bought l).lens known
    && (allocatable (get_node l.node_id db)
        && not (member (bought l).lens (burned_lenses l.node_id db)))

-- No two leases share an episode or conflict.
abbrev pub pairwise : List Node → List LeaseSpec → Bool
pairwise nodes [] = true
pairwise nodes (l ∷ ls) =
    all (λ r. not (r.episode_id == l.episode_id) && not (conflicts nodes (bought r) (bought l))) ls
    && pairwise nodes ls

record Bought (s : Snapshot) (seen : List SeatPurchase) (claimed : List String) (p : SeatPurchase)
    (l : LeaseSpec) (w v : World) : Type 0 where
  e : Episode
  seated : Seated claimed e w v
  its : l.episode_id ≡ e.episode_id
  is_bought : bought l ≡ p
  is_legal : w.nodes ≡ s.before.nodes → legal s.known s.before l ≡ true
  is_apart : any (conflicts (list_nodes s.before) p) seen ≡ false

any_or :
    {A : Type 0} (p q : A → Bool) (xs : List A)
    → any p xs ≡ false
    → any q xs ≡ false
    → any (λ a. p a || q a) xs ≡ false
any_or p q [] h k = refl
any_or p q (x ∷ xs) h k = ground (arith, any_or p q xs, h, k)

seat_lease-Bought :
    (s : Snapshot) (seen : List SeatPurchase) (claimed : List String) (p : SeatPurchase)
    (l : LeaseSpec) (w v : World)
    → seat_lease s seen claimed p w ≡ done l v
    → Bought s seen claimed p l w v
unfolding seat_lease get_node same_purchase clashes
seat_lease-Bought s seen claimed p l w v h = go (seat_episode_for_node p.node_id claimed w) refl
  where
    go :
        (o : Outcome Episode)
        → seat_episode_for_node p.node_id claimed w ≡ o
        → Bought s seen claimed p l w v
    go (done x u) e = record {
      e = x;
      seated = ground (arith, h, e, seat_episode-Seated p.node_id claimed w u x e);
      its = ground (arith, h, e);
      is_bought = ground (arith, h, e);
      is_legal = λ same. ground (arith, h, e, same);
      is_apart =
          any_cong (conflicts (list_nodes s.before) p)
            (λ q. same_purchase p q || clashes (list_nodes s.before) p q) (λ q. ground arith) seen
          ∙ any_or (same_purchase p) (clashes (list_nodes s.before) p) seen (ground (arith, h))
              (ground (arith, h));
    }
    go (raised x u) e = ground (arith, h, e)

-- Leases that are apart from what was bought and claimed before, each from those before it.
in_turn : List Node → List SeatPurchase → List String → List LeaseSpec → Bool
in_turn nodes seen claimed [] = true
in_turn nodes seen claimed (l ∷ ls) =
    not (any (conflicts nodes (bought l)) seen)
    && (not (member l.episode_id claimed)
        && in_turn nodes (bought l ∷ seen) (l.episode_id ∷ claimed) ls)

apart_of : List Node → List SeatPurchase → List String → LeaseSpec → Bool
apart_of nodes seen claimed l =
    not (any (conflicts nodes (bought l)) seen) && not (member l.episode_id claimed)

in_turn-apart :
    (nodes : List Node) (seen : List SeatPurchase) (claimed : List String) (ls : List LeaseSpec)
    → in_turn nodes seen claimed ls ≡ true
    → (all (apart_of nodes seen claimed) ls ≡ true) × (pairwise nodes ls ≡ true)
unfolding in_turn apart_of
in_turn-apart nodes seen claimed [] h = (refl, refl)
in_turn-apart nodes seen claimed (l ∷ ls) h =
    step (in_turn-apart nodes (bought l ∷ seen) (l.episode_id ∷ claimed) ls (ground (arith, h)))
  where
    step :
        (all (apart_of nodes (bought l ∷ seen) (l.episode_id ∷ claimed)) ls ≡ true)
          × (pairwise nodes ls ≡ true)
        → (all (apart_of nodes seen claimed) (l ∷ ls) ≡ true) × (pairwise nodes (l ∷ ls) ≡ true)
    step (a, b) =
        let before : all (apart_of nodes seen claimed) ls ≡ true =
          all_mono (apart_of nodes (bought l ∷ seen) (l.episode_id ∷ claimed))
            (apart_of nodes seen claimed) (λ r k. ground (arith, k)) ls a in
        let here : all
              (λ r.
                not (r.episode_id == l.episode_id) && not (conflicts nodes (bought r) (bought l)))
              ls
            ≡ true =
          all_mono (apart_of nodes (bought l ∷ seen) (l.episode_id ∷ claimed)) _
            (λ r k.
              ground (arith, k, eq_iff l.episode_id r.episode_id, eq_iff r.episode_id l.episode_id))
            ls a in
        (ground (arith, h, before), ground (arith, here, b))

-- What the loop returns from here on.
record BoughtAll (s : Snapshot) (seen : List SeatPurchase) (claimed : List String)
    (ps : List SeatPurchase) (ls : List LeaseSpec) : Type 0 where
  each : map bought ls ≡ ps
  all_legal : all (legal s.known s.before) ls ≡ true
  turn : in_turn (list_nodes s.before) seen claimed ls ≡ true

BoughtAll-cons :
    (s : Snapshot) (seen : List SeatPurchase) (claimed : List String) (p : SeatPurchase)
    (ps : List SeatPurchase) (l : LeaseSpec) (ls : List LeaseSpec) (w v : World)
    → w.nodes ≡ s.before.nodes
    → all (has_episode w.db) claimed ≡ true
    → Bought s seen claimed p l w v
    → BoughtAll s (p ∷ seen) (l.episode_id ∷ claimed) ps ls
    → BoughtAll s seen claimed (p ∷ ps) (l ∷ ls)
unfolding in_turn
BoughtAll-cons s seen claimed p ps l ls w v n c b r = record {
  each = ground (arith, b.is_bought, r.each);
  all_legal = ground (arith, b.is_legal n, r.all_legal);
  turn = ground (arith, b.is_bought, b.is_apart, b.its, b.seated.unclaimed c, r.turn);
}

lease_all-BoughtAll :
    (s : Snapshot) (seen : List SeatPurchase) (claimed : List String) (ps : List SeatPurchase)
    (ls : List LeaseSpec) (w v : World)
    → w.nodes ≡ s.before.nodes
    → all (has_episode w.db) claimed ≡ true
    → lease_all s seen claimed ps w ≡ done ls v
    → BoughtAll s seen claimed ps ls
unfolding lease_all in_turn
lease_all-BoughtAll s seen claimed [] ls w v n c h = record {
  each = ground (arith, h);
  all_legal = ground (arith, h);
  turn = ground (arith, h);
}
lease_all-BoughtAll s seen claimed (p ∷ ps) ls w v n c h =
    first (seat_lease s seen claimed p w) refl
      (λ l ks u x. lease_all-BoughtAll s (p ∷ seen) (l.episode_id ∷ claimed) ps ks u x)
  where
    Rest : Type 0
    Rest =
        (l : LeaseSpec) (ks : List LeaseSpec) (u x : World)
        → u.nodes ≡ s.before.nodes
        → all (has_episode u.db) (l.episode_id ∷ claimed) ≡ true
        → lease_all s (p ∷ seen) (l.episode_id ∷ claimed) ps u ≡ done ks x
        → BoughtAll s (p ∷ seen) (l.episode_id ∷ claimed) ps ks

    second :
        (l : LeaseSpec) (u : World) (o : Outcome (List LeaseSpec))
        → seat_lease s seen claimed p w ≡ done l u
        → lease_all s (p ∷ seen) (l.episode_id ∷ claimed) ps u ≡ o
        → Rest
        → BoughtAll s seen claimed (p ∷ ps) ls
    second l u (raised x y) e f rest = ground (arith, h, e, f)
    second l u (done ks x) e f rest =
        let b = seat_lease-Bought s seen claimed p l w u e in
        let others = all_mono (has_episode w.db) (has_episode u.db) b.seated.kept claimed c in
        let r =
          rest l ks u x (b.seated.nodes ∙ n) (ground (arith, b.seated.there, b.its, others)) f in
        let is : ls ≡ l ∷ ks = ground (arith, h, e, f) in
        subst (BoughtAll s seen claimed (p ∷ ps)) (sym is)
          (BoughtAll-cons s seen claimed p ps l ks w u n c b r)

    first :
        (o : Outcome LeaseSpec)
        → seat_lease s seen claimed p w ≡ o
        → Rest
        → BoughtAll s seen claimed (p ∷ ps) ls
    first (done l u) e rest =
        second l u (lease_all s (p ∷ seen) (l.episode_id ∷ claimed) ps u) e refl rest
    first (raised x u) e rest = ground (arith, h, e)

length-map : (ls : List LeaseSpec) → length (map bought ls) ≡ length ls
length-map [] = refl
length-map (l ∷ ls) = ground (arith, length-map ls)

-- The leases that _seat_leases returns carry out the purchases, in their order. With the leases
-- that research already they are within max_proposer_inflight. Each has a known lens that is not
-- burned on its node, and a node that is there and not dead. No two share an episode, are the
-- same purchase, or put one lens on a node and on its ancestor at most 100 generations up.
pub seat_leases-legal :
    (rules : SeatRules) (ps : List SeatPurchase) (ls : List LeaseSpec) (w v : World)
    → seat_leases rules ps w ≡ done ls v
    → (map bought ls ≡ ps)
      × (length ls + researching_open_allocation_count w.db ≤ rules.max_proposer_inflight)
      × (all (legal rules.basis w.db) ls ≡ true)
      × (pairwise (list_nodes w.db) ls ≡ true)
unfolding seat_leases exceeds_capacity
seat_leases-legal rules ps ls w v h =
    let s : Snapshot = record { known = rules.basis; before = w.db } in
    let b = lease_all-BoughtAll s [] [] ps ls w v refl refl (ground (arith, h)) in
    (
      b.each,
      ground (arith, h, b.each, length-map ls),
      b.all_legal,
      (in_turn-apart (list_nodes w.db) [] [] ls b.turn).1,
    )
