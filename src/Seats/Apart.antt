-- ===== src/Seats/Apart.antt =====
-- The episodes of the seats: each is there, and is not one that another purchase has claimed.
use simple_evolution.Prelude.{
  String, true, false, not, ◌&&◌, ◌≡◌, refl, ◌∙◌, Option, none, some, List, [], ◌∷◌, ◌==◌,
  string_eq, any, all, any_mono, any-append, sym, any-take, any-find, any-order_by, any-select,
  find-holds, member, select, take, order_by, ltb, arith, eq_refl, eq_iff,
}
use simple_evolution.Db.Rows.{Episode}
use simple_evolution.Db.State.{Db, World}
use simple_evolution.Db.Exec.{done}
use simple_evolution.Db.Laws.{transaction-done}
use simple_evolution.Db.Select.{has_episode}
use simple_evolution.Db.Insert.{create_episode, new_episode}
use simple_evolution.Queries.Reads.{episodes_for_node, allocated_episode_ids}
use simple_evolution.Seats.Purchase.{
  seat_episode_for_node, first_or_new, new_seat_episode, fresh_episode,
}

-- What the choice of an episode for a seat does to the store.
pub record Seated (claimed : List String) (e : Episode) (w v : World) : Type 0 where
  pub nodes : v.nodes ≡ w.nodes
  pub there : has_episode v.db e.episode_id ≡ true
  pub kept : (i : String) → has_episode w.db i ≡ true → has_episode v.db i ≡ true
  pub unclaimed : all (has_episode w.db) claimed ≡ true → member e.episode_id claimed ≡ false

not-member :
    (db : Db) (i : String) (claimed : List String)
    → has_episode db i ≡ false
    → all (has_episode db) claimed ≡ true
    → member i claimed ≡ false
not-member db i [] h k = refl
not-member db i (c ∷ cs) h k = ground (arith, not-member db i cs h, eq_iff c i, h, k)

created-Seated :
    (n : String) (claimed : List String) (w v : World) (e : Episode)
    → create_episode none n w ≡ done e v
    → Seated claimed e w v
unfolding create_episode new_episode
created-Seated n claimed w v e h = record {
  nodes = ground (arith, h);
  there = ground (
    arith,
    h,
    any-append (λ x. x.episode_id == e.episode_id) w.episodes (e ∷ []),
    eq_refl e.episode_id,
  );
  kept = λ i k. ground (arith, h, any-append (λ x. x.episode_id == i) w.episodes (e ∷ []), k);
  unclaimed = λ k. not-member w.db e.episode_id claimed (ground (arith, h)) k;
}

found-there :
    (n : String) (claimed : List String) (db : Db) (e : Episode)
    → fresh_episode n claimed db ≡ some e
    → has_episode db e.episode_id ≡ true
unfolding fresh_episode episodes_for_node
found-there n claimed db e h =
    let test = λ (x : Episode). x.episode_id == e.episode_id in
    let rows = select (λ (x : Episode). x.node_id == n) db.episodes in
    let sorted =
      order_by (λ (a : Episode) (b : Episode). ltb b.last_active_at a.last_active_at) rows in
    let in_sorted : any test sorted ≡ true =
      any-take test 1000 sorted (any-find test _ (take 1000 sorted) e h (eq_refl e.episode_id)) in
    any_mono (λ x. x.node_id == n && x.episode_id == e.episode_id) test (λ x k. ground (arith, k))
      db.episodes
      (sym (any-order_by test _ rows ∙ any-select test (λ x. x.node_id == n) db.episodes)
        ∙ in_sorted)

pub seat_episode-Seated :
    (n : String) (claimed : List String) (w v : World) (e : Episode)
    → seat_episode_for_node n claimed w ≡ done e v
    → Seated claimed e w v
unfolding seat_episode_for_node first_or_new new_seat_episode fresh_episode
seat_episode-Seated n claimed w v e = go (fresh_episode n claimed w.db) refl
  where
    go :
        (o : Option Episode)
        → fresh_episode n claimed w.db ≡ o
        → first_or_new n o w ≡ done e v
        → Seated claimed e w v
    go (some x) f h = record {
      nodes = ground (arith, h);
      there = ground (arith, h, found-there n claimed w.db x f);
      kept = λ i k. ground (arith, h, k);
      unclaimed = λ _. ground (
        arith,
        h,
        find-holds
            (λ y.
              not (member y.episode_id (allocated_episode_ids w.db))
              && not (member y.episode_id claimed))
            (episodes_for_node n 1000 w.db) x f,
      );
    }
    go none f h = created-Seated n claimed w v e (transaction-done (create_episode none n) w e v h)
