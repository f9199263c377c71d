-- ===== src/Seats/GrowthLaws.antt =====
-- A growth decision keeps the seats within the limit.
use simple_evolution.Prelude.{
  ℕ, suc, String, Bool, true, false, ◌≡◌, ◌≤◌, ◌+◌, refl, Option, none, some, List, [], ◌∷◌, ◌++◌,
  string_eq, count-append, length, arith, if◌then◌else◌,
}
use simple_evolution.Json.{
  Json, Items, nil, cons, null, bool, number, nonfinite, text, array, object,
}
use simple_evolution.Db.Rows.{Episode, ProposerAllocation, ResourceKind, growth, DecisionKind}
use simple_evolution.Db.State.{World}
use simple_evolution.Db.Exec.{
  Error, Exec, Outcome, done, raised, and_then, ◌>>=◌, raise, modify, collect, transaction,
}
use simple_evolution.Db.Keeps.{Keeps, Keeps-bind, Keeps-pure, Keeps-reads, keep_rules}
use simple_evolution.Db.Laws.{transaction-done}
use simple_evolution.Db.Insert.{
  create_allocation, create_episode, open_resource, insert_scheduler_event,
}
use simple_evolution.Db.Update.{update_episodes}
use simple_evolution.Lease.Allocate.{LeaseSpec, allocate_on_tx, check_episode, stamp_lens, reserve}
use simple_evolution.Queries.Reads.{
  open_in_state, is_researching, researching_open_allocation_count,
}
use simple_evolution.Supervisor.Commit.{
  Judgment, SupervisorCommit, commit_supervisor_decision, commit_on_tx, check_judgment,
  check_payload, decision_kind_of, is_growth, decide, enact, replay, decision_row,
}
use simple_evolution.Seats.Purchase.{
  SeatPurchase, SeatRules, Snapshot, seat_lease, lease_all, seat_leases, seat_purchase,
  purchases_of, seat_purchases, seat_episode_for_node, first_or_new, new_seat_episode,
}
use simple_evolution.Seats.PurchaseLaws.{seat_leases-legal}
use simple_evolution.Seats.Growth.{apply_growth, growth_judgment}

-- A statement that leaves the leases alone.
abbrev Calm : {A : Type 0} → Exec A → Type 0
Calm body = Keeps (λ db. db.proposer_allocations) body

researchers : World → ℕ
unfolding researching_open_allocation_count
researchers w = researching_open_allocation_count w.db

-- A statement that opens at most so many leases that research.
record Opens (n : ℕ) {A : Type 0} (body : Exec A) : Type 0 where
  at : (w : World) (a : A) (v : World) → body w ≡ done a v → researchers v ≤ n + researchers w

module _ {A B : Type 0} where
  Opens-one :
      (n : ℕ) {body : Exec A} {k : A → Exec B}
      → Opens 1 body
      → ((a : A) → Opens n (k a))
      → Opens (suc n) (body >>= k)
  Opens-one n {body} {k} b ks = record { at = λ w c v. go w c v (body w) refl }
    where
      go :
          (w : World) (c : B) (v : World) (o : Outcome A)
          → body w ≡ o
          → and_then o k ≡ done c v
          → researchers v ≤ suc n + researchers w
      go w c v (done a u) e h = omega (arith, b.at w a u e, (ks a).at u c v h)
      go w c v (raised x u) e h = cc

  -- Statements that open none before one that opens, and after it.
  Opens-then :
      (n : ℕ) {body : Exec A} {k : A → Exec B}
      → Calm body
      → ((a : A) → Opens n (k a))
      → Opens n (body >>= k)
  unfolding researchers
  Opens-then n {body} {k} b ks = record { at = λ w c v. go w c v (body w) refl }
    where
      go :
          (w : World) (c : B) (v : World) (o : Outcome A)
          → body w ≡ o
          → and_then o k ≡ done c v
          → researchers v ≤ n + researchers w
      go w c v (done a u) e h = ground (arith, b.at w a u e, (ks a).at u c v h)
      go w c v (raised x u) e h = cc

  Opens-before :
      (n : ℕ) {body : Exec A} {k : A → Exec B}
      → Opens n body
      → ((a : A) → Calm (k a))
      → Opens n (body >>= k)
  unfolding researchers
  Opens-before n {body} {k} b ks = record { at = λ w c v. go w c v (body w) refl }
    where
      go :
          (w : World) (c : B) (v : World) (o : Outcome A)
          → body w ≡ o
          → and_then o k ≡ done c v
          → researchers v ≤ n + researchers w
      go w c v (done a u) e h = ground (arith, b.at w a u e, (ks a).at u c v h)
      go w c v (raised x u) e h = cc

create-Opens : (a : ProposerAllocation) → Opens 1 (create_allocation a)
unfolding create_allocation researchers
create-Opens a = record {
  at = λ w t v h.
      ground
        (arith, h, count-append (open_in_state is_researching) w.proposer_allocations (a ∷ []));
}

Calm-Opens : {A : Type 0} (n : ℕ) (body : Exec A) → Calm body → Opens n body
unfolding researchers
Calm-Opens n body b = record { at = λ w a v e. ground (arith, b.at w a v e) }

Opens-if :
    {A : Type 0} (n : ℕ) (b : Bool) (m k : Exec A)
    → Opens n m
    → Opens n k
    → Opens n (if b then m else k)
Opens-if n true m k p q = p
Opens-if n false m k p q = q

Calm-raise : {A : Type 0} (e : Error) → Calm (raise {A = A} e)
Calm-raise e = Keeps-reads _ λ w. refl

Calm-open_resource :
    (k : ResourceKind) (r : String) (a e : Option String) (now : ℕ)
    → Calm (open_resource k r a e now)
unfolding open_resource
Calm-open_resource k r a e now = Keeps-reads _ λ w. ground arith

Calm-check_episode : (s : LeaseSpec) (o : Option Episode) → Calm (check_episode s o)
unfolding check_episode
Calm-check_episode s none = Keeps-reads _ λ w. refl
Calm-check_episode s (some e) = Keeps-reads _ λ w. ground arith

Calm-stamp_lens : (s : LeaseSpec) (e : Episode) (o : Option String) → Calm (stamp_lens s e o)
unfolding stamp_lens update_episodes
Calm-stamp_lens s e none = Keeps-reads _ λ w. refl
Calm-stamp_lens s e (some l) = Keeps-reads _ λ w. ground arith

reserve-Opens : (s : LeaseSpec) (d : Option String) (n : ℕ) → Opens 1 (reserve s d n)
unfolding reserve
reserve-Opens s d n =
    search (keep_rules, Opens-then, create-Opens, Calm-open_resource, Opens-before) depth 20

allocate-Opens : (s : LeaseSpec) (c : Option ℕ) (d : Option String) → Opens 1 (allocate_on_tx s c d)
unfolding allocate_on_tx
allocate-Opens s c d =
    search
      (
        keep_rules, Calm-check_episode, Calm-stamp_lens, Opens-then, Opens-if, Calm-Opens,
        reserve-Opens,
      )
      depth 20

allocate_all-Opens :
    (specs : List LeaseSpec) (c : Option ℕ) (d : Option String)
    → Opens (length specs) (collect specs λ s. allocate_on_tx s c d)
allocate_all-Opens [] c d = Calm-Opens 0 _ (Keeps-reads _ λ w. refl)
allocate_all-Opens (s ∷ ss) c d =
    Opens-one (length ss) (allocate-Opens s c d)
      λ a. Opens-before (length ss) (allocate_all-Opens ss c d) λ rest. Keeps-reads _ λ w. refl

Calm-insert_scheduler_event :
    (t : String) (p : Json) (now : ℕ) → Calm (insert_scheduler_event t p now)
unfolding insert_scheduler_event
Calm-insert_scheduler_event t p now = Keeps-reads _ λ w. ground arith

Calm-cursor : (c : Option ℕ) → Calm (modify λ db. record db { supervisor_cursor = c })
Calm-cursor c = Keeps-reads _ λ w. refl

Calm-decided :
    (j : Judgment) (k : DecisionKind) (now : ℕ)
    → Calm (
        modify λ db. record db {
          supervisor_decisions = db.supervisor_decisions ++ (decision_row j k now ∷ []);
        })
Calm-decided j k now = Keeps-reads _ λ w. refl

enact-Opens : (j : Judgment) → Opens (length j.leases) (enact j growth)
unfolding enact
enact-Opens j =
    Opens-before _ (allocate_all-Opens j.leases j.max_proposals_per_node (some j.decision_id))
      λ xs. Keeps-reads _ λ w. refl

decide-Opens : (j : Judgment) → Opens (length j.leases) (decide j growth)
unfolding decide
decide-Opens j =
    search
      (
        keep_rules, Opens-then, Opens-before, enact-Opens, Calm-insert_scheduler_event, Calm-cursor,
        Calm-decided,
      )
      depth 20

commit_on_tx-Opens : (j : Judgment) → Opens (length j.leases) (commit_on_tx j growth)
unfolding commit_on_tx replay
commit_on_tx-Opens j =
    search (keep_rules, Opens-then, Opens-if, Calm-Opens, decide-Opens, Calm-raise) depth 20

-- The seats of a growth result, up to the commit.
Calm-seat_episode : (n : String) (claimed : List String) → Calm (seat_episode_for_node n claimed)
unfolding seat_episode_for_node first_or_new new_seat_episode create_episode transaction
Calm-seat_episode n claimed = Keeps-reads _ λ w. ground arith

Calm-seat_lease :
    (s : Snapshot) (seen : List SeatPurchase) (claimed : List String) (p : SeatPurchase)
    → Calm (seat_lease s seen claimed p)
unfolding seat_lease
Calm-seat_lease s seen claimed p = search (keep_rules, Calm-seat_episode) depth 20

Calm-lease_all :
    (s : Snapshot) (seen : List SeatPurchase) (claimed : List String) (ps : List SeatPurchase)
    → Calm (lease_all s seen claimed ps)
unfolding lease_all
Calm-lease_all s seen claimed [] = Keeps-reads _ λ w. refl
Calm-lease_all s seen claimed (p ∷ ps) = Keeps-bind (Calm-seat_lease s seen claimed p) λ l.
    Keeps-bind (Calm-lease_all s (p ∷ seen) (l.episode_id ∷ claimed) ps) λ ls. Keeps-pure (l ∷ ls)

Calm-seat_leases : (rules : SeatRules) (ps : List SeatPurchase) → Calm (seat_leases rules ps)
unfolding seat_leases
Calm-seat_leases rules ps = search (keep_rules, Calm-lease_all) depth 20

Calm-seat_purchase : (x : Json) → Calm (seat_purchase x)
unfolding seat_purchase
Calm-seat_purchase (object fs) = search keep_rules depth 20
Calm-seat_purchase null = Calm-raise _
Calm-seat_purchase (bool b) = Calm-raise _
Calm-seat_purchase (number n) = Calm-raise _
Calm-seat_purchase nonfinite = Calm-raise _
Calm-seat_purchase (text t) = Calm-raise _
Calm-seat_purchase (array xs) = Calm-raise _

Calm-purchases_of : (xs : Items) → Calm (purchases_of xs)
unfolding purchases_of
Calm-purchases_of nil = Keeps-reads _ λ w. refl
Calm-purchases_of (cons x xs) =
    Keeps-bind (Calm-seat_purchase x)
      λ p. Keeps-bind (Calm-purchases_of xs) λ ps. Keeps-pure (p ∷ ps)

Calm-seat_purchases : (raw : Option Json) → Calm (seat_purchases raw)
unfolding seat_purchases
Calm-seat_purchases none = Calm-raise _
Calm-seat_purchases (some null) = Calm-raise _
Calm-seat_purchases (some (array xs)) = Calm-purchases_of xs
Calm-seat_purchases (some (bool b)) = Calm-raise _
Calm-seat_purchases (some (number n)) = Calm-raise _
Calm-seat_purchases (some nonfinite) = Calm-raise _
Calm-seat_purchases (some (text t)) = Calm-raise _
Calm-seat_purchases (some (object fs)) = Calm-raise _

commit-seats :
    (d i : String) (c : ℕ) (r : String) (ps : List SeatPurchase) (ls : List LeaseSpec) (w v : World)
    (a : SupervisorCommit)
    → commit_supervisor_decision (growth_judgment d i c r ps ls) w ≡ done a v
    → researchers v ≤ length ls + researchers w
unfolding commit_supervisor_decision check_judgment growth_judgment decision_kind_of is_growth
    check_payload
commit-seats d i c r ps ls w v a h =
    let j = growth_judgment d i c r ps ls in
    (commit_on_tx-Opens j).at w a v
      (transaction-done (commit_on_tx j growth) w a v (ground (arith, h)))

-- After a growth decision that returns, whether it is new or replayed, no more leases research
-- than max_proposer_inflight.
pub apply_growth-seats :
    (rules : SeatRules) (d i : String) (c : ℕ) (r : String) (raw : Option Json)
    (a : SupervisorCommit) (w v : World)
    → apply_growth rules d i c r raw w ≡ done a v
    → researching_open_allocation_count v.db ≤ rules.max_proposer_inflight
unfolding apply_growth researchers
apply_growth-seats rules d i c r raw a w v h = first (seat_purchases raw w) refl
  where
    second :
        (ps : List SeatPurchase) (u : World) (o : Outcome (List LeaseSpec))
        → seat_purchases raw w ≡ done ps u
        → seat_leases rules ps u ≡ o
        → researching_open_allocation_count v.db ≤ rules.max_proposer_inflight
    second ps u (done ls x) e f =
        let bought = commit-seats d i c r ps ls x v a (ground (arith, h, e, f)) in
        let same = (Calm-seat_leases rules ps).at u ls x f in
        ground (arith, bought, same, (seat_leases-legal rules ps ls u x f).1)
    second ps u (raised y x) e f = ground (arith, h, e, f)

    first :
        (o : Outcome (List SeatPurchase))
        → seat_purchases raw w ≡ o
        → researching_open_allocation_count v.db ≤ rules.max_proposer_inflight
    first (done ps u) e = second ps u (seat_leases rules ps u) e refl
    first (raised y u) e = ground (arith, h, e)
