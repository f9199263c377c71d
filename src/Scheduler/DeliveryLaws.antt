-- ===== src/Scheduler/DeliveryLaws.antt =====
-- An adjudicated delivery moves its lease on.
use simple_evolution.Prelude.{
  ◌⊎◌, inl, inr, subst, ℕ, suc, ◌+◌, String, Bool, true, false, ◌&&◌, ◌||◌, ◌≡◌, refl, Option, none,
  some, List, ◌==◌, string_eq, update, find-update, find-holds, arith, leb, if◌then◌else◌,
}
use simple_evolution.Json.{Json, null, text}
use simple_evolution.Db.Rows.{
  ProposerAllocation, LeaseState, Conclusion, delivered, cut_off, rejected, concluded, reopen,
  awaiting_adjudication, ExperimentStatus, is_completed, GateDecision,
}
use simple_evolution.Db.State.{World}
use simple_evolution.Db.Exec.{Outcome, done, raised}
use simple_evolution.Db.Keeps.{Keeps}
use simple_evolution.Db.Laws.{transaction-done}
use simple_evolution.Db.Select.{get_allocation}
use simple_evolution.Db.Insert.{insert_scheduler_event}
use simple_evolution.Db.Update.{finished_row, update_allocations}
use simple_evolution.Lease.Conclude.{conclude_lease, conclude_on_tx, conclude_open, produced_by}
use simple_evolution.Lease.Adjudicate.{
  record_lease_adjudication, adjudicate_on_tx, send_back, cannot_reopen,
  graduate_delivered_evidence, graduate_on_tx, set_evidence, latest_evidence,
}
use simple_evolution.Lease.Frame.{leases-conclude_open}
use simple_evolution.Scheduler.Deliveries.{
  LeaseRules, conclude_if_used_up, reopen_or_conclude, is_rejection, deliver_pass, settle_delivery,
  delivery_of, settle_if_delivery, resolve_delivery_experiment,
}

-- The lease is there, in the state.
abbrev pub InState : String → LeaseState → World → Type 0
InState i s w = (b : ProposerAllocation) × (get_allocation i w.db ≡ some b) × (b.state ≡ some s)

conclude-InState :
    (a : ProposerAllocation) (o : Conclusion) (r sha : Json) (w v : World)
    → get_allocation a.allocation_id w.db ≡ some a
    → a.finished_at ≡ none
    → conclude_lease a.allocation_id o r sha w ≡ done tt v
    → InState a.allocation_id (concluded o) v
unfolding conclude_lease conclude_on_tx get_allocation finished_row
conclude-InState a o r sha w v f open_ h =
    let now = w.clock w.readings in
    let u : World = record w { readings = suc w.readings } in
    let body : conclude_open a o now r sha u ≡ done tt v =
      ground (arith, transaction-done _ w tt v h, f, open_) in
    let row = finished_row (produced_by a o u.db) now (some o) in
    (
      row a,
      ground (
        arith,
        leases-conclude_open a o now r sha u,
        body,
        find-update (λ x. x.allocation_id == a.allocation_id)
            (λ x. x.allocation_id == a.allocation_id) row (λ _. refl) w.proposer_allocations a f,
        find-holds (λ x. x.allocation_id == a.allocation_id) w.proposer_allocations a f,
      ),
      refl,
    )

sent_row : ProposerAllocation → ProposerAllocation → ProposerAllocation
sent_row a x = record x { state = some reopen; reopen_count = a.reopen_count + 1 }

send_back-done :
    (a : ProposerAllocation) (eid : String) (gate : GateDecision) (now : ℕ) (u v : World) (b : Bool)
    → send_back a eid gate none now u ≡ done b v
    → (b ≡ true)
      × (v.proposer_allocations
          ≡ update (λ x. x.allocation_id == a.allocation_id) (sent_row a) u.proposer_allocations)
unfolding send_back insert_scheduler_event update_allocations sent_row
send_back-done a eid gate now u v b h = (ground (arith, h), ground (arith, h))

used_up :
    (m : ℕ) (a : ProposerAllocation)
    → a.finished_at ≡ none
    → a.state ≡ some awaiting_adjudication
    → cannot_reopen m a ≡ true
    → leb (a.reopen_count + 1) m ≡ false
unfolding cannot_reopen
used_up m a open_ awaits e = ground (arith, open_, awaits, e)

-- The lease is sent back while it may be, and is left alone after that.
Adjudicated : ProposerAllocation → ℕ → World → World → Bool → Type 0
Adjudicated a m w v b =
    ((b ≡ true) × (leb (a.reopen_count + 1) m ≡ true) × InState a.allocation_id reopen v)
    ⊎ ((b ≡ false)
        × (leb (a.reopen_count + 1) m ≡ false)
        × (v.proposer_allocations ≡ w.proposer_allocations))

sent-Adjudicated :
    (a : ProposerAllocation) (eid : String) (gate : GateDecision) (m now : ℕ) (u v : World)
    (b : Bool)
    → get_allocation a.allocation_id u.db ≡ some a
    → cannot_reopen m a ≡ false
    → send_back a eid gate none now u ≡ done b v
    → Adjudicated a m u v b
unfolding Adjudicated get_allocation cannot_reopen sent_row
sent-Adjudicated a eid gate m now u v b f may h =
    let (is_true, rows) = send_back-done a eid gate now u v b h in
    inl (
      is_true,
      ground (arith, may),
      (
        sent_row a a,
        ground (
          arith,
          rows,
          find-update (λ x. x.allocation_id == a.allocation_id)
              (λ x. x.allocation_id == a.allocation_id) (sent_row a) (λ _. refl)
              u.proposer_allocations a f,
          find-holds (λ x. x.allocation_id == a.allocation_id) u.proposer_allocations a f,
        ),
        refl,
      ),
    )

adjudicate-Adjudicated :
    (a : ProposerAllocation) (eid : String) (gate : GateDecision) (m : ℕ) (w v : World) (b : Bool)
    → get_allocation a.allocation_id w.db ≡ some a
    → a.finished_at ≡ none
    → a.state ≡ some awaiting_adjudication
    → record_lease_adjudication a.allocation_id eid gate none m w ≡ done b v
    → Adjudicated a m w v b
unfolding record_lease_adjudication adjudicate_on_tx Adjudicated
adjudicate-Adjudicated a eid gate m w v b f open_ awaits h = go (cannot_reopen m a) refl
  where
    u : World
    u = record w { readings = suc w.readings }

    body : adjudicate_on_tx (some a) eid gate none m (w.clock w.readings) u ≡ done b v
    body = ground (arith, transaction-done _ u b v h, f)

    go : (c : Bool) → cannot_reopen m a ≡ c → Adjudicated a m w v b
    go true e = inr (ground (arith, body, e), used_up m a open_ awaits e, ground (arith, body, e))
    go false e =
        sent-Adjudicated a eid gate m (w.clock w.readings) u v b f e (ground (arith, body, e))

-- What the write-back of a rejection makes of the lease.
abbrev pub after_rejection : LeaseRules → ProposerAllocation → LeaseState
after_rejection rules a =
    if rules.budget_exhausted a
    then concluded cut_off
    else if leb (a.reopen_count + 1) rules.max_lease_reopens
    then reopen
    else concluded rejected

second_half :
    (rules : LeaseRules) (a : ProposerAllocation) (w u v : World) (b : Bool)
    → rules.budget_exhausted a ≡ false
    → get_allocation a.allocation_id w.db ≡ some a
    → a.finished_at ≡ none
    → Adjudicated a rules.max_lease_reopens w u b
    → conclude_if_used_up a.allocation_id b u ≡ done tt v
    → InState a.allocation_id (after_rejection rules a) v
unfolding Adjudicated conclude_if_used_up get_allocation
second_half rules a w u v b within f open_ (inl (t, below, state)) h =
    let same : u ≡ v = ground (arith, h, t) in
    let is : reopen ≡ after_rejection rules a = ground (arith, within, below) in
    subst (λ x. InState a.allocation_id (after_rejection rules a) x) same
      (subst (λ s. InState a.allocation_id s u) is state)
second_half rules a w u v b within f open_ (inr (t, above, rows)) h =
    subst (λ s. InState a.allocation_id s v) (ground (arith, within, above))
      (conclude-InState a rejected (text "reopen budget exhausted") null u v
        (ground (arith, rows, f)) open_ (ground (arith, h, t)))

reopen_or_conclude-InState :
    (rules : LeaseRules) (a : ProposerAllocation) (eid : String) (gate : GateDecision) (w v : World)
    → rules.allocation_disabled ≡ false
    → get_allocation a.allocation_id w.db ≡ some a
    → a.finished_at ≡ none
    → a.state ≡ some awaiting_adjudication
    → reopen_or_conclude rules a eid gate w ≡ done tt v
    → InState a.allocation_id (after_rejection rules a) v
unfolding reopen_or_conclude
reopen_or_conclude-InState rules a eid gate w v on f open_ awaits h =
    go (rules.budget_exhausted a) refl
  where
    adjudicated :
        (o : Outcome Bool)
        → rules.budget_exhausted a ≡ false
        → record_lease_adjudication a.allocation_id eid gate none rules.max_lease_reopens w ≡ o
        → InState a.allocation_id (after_rejection rules a) v
    adjudicated (done b u) e r =
        second_half rules a w u v b e f open_
          (adjudicate-Adjudicated a eid gate rules.max_lease_reopens w u b f open_ awaits r)
          (ground (arith, h, on, e, r))
    adjudicated (raised x u) e r = ground (arith, h, on, e, r)

    go :
        (c : Bool)
        → rules.budget_exhausted a ≡ c
        → InState a.allocation_id (after_rejection rules a) v
    go true e =
        subst (λ s. InState a.allocation_id s v) (ground (arith, e))
          (conclude-InState a cut_off (text "lease budget exhausted at adjudication write-back")
            null w v f open_ (ground (arith, h, on, e)))
    go false e =
        adjudicated
          (record_lease_adjudication a.allocation_id eid gate none rules.max_lease_reopens w) e refl

-- The graduation of evidence leaves the leases alone.
graduate-Keeps :
    (e sha : String) → Keeps (λ db. db.proposer_allocations) (graduate_delivered_evidence e sha)
unfolding graduate_delivered_evidence graduate_on_tx set_evidence
graduate-Keeps e sha = record {
  at = λ w n v h. go (latest_evidence e w.db) w n v (transaction-done _ w n v h);
}
  where
    go :
        (o : Option (List Json)) (w : World) (n : ℕ) (v : World)
        → graduate_on_tx e sha o w ≡ done n v
        → v.proposer_allocations ≡ w.proposer_allocations
    go none w n v h = ground (arith, h)
    go (some js) w n v h = ground (arith, h)

deliver_pass-InState :
    (a : ProposerAllocation) (sha : String) (w v : World)
    → get_allocation a.allocation_id w.db ≡ some a
    → a.finished_at ≡ none
    → deliver_pass a sha w ≡ done tt v
    → InState a.allocation_id (concluded delivered) v
unfolding deliver_pass get_allocation
deliver_pass-InState a sha w v f open_ h = go (graduate_delivered_evidence a.episode_id sha w) refl
  where
    go :
        (o : Outcome ℕ)
        → graduate_delivered_evidence a.episode_id sha w ≡ o
        → InState a.allocation_id (concluded delivered) v
    go (done n u) e =
        let rows = (graduate-Keeps a.episode_id sha).at w n u e in
        conclude-InState a delivered null (text sha) u v (ground (arith, rows, f)) open_
          (ground (arith, h, e))
    go (raised x u) e = ground (arith, h, e)

-- The state of a lease that awaits adjudication, once the outcome has been written back.
abbrev pub verdict : LeaseRules → ProposerAllocation → ExperimentStatus → GateDecision → LeaseState
verdict rules a status gate =
    if is_completed status && gate.passed then concluded delivered else after_rejection rules a

-- When the outcome of a delivery is written back to an open lease that awaits adjudication, in a
-- run that is not capped, and the outcome is a pass, a gate rejection or no change, a call that
-- returns leaves the lease concluded as delivered after a pass; after a rejection cut off if its
-- budget is used up, else sent back while its reopens allow it, else concluded as rejected.
pub resolve-InState :
    (rules : LeaseRules) (eid : String) (status : ExperimentStatus) (gate : GateDecision)
    (a : ProposerAllocation) (sha : String) (w v : World)
    → delivery_of eid w.db ≡ some (a, sha)
    → get_allocation a.allocation_id w.db ≡ some a
    → a.finished_at ≡ none
    → a.state ≡ some awaiting_adjudication
    → rules.allocation_disabled ≡ false
    → ((is_completed status && gate.passed) || is_rejection status) ≡ true
    → resolve_delivery_experiment rules eid status gate w ≡ done tt v
    → InState a.allocation_id (verdict rules a status gate) v
unfolding resolve_delivery_experiment settle_if_delivery settle_delivery
resolve-InState rules eid status gate a sha w v found f open_ awaits on outcome h =
    go (is_completed status && gate.passed) refl
  where
    go :
        (b : Bool)
        → (is_completed status && gate.passed) ≡ b
        → InState a.allocation_id (if b then concluded delivered else after_rejection rules a) v
    go true e = deliver_pass-InState a sha w v f open_ (ground (arith, h, found, e))
    go false e =
        reopen_or_conclude-InState rules a eid gate w v on f open_ awaits
          (ground (arith, h, found, e, outcome))
