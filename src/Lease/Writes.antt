-- ===== src/Lease/Writes.antt =====
-- The lease writes of a conclusion, an adjudication and a reactivation are steps of the machine.
use simple_evolution.Prelude.{
  ℕ, ◌+◌, ◌<◌, String, ◌≡◌, refl, sym, subst, Bool, true, false, ◌⊎◌, inl, inr, Option, none, some,
  arith, update, ◌==◌, string_eq, find-holds, eq_iff, if◌then◌else◌, is_none,
}
use simple_evolution.Json.{Json}
use simple_evolution.Db.Rows.{
  ProposerAllocation, Conclusion, LeaseState, awaiting_adjudication, reopen, GateDecision,
}
use simple_evolution.Db.State.{Db, World}
use simple_evolution.Db.Exec.{Exec, Outcome, done, raised, after, transaction, commit_or_roll_back}
use simple_evolution.Db.Select.{get_allocation}
use simple_evolution.Lease.Conclude.{conclude_on_tx, conclude_open}
use simple_evolution.Lease.Adjudicate.{
  adjudicate_on_tx, send_back, cannot_reopen, adjudication_payload, is_reopened, is_reopen,
  reactivate,
}
use simple_evolution.Lease.Frame.{leases, leases-conclude_open, leases-insert_scheduler_event}
use simple_evolution.Lease.Machine.{
  LeaseStep, Advances, Advances-same, Advances-update, Advances-update_one, Advances-finish, resume,
}

pub get_allocation-id :
    (i : String) (db : Db) (a : ProposerAllocation)
    → get_allocation i db ≡ some a
    → a.allocation_id ≡ i
unfolding get_allocation
get_allocation-id i db a h =
    (eq_iff a.allocation_id i).0
      (find-holds (λ x. x.allocation_id == i) db.proposer_allocations a h)

pub self-found :
    (i : String) (db : Db) (a : ProposerAllocation)
    → get_allocation i db ≡ some a
    → get_allocation a.allocation_id db ≡ some a
self-found i db a h = subst (λ k. get_allocation k db ≡ some a) (sym (get_allocation-id i db a h)) h

module _ (m : ℕ) where
  pub committed :
      {A : Type 0} (db : Db) (o : Outcome A)
      → Advances m db (after o).db
      → Advances m db (after (commit_or_roll_back db o)).db
  committed db (done a w) h = h
  committed db (raised e w) h = Advances-same m db db refl

  pub transaction-Advances :
      {A : Type 0} (body : Exec A) (w : World)
      → Advances m w.db (after (body w)).db
      → Advances m w.db (after (transaction body w)).db
  unfolding transaction
  transaction-Advances body w h = committed w.db (body w) h

  pub conclude_on_tx-Advances :
      (i : String) (a : ProposerAllocation) (outcome : Conclusion) (now : ℕ) (reason sha : Json)
      (w : World)
      → get_allocation i w.db ≡ some a
      → Advances m w.db (after (conclude_on_tx (some a) outcome now reason sha w)).db
  unfolding conclude_on_tx
  conclude_on_tx-Advances i a outcome now reason sha w found = go a.finished_at refl
    where
      go :
          (f : Option ℕ)
          → a.finished_at ≡ f
          → Advances m w.db
              (after (
                (if is_none f then conclude_open a outcome now reason sha else (λ v. done tt v))
                  w)).db
      go none e =
          Advances-finish m w.db _ a outcome _ now e (self-found i w.db a found)
            (leases-conclude_open a outcome now reason sha w)
      go (some t) e = Advances-same m w.db w.db refl

  pub reopened : ProposerAllocation → ProposerAllocation → ProposerAllocation
  reopened a x = record x { state = some reopen; reopen_count = a.reopen_count + 1 }

  pub leases-send_back :
      (a : ProposerAllocation) (eid : String) (gate : GateDecision) (detail : Option String)
      (now : ℕ) (w : World)
      → (leases (send_back a eid gate detail now w) ≡ w.proposer_allocations)
        ⊎ (leases (send_back a eid gate detail now w)
            ≡ update (λ x. x.allocation_id == a.allocation_id) (reopened a) w.proposer_allocations)
  unfolding send_back reopened
  leases-send_back a eid gate detail now w = ground (
    arith,
    leases-insert_scheduler_event "lease_adjudication" (adjudication_payload a eid gate detail) now
        w,
  )

  pub may_reopen :
      (a : ProposerAllocation)
      → cannot_reopen m a ≡ false
      → (a.finished_at ≡ none) × (a.state ≡ some awaiting_adjudication) × (a.reopen_count < m)
  unfolding cannot_reopen
  may_reopen a h = ground arith

  pub send_back-Advances :
      (a : ProposerAllocation) (eid : String) (gate : GateDecision) (detail : Option String)
      (now : ℕ) (w : World)
      → get_allocation a.allocation_id w.db ≡ some a
      → cannot_reopen m a ≡ false
      → Advances m w.db (after (send_back a eid gate detail now w)).db
  unfolding reopened
  send_back-Advances a eid gate detail now w found may =
      elim (leases-send_back a eid gate detail now w) [
        | inl e ↦ Advances-same m w.db _ e
        | inr e ↦
            let (is_open, awaits, below) = may_reopen a may in
            Advances-update_one m w.db _ a.allocation_id a _ (λ x. refl) found
              (LeaseStep.send_back is_open awaits below refl) e
      ]

  pub adjudicate_on_tx-Advances :
      (i eid : String) (gate : GateDecision) (detail : Option String) (now : ℕ) (w : World)
      (o : Option ProposerAllocation)
      → get_allocation i w.db ≡ o
      → Advances m w.db (after (adjudicate_on_tx o eid gate detail m now w)).db
  unfolding adjudicate_on_tx
  adjudicate_on_tx-Advances i eid gate detail now w none found = Advances-same m w.db w.db refl
  adjudicate_on_tx-Advances i eid gate detail now w (some a) found = go (cannot_reopen m a) refl
    where
      go :
          (b : Bool)
          → cannot_reopen m a ≡ b
          → Advances m w.db
              (after ((if b then (λ v. done false v) else send_back a eid gate detail now) w)).db
      go true e = Advances-same m w.db w.db refl
      go false e = send_back-Advances a eid gate detail now w (self-found i w.db a found) e

  -- A second lookup, by the row's own id.
  pub reactivate-Advances : (i : String) (db : Db) → Advances m db (reactivate i db)
  unfolding reactivate is_reopened
  reactivate-Advances i db =
      Advances-update m db _ (is_reopened i) _ (λ x. refl)
        (λ j a h hit. resume (was_reopen a.state (ground (arith, hit))) refl) refl
    where
      was_reopen : (s : Option LeaseState) → is_reopen s ≡ true → s ≡ some reopen
      was_reopen s h = ground arith
