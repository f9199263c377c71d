-- ===== src/Lease/History.antt =====
-- A lease over any sequence of the calls of the complete-research contract.
use simple_evolution.Prelude.{
  ℕ, suc, String, Bool, true, false, inl, inr, ◌≡◌, refl, subst, Option, none, some, ◌==◌,
  string_eq, is_some, if◌then◌else◌, arith, update, find, find-update, find-holds, eq_iff,
  Bool-cases,
}
use simple_evolution.Json.{Json, Dict, null}
use simple_evolution.Db.Rows.{ProposerAllocation, Conclusion, GateDecision}
use simple_evolution.Db.State.{Db, World}
use simple_evolution.Db.Update.{finished_row, finish_allocation, update_allocations}
use simple_evolution.Db.Insert.{insert_supervisor_event}
use simple_evolution.Db.Exec.{
  Exec, after, transaction, ◌>>=◌, pure, invalid_conclusion_kind, or_raise, time,
  unknown_allocation,
}
use simple_evolution.Db.Select.{get_allocation}
use simple_evolution.Lease.Allocate.{LeaseSpec, allocate_on_tx, allocate_proposer}
use simple_evolution.Lease.Conclude.{
  conclude_on_tx, conclude_lease, deallocate_proposer, deallocate_on_tx, close_classic,
}
use simple_evolution.Lease.Deliver.{
  kind_of, IngestKind, LeaseConclusionIngest, late, ingest_open, ingest_on_tx,
  ingest_lease_conclusion,
}
use simple_evolution.Lease.Adjudicate.{
  record_lease_adjudication, reactivate_lease, graduate_delivered_evidence, latest_evidence,
}
use simple_evolution.Lease.Machine.{LeaseStep, same, Advances, Advances-same}
use simple_evolution.Lease.Writes.{
  transaction-Advances, conclude_on_tx-Advances, adjudicate_on_tx-Advances, reactivate-Advances,
}
use simple_evolution.Lease.Keeping.{allocate_on_tx-KeepsRows, graduate_on_tx-Frames}
use simple_evolution.Lease.Calls.{ingest_open-Goes}

-- The calls on leases. A close without an outcome is the classic one, which tests nothing.
pub data LeaseCall : Type 0 where
  allocates : LeaseSpec → Option ℕ → LeaseCall
  deallocates : String → ℕ → Option Conclusion → LeaseCall
  concludes : String → Conclusion → Json → Json → LeaseCall
  ingests : String → Dict → Option String → Bool → ℕ → LeaseCall
  adjudicates : String → String → GateDecision → Option String → LeaseCall
  reactivates : String → LeaseCall
  graduates : String → String → LeaseCall

-- The world after a call, whether it returns or raises.
pub call : ℕ → LeaseCall → World → World
call m (allocates spec cap) w = after (allocate_proposer spec cap w)
call m (deallocates i n outcome) w = after (deallocate_proposer i n outcome w)
call m (concludes i outcome reason sha) w = after (conclude_lease i outcome reason sha w)
call m (ingests i c attempt b limit) w = after (ingest_lease_conclusion i c attempt b limit w)
call m (adjudicates i e gate detail) w = after (record_lease_adjudication i e gate detail m w)
call m (reactivates i) w = after (reactivate_lease i w)
call m (graduates e sha) w = after (graduate_delivered_evidence e sha w)

-- A classic close of the lease.
abbrev pub closes : String → LeaseCall → Bool
closes i (deallocates j n none) = j == i
closes i _ = false

-- What a call makes of the row of the lease `i`: a step of the machine, or a classic close.
pub data CallStep (m : ℕ) (c : LeaseCall) (i : String) (a b : ProposerAllocation) : Type 0 where
  by_step : LeaseStep m a b → CallStep m c i a b
  expire : (n now : ℕ) → closes i c ≡ true → b ≡ finished_row n now none a → CallStep m c i a b

-- Every lease is still there, and its row is what the call makes of it.
abbrev pub CallAdvances : ℕ → LeaseCall → Db → Db → Type 0
CallAdvances m c db db' =
    (i : String) (a : ProposerAllocation)
    → get_allocation i db ≡ some a
    → (b : ProposerAllocation) × (get_allocation i db' ≡ some b) × CallStep m c i a b

-- A lease that is not there has no row to advance.
found_or_none :
    (m : ℕ) (i : String) {A : Type 0} (k : Option ProposerAllocation → Exec A) (w : World)
    → ((a : ProposerAllocation)
        → get_allocation i w.db ≡ some a
        → Advances m w.db (after (k (some a) w)).db)
    → Advances m w.db (after (k none w)).db
    → (o : Option ProposerAllocation) → get_allocation i w.db ≡ o
    → Advances m w.db (after (k o w)).db
found_or_none m i k w here absent none e = absent
found_or_none m i k w here absent (some a) e = here a e

conclude-Advances :
    (m : ℕ) (i : String) (outcome : Conclusion) (now : ℕ) (reason sha : Json) (w : World)
    → Advances m w.db (after (conclude_on_tx (get_allocation i w.db) outcome now reason sha w)).db
conclude-Advances m i outcome now reason sha w =
    found_or_none m i (λ o. conclude_on_tx o outcome now reason sha) w
      (λ a e. conclude_on_tx-Advances m i a outcome now reason sha w e)
      (unfold conclude_on_tx in Advances-same m w.db w.db refl) (get_allocation i w.db) refl

ingest-Advances :
    (m : ℕ) (k : IngestKind) (i : String) (c : Dict) (attempt : Option String) (b : Bool)
    (limit now : ℕ) (w : World)
    → Advances m w.db (after (ingest_on_tx k i c attempt b limit now w)).db
unfolding ingest_on_tx
ingest-Advances m k i c attempt b limit now w =
    found_or_none m i ingest w here (Advances-same m w.db w.db refl) (get_allocation i w.db) refl
  where
    closed_or_open : (a : ProposerAllocation) → Option ℕ → Exec LeaseConclusionIngest
    closed_or_open a f = if is_some f then pure late else ingest_open k c a attempt b limit now

    ingest : Option ProposerAllocation → Exec LeaseConclusionIngest
    ingest o = do a ← or_raise o (unknown_allocation i); closed_or_open a a.finished_at

    split :
        (a : ProposerAllocation) (f : Option ℕ)
        → get_allocation i w.db ≡ some a
        → a.finished_at ≡ f
        → Advances m w.db (after (closed_or_open a f w)).db
    split a none e is_open = (ingest_open-Goes m i k c a attempt b limit now is_open).at w e
    split a (some t) e closed = Advances-same m w.db w.db refl

    here :
        (a : ProposerAllocation)
        → get_allocation i w.db ≡ some a
        → Advances m w.db (after (ingest (some a) w)).db
    here a e = split a a.finished_at e refl

leases-close :
    (i : String) (n now : ℕ) (w : World)
    → (after (transaction (deallocate_on_tx i n none now) w)).proposer_allocations
      ≡ update (λ x. x.allocation_id == i) (finished_row n now none) w.proposer_allocations
unfolding deallocate_on_tx close_classic finish_allocation update_allocations transaction
    insert_supervisor_event
leases-close i n now w = ground arith

-- A classic close makes of its lease a finished row, whatever it was, and leaves the others.
close-CallAdvances :
    (m n now : ℕ) (j : String) (w w' : World)
    → w'.proposer_allocations
      ≡ update (λ x. x.allocation_id == j) (finished_row n now none) w.proposer_allocations
    → CallAdvances m (deallocates j n none) w.db w'.db
unfolding get_allocation finished_row
close-CallAdvances m n now j w w' e i a h = elim (Bool-cases (a.allocation_id == j)) [
  | inl hit ↦
      let mine : (j == i) ≡ true =
        subst (λ k. (k == i) ≡ true) ((eq_iff a.allocation_id j).0 hit)
          (find-holds (λ x. x.allocation_id == i) w.proposer_allocations a h) in
      (finished_row n now none a, ground (arith, row, e, hit), expire n now mine refl)
  | inr miss ↦ (a, ground (arith, row, e, miss), by_step (same refl))
]
  where
    row :
        find
          (λ y. y.allocation_id == i)
          (update (λ x. x.allocation_id == j) (finished_row n now none) w.proposer_allocations)
        ≡ some (if a.allocation_id == j then finished_row n now none a else a)
    row =
        find-update (λ y. y.allocation_id == i) (λ x. x.allocation_id == j)
          (finished_row n now none) (λ y. refl) w.proposer_allocations a h

stepped : (m : ℕ) (c : LeaseCall) (db db' : Db) → Advances m db db' → CallAdvances m c db db'
stepped m c db db' h i a found = let (b, there, step) = h i a found in (b, there, by_step step)

-- Each call, whether it returns or raises, leaves every lease in place and makes of its row at
-- most one step of LeaseStep: an arrow of the documented lease machine, or what the code leaves
-- open beside it, which is a delivery of an unfinished lease in reopen or in a concluded state, a
-- conclusion of an unfinished lease in any state, and a relaunch of a finished one in reopen.
-- Only a close without an outcome does otherwise: it finishes the row of its lease without a
-- change of its state, whatever the row was.
pub call-Advances : (m : ℕ) (c : LeaseCall) (w : World) → CallAdvances m c w.db (call m c w).db
unfolding call allocate_proposer deallocate_proposer deallocate_on_tx conclude_lease
    ingest_lease_conclusion record_lease_adjudication reactivate_lease graduate_delivered_evidence
call-Advances m (allocates spec limit) w = stepped m _ w.db _ (
    transaction-Advances m (allocate_on_tx spec limit none) w
      λ i a h. (a, (allocate_on_tx-KeepsRows spec limit none).at w i a h, same refl))
call-Advances m (deallocates i n none) w =
    close-CallAdvances m n (w.clock w.readings) i w (after (deallocate_proposer i n none w))
      (leases-close i n (w.clock w.readings) (record w { readings = suc w.readings }))
call-Advances m (deallocates i n (some outcome)) w = stepped m _ w.db _ (
    transaction-Advances m _ (record w { readings = suc w.readings })
      (conclude-Advances m i outcome _ null null _))
call-Advances m (concludes i outcome reason sha) w =
    stepped m _ w.db _ (transaction-Advances m _ w (conclude-Advances m i outcome _ reason sha _))
call-Advances m (ingests i c attempt b limit) w = stepped m _ w.db _ (started (kind_of c))
  where
    started :
        (o : Option IngestKind)
        → Advances m w.db
            (after (
              (or_raise o invalid_conclusion_kind >>= λ k.
              time >>= λ now. transaction (ingest_on_tx k i c attempt b limit now))
                w)).db
    started none = Advances-same m w.db w.db refl
    started (some k) = transaction-Advances m _ _ (ingest-Advances m k i c attempt b limit _ _)
call-Advances m (adjudicates i e gate detail) w = stepped m _ w.db _ (
    transaction-Advances m _ (record w { readings = suc w.readings })
      (adjudicate_on_tx-Advances m i e gate detail _ _ _ refl))
call-Advances m (reactivates i) w =
    stepped m _ w.db _ (transaction-Advances m _ w (reactivate-Advances m i w.db))
call-Advances m (graduates e sha) w = stepped m _ w.db _ (
    transaction-Advances m _ w
      (Advances-same m w.db _ ((graduate_on_tx-Frames e sha (latest_evidence e w.db)).at w)))
