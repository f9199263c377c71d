-- ===== src/Lease/Frame.antt =====
-- What the statements of a transaction do to the table of leases.
use simple_evolution.Prelude.{
  ℕ, String, ◌≡◌, refl, subst, ◌∙◌, Bool, true, false, ◌⊎◌, inl, Option, none, some, List, [], ◌∷◌,
  ◌++◌, arith, update, ◌==◌, string_eq,
}
use simple_evolution.Json.{Json, null}
use simple_evolution.Db.Rows.{
  ProposerAllocation, Proposal, ExperimentStatus, AttemptKind, AttemptStatus, Conclusion,
  ResourceKind,
}
use simple_evolution.Db.State.{Db, World}
use simple_evolution.Db.Exec.{
  Error, Exec, Outcome, and_then, ◌>>=◌, pure, raise, raise_if, or_raise, gets, time, new_id, done,
  raised, after,
}
use simple_evolution.Db.Insert.{
  create_proposal, create_experiment, create_attempt, create_allocation, insert_scheduler_event,
  open_resource,
}
use simple_evolution.Db.Update.{finished_row}
use simple_evolution.Lease.Conclude.{
  conclude_open, close_rows, close_seat, produced_by, record_reason,
}

abbrev pub leases : {A : Type 0} → Outcome A → List ProposerAllocation
leases o = (after o).proposer_allocations

pub leases-create_proposal :
    (p : Proposal) (w : World) → leases (create_proposal p w) ≡ w.proposer_allocations
unfolding create_proposal
leases-create_proposal p w = ground arith

pub leases-create_experiment :
    (i p n : String) (s : ExperimentStatus) (w : World)
    → leases (create_experiment i p n s w) ≡ w.proposer_allocations
unfolding create_experiment
leases-create_experiment i p n s w = ground arith

pub leases-create_attempt :
    (i : String) (k : AttemptKind) (s : AttemptStatus) (t : Option ℕ) (w : World)
    → leases (create_attempt i k s t w) ≡ w.proposer_allocations
unfolding create_attempt
leases-create_attempt i k s t w = ground arith

pub leases-insert_scheduler_event :
    (t : String) (p : Json) (now : ℕ) (w : World)
    → leases (insert_scheduler_event t p now w) ≡ w.proposer_allocations
unfolding insert_scheduler_event
leases-insert_scheduler_event t p now w = ground arith

pub leases-open_resource :
    (k : ResourceKind) (r : String) (a e : Option String) (now : ℕ) (w : World)
    → leases (open_resource k r a e now w) ≡ w.proposer_allocations
unfolding open_resource
leases-open_resource k r a e now w = ground arith

pub leases-create_allocation :
    (a : ProposerAllocation) (w : World)
    → (leases (create_allocation a w) ≡ w.proposer_allocations)
      ⊎ (leases (create_allocation a w) ≡ w.proposer_allocations ++ (a ∷ []))
unfolding create_allocation
leases-create_allocation a w = ground arith

pub leases-record_reason :
    (a : ProposerAllocation) (outcome : Conclusion) (now : ℕ) (reason : Json) (w : World)
    → leases (record_reason a outcome now reason w) ≡ w.proposer_allocations
unfolding record_reason
leases-record_reason a outcome now null w = refl
leases-record_reason a outcome now _ w = leases-insert_scheduler_event _ _ now w

-- The row of the lease is finished, also when the audit event that follows cannot be written.
pub leases-conclude_open :
    (a : ProposerAllocation) (outcome : Conclusion) (now : ℕ) (reason sha : Json) (w : World)
    → leases (conclude_open a outcome now reason sha w)
      ≡ update
          (λ x. x.allocation_id == a.allocation_id)
          (finished_row (produced_by a outcome w.db) now (some outcome))
          w.proposer_allocations
unfolding conclude_open close_seat
leases-conclude_open a outcome now reason sha w =
    let w' : World = record w { db = close_rows a outcome now reason sha w.db } in
    ground (arith, leases-record_reason a outcome now reason w')

-- A statement that leaves the leases alone.
pub record Frames {A : Type 0} (m : Exec A) : Type 0 where
  pub at : (w : World) → leases (m w) ≡ w.proposer_allocations

-- A statement that leaves the leases alone, or updates the lease `i` by `f` at most.
pub record Touches (i : String) (f : ProposerAllocation → ProposerAllocation) {A : Type 0}
    (m : Exec A) : Type 0 where
  pub at :
      (w : World)
      → (leases (m w) ≡ w.proposer_allocations)
        ⊎ (leases (m w) ≡ update (λ x. x.allocation_id == i) f w.proposer_allocations)

module _ {i : String} {f : ProposerAllocation → ProposerAllocation} {A B : Type 0} where
  bound :
      (ls : List ProposerAllocation) (o : Outcome A) (k : A → Exec B)
      → leases o ≡ ls
      → ((a : A) → Touches i f (k a))
      → (leases (and_then o k) ≡ ls)
        ⊎ (leases (and_then o k) ≡ update (λ x. x.allocation_id == i) f ls)
  bound ls (done a w) k e touches =
      subst (λ t. (leases (k a w) ≡ t) ⊎ (leases (k a w) ≡ update (λ x. x.allocation_id == i) f t))
        e ((touches a).at w)
  bound ls (raised x w) k e touches = inl e

  pub Touches-bind :
      {m : Exec A} {k : A → Exec B}
      → Frames m
      → ((a : A) → Touches i f (k a))
      → Touches i f (m >>= k)
  Touches-bind {m} {k} frames touches = record {
    at = λ w. bound w.proposer_allocations (m w) k (frames.at w) touches;
  }

module _ {A : Type 0} where
  pub Frames-pure : (a : A) → Frames (pure a)
  Frames-pure a = record { at = λ w. refl }

  pub Frames-raise : (e : Error) → Frames (raise {A = A} e)
  Frames-raise e = record { at = λ w. refl }

  pub Frames-gets : (f : Db → A) → Frames (gets f)
  Frames-gets f = record { at = λ w. refl }

  pub Frames-or_raise : (o : Option A) (e : Error) → Frames (or_raise o e)
  Frames-or_raise none e = record { at = λ w. refl }
  Frames-or_raise (some a) e = record { at = λ w. refl }

pub Frames-raise_if : (b : Bool) (e : Error) → Frames (raise_if b e)
Frames-raise_if true e = record { at = λ w. refl }
Frames-raise_if false e = record { at = λ w. refl }

pub Frames-time : Frames time
Frames-time = record { at = λ w. refl }

pub Frames-new_id : Frames new_id
Frames-new_id = record { at = λ w. refl }

module _ {A B : Type 0} where
  framed :
      (ls : List ProposerAllocation) (o : Outcome A) (k : A → Exec B)
      → leases o ≡ ls
      → ((a : A) → Frames (k a))
      → leases (and_then o k) ≡ ls
  framed ls (done a w) k e frames = (frames a).at w ∙ e
  framed ls (raised x w) k e frames = e

  pub Frames-bind :
      {m : Exec A} {k : A → Exec B} → Frames m → ((a : A) → Frames (k a)) → Frames (m >>= k)
  Frames-bind {m} {k} fm fk = record {
    at = λ w. framed w.proposer_allocations (m w) k (fm.at w) fk;
  }

pub ruleset frame_rules = (
  Frames-pure, Frames-raise, Frames-gets, Frames-or_raise, Frames-raise_if, Frames-time,
  Frames-new_id, Frames-bind,
)
