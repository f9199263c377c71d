-- ===== src/Scheduler/ResubmitLaws.antt =====
-- A seat has one running attempt at most.
use simple_evolution.Prelude.{
  ℕ, ◌≤◌, String, Bool, true, false, ◌&&◌, ◌≡◌, refl, sym, ◌∙◌, Option, none, some, List, [], ◌∷◌,
  string_eq, any, any_cong, count, select, arith, if◌then◌else◌,
}
use simple_evolution.Db.Rows.{Attempt, is_running, proposer, ProposerAllocation}
use simple_evolution.Db.State.{World}
use simple_evolution.Db.Exec.{pure, after, transaction}
use simple_evolution.Db.Select.{get_allocation}
use simple_evolution.Lease.Adjudicate.{reactivate_lease, reactivate}
use simple_evolution.Lease.Writes.{get_allocation-id}
use simple_evolution.Attempts.Marks.{attempts_for_work, is_for}
use simple_evolution.Attempts.Starts.{Starts, Starts-quiet, start_rules}
use simple_evolution.Attempts.Frees.{runs, any-attempts}
use simple_evolution.Scheduler.Resubmit.{resubmit_proposer, relaunch, launch, wake, must_wait}

-- The running attempts of the seat.
abbrev pub running_seats : String → World → ℕ
running_seats i w = count (runs i proposer) w.attempts

Starts-wake : (i : String) (a : ProposerAllocation) → Starts (runs i proposer) 0 (wake a)
unfolding wake reactivate_lease reactivate transaction
Starts-wake i a = Starts-quiet (runs i proposer) _ λ w. ground arith

Starts-launch : (i : String) (a : ProposerAllocation) → Starts (runs i proposer) 1 (launch a)
unfolding launch
Starts-launch i a = search (start_rules, Starts-wake) depth 20

none_runs : (p : Attempt → Bool) (xs : List Attempt) → any p xs ≡ false → count p xs ≡ 0
none_runs p [] h = refl
none_runs p (x ∷ xs) h = ground (arith, none_runs p xs, h)

select-none :
    (p : Attempt → Bool) (xs : List Attempt) → any p xs ≡ false → any p (select p xs) ≡ false
select-none p [] h = refl
select-none p (x ∷ xs) h = ground (arith, select-none p xs, h)

no_runs :
    (i : String) (w : World)
    → any (λ t. is_running t.status) (attempts_for_work i proposer w.db) ≡ false
    → any (runs i proposer) w.attempts ≡ false
no_runs i w h =
    any_cong (runs i proposer)
      (λ a. is_for i proposer a && (is_running a.status && is_running a.status)) (λ a. ground arith)
      w.attempts
    ∙ sym (any-attempts i proposer (λ a. is_running a.status) w)
    ∙ select-none (λ a. is_running a.status) (attempts_for_work i proposer w.db) h

idle-none :
    (a : ProposerAllocation) (w : World)
    → must_wait a w.db ≡ false
    → running_seats a.allocation_id w ≡ 0
unfolding must_wait
idle-none a w h =
    let busy : any (λ t. is_running t.status) (attempts_for_work a.allocation_id proposer w.db)
        ≡ false =
      ground (arith, h) in
    none_runs (runs a.allocation_id proposer) w.attempts (no_runs a.allocation_id w busy)

-- A call of _resubmit_proposer, whether it returns or raises, keeps at most one attempt of the
-- seat running, if at most one was.
pub resubmit-running_seats :
    (i : String) (w : World)
    → running_seats i w ≤ 1
    → running_seats i (after (resubmit_proposer i w)) ≤ 1
unfolding resubmit_proposer relaunch
resubmit-running_seats i w h = go (get_allocation i w.db) refl
  where
    idle :
        (a : ProposerAllocation) (b : Bool)
        → a.allocation_id ≡ i
        → must_wait a w.db ≡ b
        → running_seats i (after ((if b then pure none else launch a) w)) ≤ 1
    idle a true same e = h
    idle a false same e = ground (arith, (Starts-launch i a).at w, same, idle-none a w e)

    go :
        (o : Option ProposerAllocation)
        → get_allocation i w.db ≡ o
        → running_seats i (after (relaunch o w)) ≤ 1
    go none f = h
    go (some a) f = idle a (must_wait a w.db) (get_allocation-id i w.db a f) refl
