-- ===== src/Attempts/Frees.antt =====
-- A dead job leaves the running attempts, so that its work is submitted again.
use simple_evolution.Prelude.{
  any_cong, any-last?, any-order_by, any-select, ℕ, String, Bool, true, false, ◌&&◌, ◌≡◌, ◌<◌, refl,
  some, ◌∙◌, sym, update, arith, eq_refl, any, select, count, ◌==◌, string_eq, ltb,
}
use simple_evolution.Db.Rows.{
  Attempt, AttemptKind, proposer, experiment, supervisor, integrator, is_running, failed,
}
use simple_evolution.Db.State.{World}
use simple_evolution.Db.Exec.{done, transaction}
use simple_evolution.Db.Update.{update_attempt_status, set_experiment_status, update_experiments}
use simple_evolution.Attempts.Marks.{
  mark_attempt, mark_attempt_failed, mark_proposer_infra_failed, mark_experiment_infra_failed,
  is_for, attempts_for_work,
}
use simple_evolution.Attempts.Reconcile.{
  Reconciler, offer, wait_or_retry, retry, mark_infra_failed, mark_last, mark_failed, wait_action,
  probe, held_or_gone, result_path, last_running,
}
use simple_evolution.Attempts.MarksLaws.{count-update-any, last?-any}
use simple_evolution.Attempts.Offers.{Removes, remove_job-done}

-- A running attempt of the work.
abbrev pub runs : String → AttemptKind → Attempt → Bool
runs i k a = is_for i k a && is_running a.status

module _ (i : String) (k : AttemptKind) where
  pub any-attempts :
      (p : Attempt → Bool) (w : World)
      → any p (select (λ a. is_running a.status) (attempts_for_work i k w.db))
        ≡ any (λ a. is_for i k a && (is_running a.status && p a)) w.attempts
  unfolding attempts_for_work
  any-attempts p w =
      any-select p (λ a. is_running a.status) (attempts_for_work i k w.db)
      ∙ any-order_by (λ a. is_running a.status && p a) (λ a b. ltb a.created_at b.created_at)
          (select (is_for i k) w.attempts)
      ∙ any-select (λ a. is_running a.status && p a) (is_for i k) w.attempts

  there_is_last :
      (w : World)
      → any (runs i k) w.attempts ≡ true
      → (a : Attempt) × (last_running i k w.db ≡ some a)
  unfolding last_running
  there_is_last w h =
      last?-any (λ a. true) (select (λ a. is_running a.status) (attempts_for_work i k w.db))
        (any-attempts (λ a. true) w ∙ any_cong _ (runs i k) (λ a. ground arith) w.attempts ∙ h)

  last_runs :
      (w : World) (a : Attempt)
      → last_running i k w.db ≡ some a
      → any (λ b. runs i k b && b.attempt_id == a.attempt_id) w.attempts ≡ true
  unfolding last_running
  last_runs w a h =
      any_cong _ _ (λ b. ground arith) w.attempts
      ∙ sym (any-attempts (λ b. b.attempt_id == a.attempt_id) w)
      ∙ any-last? (λ b. b.attempt_id == a.attempt_id)
          (select (λ a. is_running a.status) (attempts_for_work i k w.db)) a h
          (ground (arith, eq_refl a.attempt_id))

  -- Fewer attempts of the work run.
  Fewer : World → World → Type 0
  Fewer w v = count (runs i k) v.attempts < count (runs i k) w.attempts

  mark-Fewer :
      (w : World) (a : Attempt) (status_kind : AttemptKind)
      → last_running i k w.db ≡ some a
      → (v : World) × (mark_failed status_kind i a.attempt_id w ≡ done tt v) × Fewer w v
  unfolding mark_failed mark_proposer_infra_failed mark_experiment_infra_failed mark_attempt_failed
      mark_attempt update_attempt_status set_experiment_status update_experiments transaction Fewer
      is_for
  mark-Fewer w a j h = go j
    where
      fewer :
          (now : ℕ)
          → count (runs i k) (
              update
                (λ b. b.attempt_id == a.attempt_id)
                (λ b. record b { status = failed; finished_at = some now })
                w.attempts)
            < count (runs i k) w.attempts
      fewer now =
          count-update-any (runs i k) (λ b. b.attempt_id == a.attempt_id)
            (λ b. record b { status = failed; finished_at = some now }) (λ b. ground arith)
            w.attempts (last_runs w a h)

      go :
          (j : AttemptKind) → (v : World) × (mark_failed j i a.attempt_id w ≡ done tt v) × Fewer w v
      go proposer = (_, refl, fewer (w.clock w.readings))
      go experiment = (_, refl, fewer (w.clock w.readings))
      go supervisor = (_, refl, fewer (w.clock w.readings))
      go integrator = (_, refl, fewer (w.clock w.readings))

-- When no removal of a job raises, a work without a result file, whose job is held or gone and of
-- which an attempt runs, is offered again with fewer running attempts than before.
pub offer-frees :
    (r : Reconciler)
    → Removes r
    → (i : String) (k : AttemptKind) (w : World) → r.exists (result_path r k i) ≡ false
    → held_or_gone (probe r.submitter i k) ≡ true
    → any (runs i k) w.attempts ≡ true
    → (v : World) × (offer r k i w ≡ done (wait_action i k (probe r.submitter i k)) v)
      × (count (runs i k) v.attempts < count (runs i k) w.attempts)
unfolding offer wait_or_retry retry mark_infra_failed mark_last Fewer
offer-frees r h i k w absent dead there =
    let (a, f) = there_is_last i k w there in
    let (v, m, fewer) = mark-Fewer i k w a k f in
    (v, ground (arith, remove_job-done r h i k w, m, f, absent, dead), fewer)
