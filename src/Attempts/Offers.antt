-- ===== src/Attempts/Offers.antt =====
-- Which actions a pass of the reconciler returns.
use simple_evolution.Prelude.{
  String, Bool, true, false, not, ◌&&◌, ◌≡◌, refl, ◌∙◌, ap, Option, none, some, List, [], ◌∷◌, ◌++◌,
  arith, map, all, select, if◌then◌else◌, string_eq, is_none,
}
use simple_evolution.Db.Rows.{
  Attempt, AttemptKind, proposer, experiment, supervisor, integrator, ProposerAllocation,
  LeaseState, awaiting_adjudication, is_open,
}
use simple_evolution.Db.State.{Db, World}
use simple_evolution.Db.Exec.{Exec, done, and_then, ◌>>=◌, pure, collect, transaction}
use simple_evolution.Db.Update.{update_attempt_status, set_experiment_status}
use simple_evolution.Attempts.Marks.{
  mark_attempt, mark_attempt_failed, mark_proposer_infra_failed, mark_experiment_infra_failed,
  open_experiments, running_attempts,
}
use simple_evolution.Attempts.Reconcile.{
  Reconciler, ReconcileAction, Submitter, reconcile, reconcile_proposers, reconcile_experiments,
  reconcile_supervisor, reconcile_integrator, offer, wait_or_retry, retry, remove_job, raise_some,
  mark_infra_failed, mark_last, mark_failed, ingest_action, wait_action, probe, held_or_gone,
  result_path, open_leases, not_parked, last_running,
}

-- The statement returns the value, whatever the store, and leaves the view of it alone.
record Gives {A X : Type 0} (view : Db → X) (a : A) (body : Exec A) : Type 0 where
  at : (w : World) → (v : World) × (body w ≡ done a v) × (view v.db ≡ view w.db)

module _ {X : Type 0} (view : Db → X) where
  Gives-bind :
      {A B : Type 0} {body : Exec A} (k : A → Exec B) {a : A} {b : B}
      → Gives view a body
      → Gives view b (k a)
      → Gives view b (body >>= k)
  Gives-bind {A} {B} {body} k {a} {b} p q = record { at = λ w. go w (p.at w) }
    where
      go :
          (w : World)
          → ((u : World) × (body w ≡ done a u) × (view u.db ≡ view w.db))
          → (v : World) × ((body >>= k) w ≡ done b v) × (view v.db ≡ view w.db)
      go w (u, h, s) = let next = q.at u in (next.0, ap (λ o. and_then o k) h ∙ next.1, next.2 ∙ s)

  Gives-pure : {A : Type 0} (a : A) → Gives view a (pure a)
  Gives-pure a = record { at = λ w. (w, refl, refl) }

  Gives-collect :
      {A B : Type 0} (xs : List A) (f : A → B) (body : A → Exec B)
      → ((x : A) → Gives view (f x) (body x))
      → Gives view (map f xs) (collect xs body)
  Gives-collect [] f body h = Gives-pure []
  Gives-collect (x ∷ xs) f body h =
      Gives-bind _ (h x) (Gives-bind _ (Gives-collect xs f body h) (Gives-pure (f x ∷ map f xs)))

-- What a work is offered: its result if the file is there, else a wait.
abbrev pub answer : Reconciler → AttemptKind → String → ReconcileAction
answer r k i =
    if r.exists (result_path r k i)
    then ingest_action r k i
    else wait_action i k (probe r.submitter i k)

module _ {X : Type 0} (view : Db → X) (r : Reconciler) (k : AttemptKind)
    (marks : (i : String) (o : Option Attempt) → Gives view tt (mark_last k i o))
    (removes : (i : String) → Gives view tt (remove_job r.submitter i k)) where
  infra_failed-Gives : (i : String) → Gives view tt (mark_infra_failed i k)
  unfolding mark_infra_failed
  infra_failed-Gives i = record { at = λ w. (marks i (last_running i k w.db)).at w }

  retry_if-Gives :
      (i : String) (b : Bool) → Gives view tt (if b then retry r.submitter i k else pure tt)
  unfolding retry
  retry_if-Gives i true = Gives-bind view _ (removes i) (infra_failed-Gives i)
  retry_if-Gives i false = Gives-pure view tt

  offer-Gives : (i : String) → Gives view (answer r k i) (offer r k i)
  unfolding offer wait_or_retry
  offer-Gives i = go (r.exists (result_path r k i))
    where
      go :
          (b : Bool)
          → Gives view
              (if b then ingest_action r k i else wait_action i k (probe r.submitter i k))
              (if b then pure (ingest_action r k i) else wait_or_retry r.submitter i k)
      go true = Gives-pure view _
      go false =
          Gives-bind view _ (retry_if-Gives i (held_or_gone (probe r.submitter i k)))
            (Gives-pure view _)

-- A value for the tables that a mark may change.
abbrev nothing : Db → Unit {0}
nothing db = tt

marks-experiments :
    (i : String) (o : Option Attempt) → Gives (λ db. db.experiments) tt (mark_last proposer i o)
unfolding mark_last mark_failed mark_proposer_infra_failed mark_attempt update_attempt_status
    transaction
marks-experiments i none = Gives-pure _ tt
marks-experiments i (some a) = record { at = λ w. (_, refl, refl) }

marks-nothing :
    (k : AttemptKind) (i : String) (o : Option Attempt) → Gives nothing tt (mark_last k i o)
unfolding mark_last mark_failed mark_proposer_infra_failed mark_experiment_infra_failed
    mark_attempt_failed mark_attempt update_attempt_status set_experiment_status transaction
marks-nothing k i none = Gives-pure _ tt
marks-nothing proposer i (some a) = record { at = λ w. (_, refl, refl) }
marks-nothing experiment i (some a) = record { at = λ w. (_, refl, refl) }
marks-nothing supervisor i (some a) = record { at = λ w. (_, refl, refl) }
marks-nothing integrator i (some a) = record { at = λ w. (_, refl, refl) }

-- The removal of a job does not raise.
abbrev pub Removes : Reconciler → Type 0
Removes r =
    (s : Submitter)
    → r.submitter ≡ some s
    → (i : String) (k : AttemptKind) → s.remove_job i k ≡ none

pub remove_job-done :
    (r : Reconciler)
    → Removes r
    → (i : String) (k : AttemptKind) (w : World) → remove_job r.submitter i k w ≡ done tt w
unfolding remove_job raise_some
remove_job-done r h i k w = go r.submitter (λ s e. h s e i k)
  where
    go :
        (o : Option Submitter)
        → ((s : Submitter) → o ≡ some s → s.remove_job i k ≡ none)
        → remove_job o i k w ≡ done tt w
    go none g = refl
    go (some s) g = ground (arith, g s refl)

remove_job-Gives :
    {X : Type 0} (view : Db → X) (r : Reconciler) (k : AttemptKind)
    → Removes r
    → (i : String) → Gives view tt (remove_job r.submitter i k)
remove_job-Gives view r k h i = record { at = λ w. (w, remove_job-done r h i k w, refl) }

offers :
    {X : Type 0} (view : Db → X) (r : Reconciler) (k : AttemptKind)
    → ((i : String) (o : Option Attempt) → Gives view tt (mark_last k i o))
    → Removes r
    → (is : List String) → Gives view (map (answer r k) is) (collect is (offer r k))
offers view r k marks h is =
    Gives-collect view is (answer r k) (offer r k)
      (offer-Gives view r k marks (remove_job-Gives view r k h))

abbrev pub parked : Option LeaseState → Bool
parked (some awaiting_adjudication) = true
parked _ = false

-- The leases that are open, but for those that await adjudication.
abbrev pub lease_ids : Db → List String
lease_ids db =
    map (λ a. a.allocation_id)
      (select (λ a. is_none a.finished_at && not (parked a.state)) db.proposer_allocations)

abbrev pub experiment_ids : Db → List String
experiment_ids db = map (λ e. e.experiment_id) (select (λ e. is_open e.status) db.experiments)

abbrev pub attempt_works : AttemptKind → Db → List String
attempt_works k db = map (λ a. a.logical_work_id) (running_attempts k db)

-- The work of an agent that decides, not of research.
abbrev pub is_agent : ReconcileAction → Bool
is_agent a = is_agent_kind a.work_kind
  where
    is_agent_kind : AttemptKind → Bool
    is_agent_kind supervisor = true
    is_agent_kind integrator = true
    is_agent_kind _ = false

same_leases :
    (xs : List ProposerAllocation)
    → map (λ a. a.allocation_id) (select (λ a. is_none a.finished_at && not_parked a.state) xs)
      ≡ map (λ a. a.allocation_id) (select (λ a. is_none a.finished_at && not (parked a.state)) xs)
unfolding not_parked
same_leases [] = refl
same_leases (x ∷ xs) = ground (arith, same_leases xs)

agent_answers :
    (r : Reconciler) (is js : List String)
    → all is_agent (map (answer r supervisor) is ++ map (answer r integrator) js) ≡ true
unfolding ingest_action wait_action
agent_answers r [] [] = refl
agent_answers r [] (j ∷ js) = ground (arith, agent_answers r [] js)
agent_answers r (i ∷ is) js = ground (arith, agent_answers r is js)

-- When no removal of a job raises, a pass of the reconciler returns. Its actions are, in order,
-- one for each lease that is open and not parked, one for each open experiment, and then only
-- actions for agents. Each of the former is an ingest if the result file is there and a wait,
-- with the reason that the probe gives, if it is not.
pub reconcile-offers :
    (r : Reconciler)
    → Removes r
    → (w : World)
    → (v : World) × (rest : List ReconcileAction) × (reconcile r w
        ≡ done
            (map (answer r proposer) (lease_ids w.db)
              ++ (map (answer r experiment) (experiment_ids w.db) ++ rest))
            v)
      × (all is_agent rest ≡ true)
unfolding reconcile open_leases reconcile_proposers reconcile_experiments reconcile_supervisor
    reconcile_integrator open_experiments
reconcile-offers r h w =
    let (w1, p, same) =
      (offers (λ db. db.experiments) r proposer marks-experiments h (lease_ids w.db)).at w in
    let (w2, e, _) =
      (offers nothing r experiment (marks-nothing experiment) h (experiment_ids w1.db)).at w1 in
    let (w3, s, _) =
      (offers nothing r supervisor (marks-nothing supervisor) h (attempt_works supervisor w2.db)).at
        w2 in
    let (w4, i, _) =
      (offers nothing r integrator (marks-nothing integrator) h (attempt_works integrator w3.db)).at
        w3 in
    (
      w4,
      map (answer r supervisor) (attempt_works supervisor w2.db)
          ++ map (answer r integrator) (attempt_works integrator w3.db),
      ground (arith, p, same, e, s, i, same_leases w.proposer_allocations),
      agent_answers r (attempt_works supervisor w2.db) (attempt_works integrator w3.db),
    )
