-- ===== src/Attempts/ReconcileLaws.antt =====
-- What a pass of the reconciler offers, and what it leaves alone.
use simple_evolution.Prelude.{
  String, Bool, true, false, ◌≡◌, refl, ◌∙◌, ap, not, ◌||◌, all, member, is_unique, eq_iff, select,
  Option, none, some, List, [], ◌∷◌, arith, map, update, ◌==◌, string_eq,
}
use simple_evolution.Db.Rows.{
  Attempt, AttemptKind, proposer, experiment, supervisor, integrator, AttemptStatus, Experiment,
  ExperimentStatus, is_open,
}
use simple_evolution.Db.State.{Db, World}
use simple_evolution.Db.Exec.{Error, modify, collect, after}
use simple_evolution.Db.Update.{update_attempt_status, set_experiment_status, update_experiments}
use simple_evolution.Attempts.Marks.{
  open_experiments, mark_attempt, mark_attempt_failed, mark_proposer_infra_failed,
  mark_experiment_infra_failed,
}
use simple_evolution.Attempts.Reconcile.{
  Reconciler, Submitter, reconcile, reconcile_proposers, reconcile_experiments,
  reconcile_supervisor, reconcile_integrator, offer, wait_or_retry, retry, remove_job, raise_some,
  mark_infra_failed, mark_last, mark_failed,
}
use simple_evolution.Attempts.Conserves.{
  findings, result_of, Conserves, Conserves-bind, Conserves-weaken, Conserves-pure, Conserves-raise,
  Conserves-gets, Conserves-if, Conserves-transaction,
}

-- No row of the id has a result.
abbrev open_row : String → Experiment → Bool
open_row i e = not (e.experiment_id == i) || is_open e.status

abbrev is_unfinished : String → Db → Bool
is_unfinished i db = all (open_row i) db.experiments

-- Only an experiment may have a status to lose.
abbrev may_offer : AttemptKind → String → Db → Bool
may_offer experiment i db = is_unfinished i db
may_offer _ i db = true

Conserves-mark_attempt :
    {ok : Db → Bool} (s : AttemptStatus) (i : String) → Conserves ok (mark_attempt s i)
unfolding mark_attempt update_attempt_status
Conserves-mark_attempt s i = record { at = λ w h. refl }

same_findings :
    (i : String) (xs : List Experiment)
    → all (open_row i) (map result_of xs) ≡ true
    → map result_of (
        update (λ e. e.experiment_id == i) (λ e. record e { status = ExperimentStatus.pending }) xs)
      ≡ map result_of xs
same_findings i [] h = refl
same_findings i (x ∷ xs) h = ground (arith, h, same_findings i xs (ground (arith, h)))

Conserves-pending :
    (i : String)
    → Conserves (is_unfinished i) (modify (set_experiment_status i ExperimentStatus.pending))
unfolding set_experiment_status update_experiments
Conserves-pending i = record {
  at = λ w h.
      ap (λ xs. record w.db { attempts = []; experiments = xs }) (same_findings i w.experiments h);
}

ruleset conserve_rules = (
  Conserves-pure, Conserves-raise, Conserves-gets, Conserves-if, Conserves-transaction,
  Conserves-mark_attempt, Conserves-pending, Conserves-bind,
)

Conserves-mark_last :
    (k : AttemptKind) (i : String) (o : Option Attempt)
    → Conserves (may_offer k i) (mark_last k i o)
unfolding mark_last mark_failed mark_proposer_infra_failed mark_experiment_infra_failed
    mark_attempt_failed
Conserves-mark_last k i none = search conserve_rules
Conserves-mark_last proposer i (some a) = search conserve_rules
Conserves-mark_last experiment i (some a) = search conserve_rules
Conserves-mark_last supervisor i (some a) = search conserve_rules
Conserves-mark_last integrator i (some a) = search conserve_rules

Conserves-remove_job :
    {ok : Db → Bool} (s : Option Submitter) (i : String) (k : AttemptKind)
    → Conserves ok (remove_job s i k)
unfolding remove_job raise_some
Conserves-remove_job none i k = search conserve_rules
Conserves-remove_job {ok} (some s) i k = go (s.remove_job i k)
  where
    go : (o : Option Error) → Conserves ok (raise_some o)
    go none = search conserve_rules
    go (some e) = search conserve_rules

Conserves-wait_or_retry :
    (s : Option Submitter) (i : String) (k : AttemptKind)
    → Conserves (may_offer k i) (wait_or_retry s i k)
unfolding wait_or_retry retry mark_infra_failed
Conserves-wait_or_retry s i k =
    search (conserve_rules, Conserves-mark_last, Conserves-remove_job) depth 20

Conserves-offer :
    (r : Reconciler) (k : AttemptKind) (i : String) → Conserves (may_offer k i) (offer r k i)
unfolding offer
Conserves-offer r k i = search (conserve_rules, Conserves-wait_or_retry) depth 20

abbrev may_offer_all : AttemptKind → List String → Db → Bool
may_offer_all k ids db = all (λ i. may_offer k i db) ids

Conserves-offers :
    (r : Reconciler) (k : AttemptKind) (ids : List String)
    → Conserves (may_offer_all k ids) (collect ids (offer r k))
Conserves-offers r k [] = Conserves-pure []
Conserves-offers r k (i ∷ ids) =
    Conserves-bind
      (Conserves-weaken _ (may_offer k i) _ (λ db h. ground (arith, h)) (Conserves-offer r k i))
      λ b.
        Conserves-bind
          (Conserves-weaken _ (may_offer_all k ids) _ (λ db h. ground (arith, h))
            (Conserves-offers r k ids))
          λ bs. Conserves-pure (b ∷ bs)

free-offer_all :
    (k : AttemptKind) (db : Db)
    → ((i : String) → may_offer k i db ≡ true)
    → (ids : List String) → may_offer_all k ids db ≡ true
free-offer_all k db free [] = refl
free-offer_all k db free (i ∷ ids) = ground (arith, free i, free-offer_all k db free ids)

Conserves-agents :
    (ok : Db → Bool) (r : Reconciler) (k : AttemptKind) (ids : List String)
    → ((db : Db) (i : String) → may_offer k i db ≡ true)
    → Conserves ok (collect ids (offer r k))
Conserves-agents ok r k ids free =
    Conserves-weaken ok (may_offer_all k ids) _ (λ db h. free-offer_all k db (free db) ids)
      (Conserves-offers r k ids)

ids_of : List Experiment → List String
ids_of xs = map (λ e. e.experiment_id) xs

absent-open :
    (i : String) (xs : List Experiment) → member i (ids_of xs) ≡ false → all (open_row i) xs ≡ true
unfolding ids_of
absent-open i [] h = refl
absent-open i (x ∷ xs) h = ground (arith, h, absent-open i xs (ground (arith, h)))

open_rows-cons :
    (x : Experiment) (xs : List Experiment) (ids : List String)
    → (is_open x.status || not (member x.experiment_id ids)) ≡ true
    → all (λ i. all (open_row i) xs) ids ≡ true
    → all (λ i. all (open_row i) (x ∷ xs)) ids ≡ true
open_rows-cons x xs [] h rows = refl
open_rows-cons x xs (i ∷ ids) h rows = ground (
  arith,
  h,
  rows,
  eq_iff x.experiment_id i,
  eq_iff i x.experiment_id,
  open_rows-cons x xs ids (ground (arith, h)) (ground (arith, rows)),
)

absent-select :
    (i : String) (xs : List Experiment)
    → member i (ids_of (map result_of xs)) ≡ false
    → member i (ids_of (select (λ e. is_open e.status) xs)) ≡ false
unfolding ids_of
absent-select i [] h = refl
absent-select i (x ∷ xs) h = ground (arith, h, absent-select i xs (ground (arith, h)))

-- Where ids are unique, those of the open experiments belong to no row with a result.
open-unfinished :
    (xs : List Experiment)
    → is_unique (ids_of (map result_of xs)) ≡ true
    → all (λ i. all (open_row i) (map result_of xs)) (ids_of (select (λ e. is_open e.status) xs))
      ≡ true
unfolding ids_of
open-unfinished [] h = refl
open-unfinished (x ∷ xs) h = ground (
  arith,
  h,
  absent-open x.experiment_id (map result_of xs) (ground (arith, h)),
  absent-select x.experiment_id xs (ground (arith, h)),
  open_rows-cons (result_of x) (map result_of xs) (ids_of (select (λ e. is_open e.status) xs)),
  open-unfinished xs (ground (arith, h)),
)

has_unique_ids : Db → Bool
has_unique_ids db = is_unique (ids_of db.experiments)

Conserves-proposers : (r : Reconciler) → Conserves has_unique_ids (reconcile_proposers r)
unfolding reconcile_proposers
Conserves-proposers r =
    Conserves-bind (Conserves-gets _)
      λ ids. Conserves-agents has_unique_ids r proposer ids λ db i. refl

Conserves-experiments : (r : Reconciler) → Conserves has_unique_ids (reconcile_experiments r)
unfolding reconcile_experiments open_experiments has_unique_ids ids_of
Conserves-experiments r = record {
  at = λ w h.
      (Conserves-offers r experiment (ids_of (open_experiments w.db))).at w
        (open-unfinished w.experiments h);
}

Conserves-supervisor : (r : Reconciler) → Conserves has_unique_ids (reconcile_supervisor r)
unfolding reconcile_supervisor
Conserves-supervisor r =
    Conserves-bind (Conserves-gets _)
      λ ids. Conserves-agents has_unique_ids r supervisor ids λ db i. refl

Conserves-integrator : (r : Reconciler) → Conserves has_unique_ids (reconcile_integrator r)
unfolding reconcile_integrator
Conserves-integrator r =
    Conserves-bind (Conserves-gets _)
      λ ids. Conserves-agents has_unique_ids r integrator ids λ db i. refl

Conserves-reconcile : (r : Reconciler) → Conserves has_unique_ids (reconcile r)
unfolding reconcile
Conserves-reconcile r =
    search
      (
        conserve_rules, Conserves-proposers, Conserves-experiments, Conserves-supervisor,
        Conserves-integrator,
      )
      depth 30

ids_of-result_of : (xs : List Experiment) → ids_of (map result_of xs) ≡ ids_of xs
unfolding ids_of
ids_of-result_of [] = refl
ids_of-result_of (x ∷ xs) = ground (arith, ids_of-result_of xs)

-- Where no two experiments have one id, a pass of the reconciler, whether it returns or raises,
-- invents no result and loses none: the experiments that have a result keep their rows, an open
-- one stays open, and apart from that and from the attempts the database stays as it was.
pub reconcile-findings :
    (r : Reconciler) (w : World)
    → is_unique (map (λ e. e.experiment_id) w.experiments) ≡ true
    → findings (after (reconcile r w)).db ≡ findings w.db
unfolding has_unique_ids ids_of
reconcile-findings r w h =
    (Conserves-reconcile r).at w (ap is_unique (ids_of-result_of w.experiments) ∙ h)
