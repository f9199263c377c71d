-- ===== src/Experiments/Once.antt =====
-- An experiment is ingested once.
use simple_evolution.Prelude.{
  ℕ, String, Bool, true, false, ◌≡◌, refl, Option, none, some, List, [], ◌∷◌, ◌++◌, arith,
  find-update, find-holds, ◌==◌, string_eq, if◌then◌else◌,
}
use simple_evolution.Db.Rows.{Node, Experiment, ExperimentStatus, is_open, Proposal, FrontierAxis}
use simple_evolution.Db.State.{Db, World}
use simple_evolution.Db.Exec.{
  Error, Exec, Outcome, done, raised, and_then, ◌>>=◌, ◌>>◌, pure, raise, or_raise, gets, time,
  new_id, modify, collect, after, transaction, already_terminal,
}
use simple_evolution.Db.Laws.{transaction-done}
use simple_evolution.Db.Select.{get_experiment}
use simple_evolution.Db.Insert.{create_node, create_episode, seed_epoch, ignore_epoch}
use simple_evolution.Db.Update.{update_experiments, update_experiment_result, link_experiment_child}
use simple_evolution.Frontier.Policy.{FrontierConfig}
use simple_evolution.Experiments.Ingest.{
  ExperimentResult, ingest_experiment_result, ingest_result_on_tx, record_result, child_if_passed,
  create_child, inherit_episode, refresh_frontier, axis_rows, axis_row,
}
use simple_evolution.Experiments.IngestLaws.{Ingested, ingest_on_tx-done}

-- The experiment has the status.
abbrev HasStatus : String → ExperimentStatus → Db → Type 0
HasStatus i s db = (e : Experiment) × (get_experiment i db ≡ some e) × (e.status ≡ s)

record KeepsStatus {A : Type 0} (body : Exec A) : Type 0 where
  at :
      (w : World) (i : String) (s : ExperimentStatus)
      → HasStatus i s w.db
      → HasStatus i s (after (body w)).db

module _ {A B : Type 0} where
  kept_then :
      (o : Outcome A) (k : A → Exec B) (i : String) (s : ExperimentStatus)
      → HasStatus i s (after o).db
      → ((x : A) → KeepsStatus (k x))
      → HasStatus i s (after (and_then o k)).db
  kept_then (done x w) k i s h ks = (ks x).at w i s h
  kept_then (raised e w) k i s h ks = h

  Keeps-bind :
      {body : Exec A} {k : A → Exec B}
      → KeepsStatus body
      → ((x : A) → KeepsStatus (k x))
      → KeepsStatus (body >>= k)
  Keeps-bind {body} {k} b ks = record { at = λ w i s h. kept_then (body w) k i s (b.at w i s h) ks }

-- A statement that leaves the table of experiments alone.
same_table :
    {A : Type 0} (body : Exec A)
    → ((w : World) → (after (body w)).experiments ≡ w.experiments)
    → KeepsStatus body
unfolding get_experiment
same_table body h = record { at = λ w i s (e, f, q). (e, ground (arith, h w, f), q) }

module _ {A : Type 0} where
  Keeps-pure : (a : A) → KeepsStatus (pure a)
  Keeps-pure a = same_table _ λ w. refl

  Keeps-raise : (e : Error) → KeepsStatus (raise {A = A} e)
  Keeps-raise e = same_table _ λ w. refl

  Keeps-gets : (f : Db → A) → KeepsStatus (gets f)
  Keeps-gets f = same_table _ λ w. refl

  Keeps-or_raise : (o : Option A) (e : Error) → KeepsStatus (or_raise o e)
  Keeps-or_raise none e = same_table _ λ w. refl
  Keeps-or_raise (some a) e = same_table _ λ w. refl

  Keeps-if :
      (b : Bool) (m k : Exec A) → KeepsStatus m → KeepsStatus k → KeepsStatus (if b then m else k)
  Keeps-if true m k p q = p
  Keeps-if false m k p q = q

Keeps-time : KeepsStatus time
Keeps-time = same_table _ λ w. refl

Keeps-new_id : KeepsStatus new_id
Keeps-new_id = same_table _ λ w. refl

Keeps-create_node : (n : Node) → KeepsStatus (create_node n)
unfolding create_node seed_epoch ignore_epoch
Keeps-create_node n = same_table _ λ w. ground arith

Keeps-create_episode : (from : Option String) (n : String) → KeepsStatus (create_episode from n)
unfolding create_episode
Keeps-create_episode from n = same_table _ λ w. ground arith

Keeps-link : (i child : String) → KeepsStatus (modify (link_experiment_child i child))
unfolding link_experiment_child update_experiments get_experiment
Keeps-link i child = record {
  at = λ w j s (e, f, q). (
    if e.experiment_id == i then record e { child_node_id = some child } else e,
    find-update (λ x. x.experiment_id == j) (λ x. x.experiment_id == i)
        (λ x. record x { child_node_id = some child }) (λ x. refl) w.experiments e f,
    ground (arith, q),
  );
}

Keeps-frontier_axes :
    (f : Db → List FrontierAxis) → KeepsStatus (modify (λ db. record db { frontier_axes = f db }))
Keeps-frontier_axes f = same_table _ λ w. refl

ruleset keep_rules = (
  Keeps-pure, Keeps-raise, Keeps-gets, Keeps-or_raise, Keeps-if, Keeps-time, Keeps-new_id,
  Keeps-create_node, Keeps-create_episode, Keeps-link, Keeps-frontier_axes, Keeps-bind,
)

Keeps-inherit_episode :
    (o : Option Proposal) (child : String) → KeepsStatus (inherit_episode o child)
unfolding inherit_episode
Keeps-inherit_episode none child = search keep_rules
Keeps-inherit_episode (some p) child = search keep_rules depth 20

Keeps-child_if_passed :
    (r : ExperimentResult) (e : Experiment) (sha : Option String)
    → KeepsStatus (child_if_passed r e sha)
unfolding child_if_passed create_child
Keeps-child_if_passed r e none = search keep_rules
Keeps-child_if_passed r e (some sha) = search (keep_rules, Keeps-inherit_episode) depth 20

Keeps-axis_row :
    (nodes : List Node) (now : ℕ) (axis i : String) → KeepsStatus (axis_row nodes now axis i)
unfolding axis_row
Keeps-axis_row nodes now axis i = search keep_rules

Keeps-collect :
    {A B : Type 0} (xs : List A) (body : A → Exec B)
    → ((a : A) → KeepsStatus (body a))
    → KeepsStatus (collect xs body)
Keeps-collect [] body h = Keeps-pure []
Keeps-collect (x ∷ xs) body h =
    Keeps-bind (h x) λ b. Keeps-bind (Keeps-collect xs body h) λ bs. Keeps-pure (b ∷ bs)

Keeps-axis_rows :
    (nodes : List Node) (now : ℕ) (axes : List (String × List String))
    → KeepsStatus (axis_rows nodes now axes)
unfolding axis_rows
Keeps-axis_rows nodes now [] = search keep_rules
Keeps-axis_rows nodes now ((axis, is) ∷ rest) =
    Keeps-bind (Keeps-collect is (axis_row nodes now axis) (Keeps-axis_row nodes now axis))
      λ here. Keeps-bind (Keeps-axis_rows nodes now rest) λ others. Keeps-pure (here ++ others)

Keeps-refresh_frontier : (config : Option FrontierConfig) → KeepsStatus (refresh_frontier config)
unfolding refresh_frontier
Keeps-refresh_frontier none = search keep_rules
Keeps-refresh_frontier (some config) = search (keep_rules, Keeps-axis_rows) depth 20

-- The statements after the update of the row.
record_rest : ExperimentResult → Experiment → Exec (Option Node)
record_rest r e = do
  child ← child_if_passed r e r.result_sha
  refresh_frontier r.frontier_config
  pure child

Keeps-record_rest : (r : ExperimentResult) (e : Experiment) → KeepsStatus (record_rest r e)
unfolding record_rest
Keeps-record_rest r e = search (keep_rules, Keeps-child_if_passed, Keeps-refresh_frontier) depth 20

record_result-HasStatus :
    (r : ExperimentResult) (e : Experiment) (w : World)
    → get_experiment r.experiment_id w.db ≡ some e
    → HasStatus r.experiment_id r.status (after (record_result r e w)).db
unfolding record_result record_rest update_experiment_result update_experiments get_experiment
record_result-HasStatus r e w f =
    (Keeps-record_rest r e).at updated r.experiment_id r.status (new_row, found, refl)
  where
    new_row : Experiment
    new_row = record e {
      result_sha = r.result_sha;
      metrics = r.metrics;
      gate_result = r.gate_result;
      status = r.status;
      changed_paths = r.changed_paths;
    }

    updated : World
    updated = record w {
      db =
          update_experiment_result r.experiment_id r.result_sha r.metrics r.gate_result r.status
            r.changed_paths w.db;
    }

    found : get_experiment r.experiment_id updated.db ≡ some new_row
    found = ground (
      arith,
      find-holds (λ x. x.experiment_id == r.experiment_id) w.experiments e f,
      find-update (λ x. x.experiment_id == r.experiment_id)
          (λ x. x.experiment_id == r.experiment_id)
          (λ x. record x {
            result_sha = r.result_sha;
            metrics = r.metrics;
            gate_result = r.gate_result;
            status = r.status;
            changed_paths = r.changed_paths;
          })
          (λ x. refl) w.experiments e f,
    )

-- Once a result with a terminal status has been ingested, any other result for the experiment
-- raises, and the world stays as it was.
pub ingest-once :
    (r q : ExperimentResult) (w v : World) (c : Option Node)
    → ingest_experiment_result r w ≡ done c v
    → is_open r.status ≡ false
    → q.experiment_id ≡ r.experiment_id
    → ingest_experiment_result q v ≡ raised (already_terminal q.experiment_id) v
unfolding ingest_experiment_result transaction ingest_result_on_tx get_experiment
ingest-once r q w v c h terminal same =
    let d = ingest_on_tx-done r w v c (transaction-done (ingest_result_on_tx r) w c v h) in
    settled d (record_result-HasStatus r d.experiment w d.found)
  where
    settled :
        (d : Ingested r w v)
        → HasStatus r.experiment_id r.status (after (record_result r d.experiment w)).db
        → ingest_experiment_result q v ≡ raised (already_terminal q.experiment_id) v
    settled d (e, f, s) =
        let found : get_experiment r.experiment_id v.db ≡ some e =
          ground (arith, d.kept, d.recorded, f) in
        let found' : get_experiment q.experiment_id v.db ≡ some e = cc (found, same) in
        ground (arith, found', s, terminal)
