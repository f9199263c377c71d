-- ===== src/Experiments/IngestLaws.antt =====
-- What the ingest of a result does to the wake events and to the experiment.
use simple_evolution.Prelude.{
  ℕ, ◌+◌, String, Bool, true, false, ◌≡◌, refl, Option, none, some, List, [], ◌∷◌, ◌++◌, arith,
  string_eq,
}
use simple_evolution.Json.{Dict}
use simple_evolution.Db.Rows.{
  Node, Experiment, ExperimentStatus, is_open, GateDecision, SupervisorEvent, experiment_terminal,
  Proposal, FrontierAxis,
}
use simple_evolution.Db.State.{Db, World, event_head}
use simple_evolution.Db.Exec.{Outcome, done, raised, and_then, modify, after}
use simple_evolution.Db.Laws.{transaction-done}
use simple_evolution.Db.Select.{get_experiment, get_node}
use simple_evolution.Db.Insert.{
  create_node, create_episode, insert_supervisor_event, seed_epoch, ignore_epoch,
}
use simple_evolution.Db.Update.{update_experiments, update_experiment_result, link_experiment_child}
use simple_evolution.Frontier.Policy.{FrontierConfig}
use simple_evolution.Supervisor.Quiet.{
  SameGate, Quiet, quiet_rules, Quiet-bind, Quiet-pure, Quiet-collect,
}
use simple_evolution.Experiments.Ingest.{
  ExperimentResult, ingest_experiment_result, ingest_result_on_tx, record_result, wake_gate,
  child_if_passed, create_child, inherit_episode, refresh_frontier, axis_rows, axis_row,
  terminal_payload,
}

Quiet-create_node : (n : Node) → Quiet (create_node n)
unfolding create_node seed_epoch ignore_epoch
Quiet-create_node n = record { at = λ w. ground arith }

Quiet-create_episode : (from : Option String) (n : String) → Quiet (create_episode from n)
unfolding create_episode
Quiet-create_episode from n = record { at = λ w. ground arith }

Quiet-link : (i child : String) → Quiet (modify (link_experiment_child i child))
unfolding link_experiment_child update_experiments
Quiet-link i child = record { at = λ w. ground arith }

Quiet-inherit_episode : (o : Option Proposal) (child : String) → Quiet (inherit_episode o child)
unfolding inherit_episode
Quiet-inherit_episode none child = search quiet_rules
Quiet-inherit_episode (some p) child = search (quiet_rules, Quiet-create_episode)

Quiet-child_if_passed :
    (r : ExperimentResult) (e : Experiment) (sha : Option String) → Quiet (child_if_passed r e sha)
unfolding child_if_passed create_child
Quiet-child_if_passed r e none = search quiet_rules
Quiet-child_if_passed r e (some sha) =
    search (quiet_rules, Quiet-create_node, Quiet-link, Quiet-inherit_episode) depth 20

Quiet-axis_row : (nodes : List Node) (now : ℕ) (axis i : String) → Quiet (axis_row nodes now axis i)
unfolding axis_row
Quiet-axis_row nodes now axis i = search quiet_rules

Quiet-axis_rows :
    (nodes : List Node) (now : ℕ) (axes : List (String × List String))
    → Quiet (axis_rows nodes now axes)
unfolding axis_rows
Quiet-axis_rows nodes now [] = search quiet_rules
Quiet-axis_rows nodes now ((axis, is) ∷ rest) =
    Quiet-bind (Quiet-collect is (axis_row nodes now axis) (Quiet-axis_row nodes now axis))
      λ here. Quiet-bind (Quiet-axis_rows nodes now rest) λ others. Quiet-pure (here ++ others)

Quiet-frontier_axes :
    (f : Db → List FrontierAxis) → Quiet (modify (λ db. record db { frontier_axes = f db }))
Quiet-frontier_axes f = record { at = λ w. ground arith }

Quiet-refresh_frontier : (config : Option FrontierConfig) → Quiet (refresh_frontier config)
unfolding refresh_frontier
Quiet-refresh_frontier none = search quiet_rules
Quiet-refresh_frontier (some config) =
    search (quiet_rules, Quiet-axis_rows, Quiet-frontier_axes) depth 20

Quiet-update_result :
    (i : String) (sha : Option String) (metrics : Dict) (gate : GateDecision)
    (status : ExperimentStatus) (paths : List String)
    → Quiet (modify (update_experiment_result i sha metrics gate status paths))
unfolding update_experiment_result update_experiments
Quiet-update_result i sha metrics gate status paths = record { at = λ w. ground arith }

Quiet-record_result : (r : ExperimentResult) (e : Experiment) → Quiet (record_result r e)
unfolding record_result
Quiet-record_result r e =
    search (quiet_rules, Quiet-update_result, Quiet-child_if_passed, Quiet-refresh_frontier) depth
      20

-- The wake event of a result, after what was there.
pub record Woken (a b : Db) : Type 0 where
  pub event : SupervisorEvent
  pub type : event.type ≡ experiment_terminal
  pub number : event.event_id ≡ event_head a.supervisor_events + 1
  pub events : b.supervisor_events ≡ a.supervisor_events ++ (event ∷ [])
  pub cursor : b.supervisor_cursor ≡ a.supervisor_cursor

-- What an accepted ingest found and did.
pub record Ingested (r : ExperimentResult) (w v : World) : Type 0 where
  pub experiment : Experiment
  pub found : get_experiment r.experiment_id w.db ≡ some experiment
  pub was_open : is_open experiment.status ≡ true
  pub child : Option Node
  pub between : World
  pub recorded : record_result r experiment w ≡ done child between
  pub woken : Woken between.db v.db
  pub kept : v.experiments ≡ between.experiments

pub ingest_on_tx-done :
    (r : ExperimentResult) (w v : World) (c : Option Node)
    → ingest_result_on_tx r w ≡ done c v
    → Ingested r w v
unfolding ingest_result_on_tx wake_gate insert_supervisor_event
ingest_on_tx-done r w v c h = go (get_experiment r.experiment_id w.db) refl
  where
    finished :
        (e : Experiment)
        → get_experiment r.experiment_id w.db ≡ some e
        → is_open e.status ≡ true
        → (o : Outcome (Option Node)) → record_result r e w ≡ o
        → and_then o (wake_gate r e) ≡ done c v
        → Ingested r w v
    finished e f s (done child u) q k = record {
      experiment = e;
      found = f;
      was_open = s;
      child = child;
      between = u;
      recorded = q;
      woken = record {
        event = record {
          event_id = event_head u.supervisor_events + 1;
          type = experiment_terminal;
          payload = terminal_payload r e (get_node e.parent_node_id u.db) child;
          created_at = u.clock u.readings;
        };
        type = refl;
        number = refl;
        events = ground arith;
        cursor = ground arith;
      };
      kept = ground arith;
    }
    finished e f s (raised x u) q k = cc

    open_or_not :
        (e : Experiment)
        → get_experiment r.experiment_id w.db ≡ some e
        → (b : Bool) → is_open e.status ≡ b
        → Ingested r w v
    open_or_not e f true s = finished e f s (record_result r e w) refl (ground (arith, h, f, s))
    open_or_not e f false s = ground (arith, h, f, s)

    go : (o : Option Experiment) → get_experiment r.experiment_id w.db ≡ o → Ingested r w v
    go none f = ground (arith, h, f)
    go (some e) f = open_or_not e f (is_open e.status) refl

-- An ingest that returns appends exactly one wake event, of type experiment_terminal and with the
-- next id, and leaves the cursor of the growth gate where it was.
pub ingest-wakes :
    (r : ExperimentResult) (w v : World) (c : Option Node)
    → ingest_experiment_result r w ≡ done c v
    → (e : SupervisorEvent) × (e.type ≡ experiment_terminal)
      × (e.event_id ≡ event_head w.supervisor_events + 1)
      × (v.supervisor_events ≡ w.supervisor_events ++ (e ∷ []))
      × (v.supervisor_cursor ≡ w.supervisor_cursor)
unfolding ingest_experiment_result
ingest-wakes r w v c h =
    let d = ingest_on_tx-done r w v c (transaction-done (ingest_result_on_tx r) w c v h) in
    from d ((Quiet-record_result r d.experiment).at w)
  where
    from :
        (d : Ingested r w v)
        → SameGate w.db (after (record_result r d.experiment w)).db
        → (e : SupervisorEvent) × (e.type ≡ experiment_terminal)
          × (e.event_id ≡ event_head w.supervisor_events + 1)
          × (v.supervisor_events ≡ w.supervisor_events ++ (e ∷ []))
          × (v.supervisor_cursor ≡ w.supervisor_cursor)
    from d q = (
      d.woken.event,
      d.woken.type,
      ground (arith, q.events, d.recorded, d.woken.number),
      ground (arith, q.events, d.recorded, d.woken.events),
      ground (arith, q.cursor, d.recorded, d.woken.cursor),
    )
