-- ===== src/Experiments/Ingest.antt =====
-- `ingest_experiment_result`: the result of an experiment, its child node and the new frontier, in
-- one transaction.
use simple_evolution.Prelude.{
  ℕ, suc, String, not, Option, none, some, List, [], ◌∷◌, ◌++◌, ◌==◌, string_eq, find, select, map,
  nat_beq, get_or, if◌then◌else◌,
}
use simple_evolution.Prelude.Int.{pos}
use simple_evolution.Json.{Json, Dict, null, bool, number, text, dict, lookup}
use simple_evolution.Db.Rows.{
  Node, active, Proposal, Experiment, ExperimentStatus, pending, running, completed, gate_rejected,
  no_change, is_open, GateDecision, FrontierAxis, experiment_terminal,
}
use simple_evolution.Db.Exec.{
  Exec, ◌>>=◌, ◌>>◌, pure, raise_if, or_raise, gets, modify, time, new_id, collect, transaction,
  unknown_experiment, already_terminal, missing_parent, unknown_node,
}
use simple_evolution.Db.Select.{get_experiment, get_node, get_proposal, list_active_nodes}
use simple_evolution.Db.Insert.{create_node, create_episode, insert_supervisor_event}
use simple_evolution.Db.Update.{update_experiment_result, link_experiment_child}
use simple_evolution.Frontier.Policy.{FrontierConfig, compute_frontier}

-- The arguments of the call.
pub record ExperimentResult : Type 0 where
  pub experiment_id : String
  pub result_sha : Option String
  pub metrics : Dict
  pub gate_result : GateDecision
  pub status : ExperimentStatus
  pub changed_paths : List String
  pub frontier_config : Option FrontierConfig

abbrev pub status_text : ExperimentStatus → String
status_text pending = "pending"
status_text running = "running"
status_text completed = "completed"
status_text gate_rejected = "gate_rejected"
status_text no_change = "no_change"

unfoldable pub child_node : String → ExperimentResult → Node → String → ℕ → Node
child_node i r parent sha now = record {
  node_id = i;
  parent_node_id = some parent.node_id;
  experiment_id = some r.experiment_id;
  sha = sha;
  metrics = r.metrics;
  gate_result = r.gate_result;
  depth = suc parent.depth;
  status = active;
  created_at = now;
}

-- The episode of the child inherits from the one of the proposal, if the proposal is there.
unfoldable pub inherit_episode : Option Proposal → String → Exec (Unit {0})
inherit_episode none child = pure tt
inherit_episode (some p) child = do _ ← create_episode (some p.episode_id) child; pure tt

unfoldable pub create_child : ExperimentResult → Experiment → String → Exec (Option Node)
unfolding child_node inherit_episode
create_child r e sha = do
  found ← gets (get_node e.parent_node_id)
  parent ← or_raise found (missing_parent r.experiment_id)
  now ← time
  i ← new_id
  child ← create_node (child_node i r parent sha now)
  modify (link_experiment_child r.experiment_id child.node_id)
  proposal ← gets (get_proposal e.proposal_id)
  inherit_episode proposal child.node_id
  pure (some child)

-- A child if the gates passed and there is a world.
unfoldable pub child_if_passed : ExperimentResult → Experiment → Option String → Exec (Option Node)
unfolding create_child
child_if_passed r e none = pure none
child_if_passed r e (some sha) = if r.gate_result.passed then create_child r e sha else pure none

unfoldable pub axis_row : List Node → ℕ → String → String → Exec FrontierAxis
axis_row nodes now axis i = do
  n ← or_raise (find (λ m. m.node_id == i) nodes) (unknown_node i)
  pure (record {
    axis = axis;
    node_id = i;
    value = get_or (lookup axis n.metrics) (number (pos 0));
    since = now;
  })

unfoldable pub axis_rows : List Node → ℕ → List (String × List String) → Exec (List FrontierAxis)
unfolding axis_row
axis_rows nodes now [] = pure []
axis_rows nodes now ((axis, is) ∷ rest) = do
  here ← collect is (axis_row nodes now axis)
  others ← axis_rows nodes now rest
  pure (here ++ others)

unfoldable pub bootstrap_rows : List Node → ℕ → List FrontierAxis
bootstrap_rows nodes now =
    map
      (λ n. record {
        axis = "__bootstrap__";
        node_id = n.node_id;
        value = number (pos 0);
        since = now;
      })
      (select (λ n. nat_beq n.depth 0) nodes)

unfoldable pub rows_or_bootstrap :
    List String → List Node → ℕ → List FrontierAxis → List FrontierAxis
unfolding bootstrap_rows
rows_or_bootstrap [] nodes now rows = rows ++ bootstrap_rows nodes now
rows_or_bootstrap (i ∷ is) nodes now rows = rows

-- The frontier, if a configuration is given; the old rows go.
unfoldable pub refresh_frontier : Option FrontierConfig → Exec (Unit {0})
unfolding axis_rows rows_or_bootstrap
refresh_frontier none = pure tt
refresh_frontier (some config) = do
  now ← time
  nodes ← gets list_active_nodes
  let f = compute_frontier nodes config
  rows ← axis_rows nodes now f.axes
  modify (λ db. record db { frontier_axes = rows_or_bootstrap f.node_ids nodes now rows })

abbrev pub node_id_or_null : Option Node → Json
node_id_or_null none = null
node_id_or_null (some n) = text n.node_id

abbrev pub metrics_or_null : Option Node → Dict → Json
metrics_or_null none metrics = null
metrics_or_null (some n) metrics = dict metrics

abbrev pub parent_metrics : Option Node → Json
parent_metrics none = null
parent_metrics (some n) = dict n.metrics

unfoldable pub terminal_payload : ExperimentResult → Experiment → Option Node → Option Node → Json
terminal_payload r e parent child = dict (
    ("experiment_id", text r.experiment_id)
    ∷ ("status", text (status_text r.status))
    ∷ ("parent_node_id", text e.parent_node_id)
    ∷ ("child_node_id", node_id_or_null child)
    ∷ ("gate_passed", bool r.gate_result.passed)
    ∷ ("parent_metrics", parent_metrics parent)
    ∷ ("child_metrics", metrics_or_null child r.metrics)
    ∷ [])

-- The statements between the checks and the wake event.
unfoldable pub record_result : ExperimentResult → Experiment → Exec (Option Node)
unfolding child_if_passed refresh_frontier
record_result r e = do
  modify (
      update_experiment_result r.experiment_id r.result_sha r.metrics r.gate_result r.status
        r.changed_paths)
  child ← child_if_passed r e r.result_sha
  refresh_frontier r.frontier_config
  pure child

unfoldable pub wake_gate : ExperimentResult → Experiment → Option Node → Exec (Option Node)
unfolding terminal_payload
wake_gate r e child = do
  parent ← gets (get_node e.parent_node_id)
  now ← time
  modify (insert_supervisor_event experiment_terminal (terminal_payload r e parent child) now)
  pure child

unfoldable pub ingest_result_on_tx : ExperimentResult → Exec (Option Node)
unfolding record_result wake_gate
ingest_result_on_tx r = do
  found ← gets (get_experiment r.experiment_id)
  e ← or_raise found (unknown_experiment r.experiment_id)
  raise_if (not (is_open e.status)) (already_terminal r.experiment_id)
  child ← record_result r e
  wake_gate r e child

unfoldable pub ingest_experiment_result : ExperimentResult → Exec (Option Node)
unfolding ingest_result_on_tx
ingest_experiment_result r = transaction (ingest_result_on_tx r)
