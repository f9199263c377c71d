-- ===== src/Scheduler/Admission.antt =====
-- simpleevo/scheduler/admission.py: the checks of an integration request before it is decided.
use simple_evolution.Prelude.{
  String, Bool, true, false, not, ◌&&◌, ◌||◌, Option, none, some, List, [], ◌∷◌, ◌==◌, string_eq,
  is_none, is_unique,
}
use simple_evolution.Text.{strip}
use simple_evolution.Db.Rows.{Experiment, is_completed}
use simple_evolution.Db.Exec.{
  Exec, ◌>>=◌, ◌>>◌, pure, raise_if, gets, for_each, incomplete_request, repeated_donors,
  unknown_target, donors_not_passed,
}
use simple_evolution.Db.Select.{get_node, get_experiment}
use simple_evolution.Supervisor.Requests.{RequestPayload}

-- The texts of the request, a missing one being empty.
pub record RawRequest : Type 0 where
  pub integration_request_id : String
  pub target_node_id : String
  pub selection_rationale : String
  pub donor_experiment_ids : List String

unfoldable pub no_donors : List String → Bool
no_donors [] = true
no_donors (d ∷ ds) = false

-- if not experiment.child_node_id
unfoldable pub has_child : Option String → Bool
has_child none = false
has_child (some i) = not (i == "")

unfoldable pub may_donate : Option Experiment → Bool
unfolding has_child
may_donate none = false
may_donate (some e) = is_completed e.status && (e.gate_result.passed && has_child e.child_node_id)

unfoldable pub check_donor : String → Exec (Unit {0})
unfolding may_donate
check_donor i = do
  found ← gets (get_experiment i)
  raise_if (not (may_donate found)) donors_not_passed

unfoldable pub validate_integration_request : String → RawRequest → Exec RequestPayload
unfolding no_donors check_donor
validate_integration_request epoch_id raw = do
  let request_id = strip raw.integration_request_id
  let target_id = strip raw.target_node_id
  let rationale = strip raw.selection_rationale
  raise_if
      (request_id == ""
        || (target_id == "" || (rationale == "" || no_donors raw.donor_experiment_ids)))
      incomplete_request
  raise_if (not (is_unique raw.donor_experiment_ids)) repeated_donors
  target ← gets (get_node target_id)
  raise_if (is_none target) unknown_target
  for_each raw.donor_experiment_ids check_donor
  pure (record {
    integration_request_id = request_id;
    epoch_id = epoch_id;
    target_node_id = target_id;
    donor_experiment_ids = raw.donor_experiment_ids;
    selection_rationale = rationale;
  })
