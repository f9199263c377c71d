-- ===== src/Scheduler/AdmissionLaws.antt =====
-- Which integration requests are admitted.
use simple_evolution.Prelude.{
  String, Bool, true, false, not, ◌&&◌, ◌≡◌, refl, Option, none, some, List, [], ◌∷◌, ◌==◌,
  string_eq, all, is_some, is_unique, length, ltb, arith, if◌then◌else◌,
}
use simple_evolution.Text.{strip}
use simple_evolution.Db.Rows.{is_completed}
use simple_evolution.Db.State.{Db, World}
use simple_evolution.Db.Exec.{Outcome, done, raised, after, for_each, donors_not_passed}
use simple_evolution.Db.Select.{get_node, get_experiment}
use simple_evolution.Scheduler.Admission.{
  RawRequest, no_donors, has_child, may_donate, check_donor, validate_integration_request,
}

-- The experiment has completed, has passed its gates and has made a node.
abbrev pub has_made_node : Db → String → Bool
has_made_node db i = elim (get_experiment i db) [
  | none ↦ false
  | some e ↦ is_completed e.status && (e.gate_result.passed && child e.child_node_id)
]
  where
    child : Option String → Bool
    child none = false
    child (some c) = not (c == "")

-- Every text is given, the target is there, and the donors, one or more and none twice, have all
-- made nodes.
abbrev pub admissible : RawRequest → Db → Bool
admissible raw db =
    not (strip raw.integration_request_id == "")
    && (not (strip raw.target_node_id == "")
        && (not (strip raw.selection_rationale == "")
            && (ltb 0 (length raw.donor_experiment_ids)
                && (is_unique raw.donor_experiment_ids
                    && (is_some (get_node (strip raw.target_node_id) db)
                        && all (has_made_node db) raw.donor_experiment_ids)))))

abbrev pub accepts : {A : Type 0} → Outcome A → Bool
accepts (done a w) = true
accepts (raised e w) = false

check_donors :
    (is : List String) (w : World)
    → for_each is check_donor w
      ≡ (if all (has_made_node w.db) is then done tt w else raised donors_not_passed w)
unfolding check_donor may_donate has_child
check_donors [] w = refl
check_donors (i ∷ is) w = ground (arith, check_donors is w)

-- A request is admitted exactly if its texts are given, its target node is there, and its donors,
-- one or more and none twice, have all completed, passed their gates and made a node. Either way
-- the world stays as it was.
pub validate-admissible :
    (epoch_id : String) (raw : RawRequest) (w : World)
    → (accepts (validate_integration_request epoch_id raw w) ≡ admissible raw w.db)
      × (after (validate_integration_request epoch_id raw w) ≡ w)
unfolding validate_integration_request no_donors
validate-admissible epoch_id raw w = (
  ground (arith, check_donors raw.donor_experiment_ids w),
  ground (arith, check_donors raw.donor_experiment_ids w),
)
