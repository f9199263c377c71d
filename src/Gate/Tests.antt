-- ===== src/Gate/Tests.antt =====
-- Evaluations of one candidate.
use simple_evolution.Prelude.{
  String, true, false, ◌≡◌, refl, none, some, [], ◌∷◌, ◌==◌, string_eq, arith,
}
use simple_evolution.Prelude.Int.{pos}
use simple_evolution.Json.{Dict, bool, number, lookup}
use simple_evolution.Text.{starts_with}
use simple_evolution.Db.Rows.{GateDecision}
use simple_evolution.Gate.Apply.{
  EvaluationResult, GateSpec, bad_key, apply_gates, check_keys, seen_key, decide, evaluated,
  paths_allowed, under, drop_slashes,
}
use simple_evolution.Gate.Laws.{gates_hold, apply_gates-passed, apply_gates-objective}

abbrev spec : GateSpec
spec = record { objective_key = "score"; gate_keys = "correct" ∷ [] }

abbrev metrics : Dict
metrics = ("score", number (pos 7)) ∷ ("correct", bool true) ∷ []

abbrev evaluation : EvaluationResult
evaluation = record { body = ""; metrics = metrics; returncodes = pos 0 ∷ []; error = none }

abbrev decision : GateDecision
decision = evaluated evaluation ("correct" ∷ [])

duplicate_gate :
    apply_gates none (record { objective_key = "score"; gate_keys = "a" ∷ "a" ∷ [] }) none
    ≡ bad_key "a"
unfolding apply_gates check_keys seen_key
duplicate_gate = refl

path_under_prefix : paths_allowed ("src/a.c" ∷ "src" ∷ []) ("src/" ∷ "src" ∷ []) ≡ true
unfolding paths_allowed under drop_slashes starts_with
path_under_prefix = refl

path_beside_prefix : paths_allowed ("src2/a.c" ∷ []) ("src" ∷ []) ≡ false
unfolding paths_allowed under drop_slashes starts_with
path_beside_prefix = refl

apply_gates-passed_example : decision.passed ≡ gates_hold (some evaluation) ("correct" ∷ [])
unfolding apply_gates check_keys seen_key decide
apply_gates-passed_example = apply_gates-passed (some evaluation) spec none decision refl

abbrev improved : Dict
improved = ("score", number (pos 9)) ∷ ("correct", bool true) ∷ []

agree_elsewhere : (k : String) → ("score" == k) ≡ false → lookup k metrics ≡ lookup k improved
agree_elsewhere k h = ground (arith, h)

apply_gates-objective_example :
    apply_gates (some evaluation) spec none
    ≡ apply_gates (some (record evaluation { metrics = improved })) spec none
apply_gates-objective_example = apply_gates-objective evaluation improved spec none agree_elsewhere
