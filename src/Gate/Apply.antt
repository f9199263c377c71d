-- ===== src/Gate/Apply.antt =====
-- `apply_gates` and `paths_allowed`.
use Prim.Native.Char.{Char, code}
use simple_evolution.Prelude.{
  ℕ, suc, String, ◌<>◌, Bool, true, false, ◌&&◌, ◌||◌, Option, none, some, List, [], ◌∷◌, ◌++◌,
  ◌==◌, string_eq, member, all, any, map, nat_beq, is_none, if◌then◌else◌,
}
use simple_evolution.Prelude.Int.{ℤ, pos, negsuc}
use simple_evolution.Text.{starts_with, show, chars}
use simple_evolution.Json.{Json, Dict, bool, lookup}
use simple_evolution.Db.Rows.{GateResult, GateDecision}

pub record EvaluationResult : Type 0 where
  pub body : String
  pub metrics : Dict
  pub returncodes : List ℤ
  pub error : Option String

pub record GateSpec : Type 0 where
  pub objective_key : String
  pub gate_keys : List String

-- A decision, or the ValueError on a key that is reserved or used twice.
pub data Gated : Type 0 where
  decided : GateDecision → Gated
  bad_key : String → Gated

abbrev pub reserved_keys : List String
reserved_keys = "PATHS" ∷ "EVAL_COMMANDS" ∷ []

-- The first gate key that has been seen.
unfoldable pub seen_key : List String → List String → Option String
seen_key seen [] = none
seen_key seen (key ∷ keys) =
    let rest = seen_key (key ∷ seen) keys in if member key seen then some key else rest

unfoldable pub check_keys : GateSpec → Option String
unfolding seen_key
check_keys spec =
    if member spec.objective_key reserved_keys
    then some spec.objective_key
    else seen_key (spec.objective_key ∷ reserved_keys) spec.gate_keys

unfoldable pub skipped_rows : List String → String → List (String × GateResult)
skipped_rows keys reason =
    ("PATHS", record { passed = some true; detail = "" })
    ∷ ("EVAL_COMMANDS", record { passed = none; detail = reason })
    ∷ map (λ key. (key, record { passed = none; detail = reason })) keys

abbrev pub is_zero : ℤ → Bool
is_zero (pos ℕ.zero) = true
is_zero _ = false

unfoldable pub commands_ok : EvaluationResult → Bool
commands_ok e = is_none e.error && all is_zero e.returncodes

unfoldable pub show_int : ℤ → String
show_int (pos n) = show n
show_int (negsuc n) = "-" <> show (suc n)

unfoldable pub show_codes : List ℤ → String
unfolding show_int
show_codes [] = ""
show_codes (c ∷ []) = show_int c
show_codes (c ∷ d ∷ cs) = show_int c <> (", " <> show_codes (d ∷ cs))

unfoldable pub exit_codes : EvaluationResult → String
unfolding commands_ok show_codes
exit_codes e = if commands_ok e then "" else "exit codes: [" <> (show_codes e.returncodes <> "]")

-- evaluation.error or (...)
unfoldable pub command_detail : EvaluationResult → String
unfolding exit_codes
command_detail e = elim e.error [
  | none ↦ exit_codes e
  | some message ↦ if message == "" then exit_codes e else message
]

-- The row of a declared gate.
unfoldable pub gate_row : Option Json → GateResult
gate_row (some (bool true)) = record { passed = some true; detail = "" }
gate_row (some (bool false)) = record { passed = some false; detail = "evaluator reported FAIL" }
gate_row _ = record { passed = none; detail = "metric missing or unknown" }

unfoldable pub gate_rows : Dict → List String → List (String × GateResult)
unfolding gate_row
gate_rows metrics [] = []
gate_rows metrics (key ∷ keys) = (key, gate_row (lookup key metrics)) ∷ gate_rows metrics keys

abbrev pub is_pass : GateResult → Bool
is_pass r = elim r.passed [ none ↦ false | some b ↦ b ]

unfoldable pub evaluated : EvaluationResult → List String → GateDecision
unfolding commands_ok command_detail gate_rows
evaluated e keys =
    let rows =
      ("PATHS", record { passed = some true; detail = "" })
      ∷ ("EVAL_COMMANDS", record { passed = some (commands_ok e); detail = command_detail e })
      ∷ gate_rows e.metrics keys in
    record { results = rows; passed = all (λ row. is_pass row.1) rows }

-- skip_reason or "not run"
unfoldable pub skip_text : Option String → String
skip_text none = "not run"
skip_text (some s) = if s == "" then "not run" else s

unfoldable pub decide : Option EvaluationResult → List String → Option String → GateDecision
unfolding skipped_rows evaluated skip_text
decide none keys reason = record { results = skipped_rows keys (skip_text reason); passed = false }
decide (some e) keys reason = evaluated e keys

unfoldable pub apply_gates : Option EvaluationResult → GateSpec → Option String → Gated
unfolding check_keys decide
apply_gates evaluation spec reason = elim (check_keys spec) [
  | none ↦ decided (decide evaluation spec.gate_keys reason)
  | some key ↦ bad_key key
]

-- editable.rstrip("/")
unfoldable pub drop_slashes : List Char → List Char
drop_slashes [] = []
drop_slashes (c ∷ cs) = elim (drop_slashes cs) [
  | [] ↦ if nat_beq (code c) b'/' then [] else c ∷ []
  | d ∷ ds ↦ c ∷ d ∷ ds
]

-- path == editable or path.startswith(editable.rstrip("/") + "/")
unfoldable pub under : String → String → Bool
unfolding drop_slashes starts_with
under path editable =
    path == editable || starts_with (drop_slashes (chars editable) ++ chars "/") (chars path)

unfoldable pub paths_allowed : List String → List String → Bool
unfolding under
paths_allowed changed editable = all (λ path. any (under path) editable) changed
