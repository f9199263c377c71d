-- ===== src/Gate/Laws.antt =====
-- When a candidate passes the gates.
use simple_evolution.Prelude.{
  String, Bool, true, false, ◌&&◌, ◌≡◌, refl, Option, none, some, List, [], ◌∷◌, ◌==◌, string_eq,
  member, all, arith, is_none, Bool-cases, ◌⊎◌, inl, inr, eq_iff, sym, subst, eq_refl,
}
use simple_evolution.Json.{Json, Dict, bool, lookup}
use simple_evolution.Db.Rows.{GateDecision}
use simple_evolution.Gate.Apply.{
  EvaluationResult, GateSpec, decided, seen_key, check_keys, apply_gates, decide, evaluated,
  gate_rows, gate_row, is_pass, is_zero, commands_ok, reserved_keys, command_detail, exit_codes,
}

abbrev pub is_true : Option Json → Bool
is_true (some (bool b)) = b
is_true _ = false

-- What a pass means: a run without an error, with exit code 0 of every command, in which every
-- declared gate is reported true.
abbrev pub gates_hold : Option EvaluationResult → List String → Bool
gates_hold none keys = false
gates_hold (some e) keys =
    is_none e.error
    && (all is_zero e.returncodes && all (λ key. is_true (lookup key e.metrics)) keys)

all-gate_rows :
    (metrics : Dict) (keys : List String)
    → all (λ row. is_pass row.1) (gate_rows metrics keys)
      ≡ all (λ key. is_true (lookup key metrics)) keys
unfolding gate_rows gate_row
all-gate_rows metrics [] = refl
all-gate_rows metrics (key ∷ keys) = ground (arith, all-gate_rows metrics keys)

-- When the keys of the specification are accepted, the decision passes exactly if there is an
-- evaluation without an error, every command returned 0 and every declared gate is reported true.
pub apply_gates-passed :
    (evaluation : Option EvaluationResult) (spec : GateSpec) (reason : Option String)
    (d : GateDecision)
    → apply_gates evaluation spec reason ≡ decided d
    → d.passed ≡ gates_hold evaluation spec.gate_keys
unfolding apply_gates decide evaluated commands_ok
apply_gates-passed none spec reason d h = ground arith
apply_gates-passed (some e) spec reason d h =
    ground (arith, h, all-gate_rows e.metrics spec.gate_keys)

-- Keys that pass the check are not among those seen before.
seen_key_lem :
    (seen keys : List String) (o : String)
    → seen_key seen keys ≡ none
    → member o seen ≡ true
    → member o keys ≡ false
unfolding seen_key
seen_key_lem seen [] o h m = refl
seen_key_lem seen (key ∷ keys) o h m = go (Bool-cases (key == o)) (seen_key_lem (key ∷ seen) keys o)
  where
    go :
        ((key == o) ≡ true) ⊎ ((key == o) ≡ false)
        → (seen_key (key ∷ seen) keys ≡ none → member o (key ∷ seen) ≡ true → member o keys ≡ false)
        → member o (key ∷ keys) ≡ false
    go (inl q) ih =
        let p : member key seen ≡ true =
          subst (λ x. member x seen ≡ true) (sym ((eq_iff key o).0 q)) m in
        ground (arith, h, p)
    go (inr q) ih = ground (arith, q, h, m, ih)

gate_rows-agree :
    (metrics others : Dict) (o : String)
    → ((k : String) → (o == k) ≡ false → lookup k metrics ≡ lookup k others)
    → (keys : List String) → member o keys ≡ false
    → gate_rows metrics keys ≡ gate_rows others keys
unfolding gate_rows
gate_rows-agree metrics others o agree [] m = refl
gate_rows-agree metrics others o agree (key ∷ keys) m =
    go (Bool-cases (o == key)) (gate_rows-agree metrics others o agree keys (ground (arith, m)))
  where
    go :
        ((o == key) ≡ true) ⊎ ((o == key) ≡ false)
        → gate_rows metrics keys ≡ gate_rows others keys
        → gate_rows metrics (key ∷ keys) ≡ gate_rows others (key ∷ keys)
    go (inl q) ih =
        let p : (key == o) ≡ true =
          subst (λ x. (key == x) ≡ true) (sym ((eq_iff o key).0 q)) (eq_refl key) in
        ground (arith, m, p)
    go (inr q) ih = ground (arith, ih, agree key q)

objective_apart :
    (spec : GateSpec) → check_keys spec ≡ none → member spec.objective_key spec.gate_keys ≡ false
unfolding check_keys
objective_apart spec h =
    let s : seen_key (spec.objective_key ∷ reserved_keys) spec.gate_keys ≡ none =
      ground (arith, h) in
    seen_key_lem (spec.objective_key ∷ reserved_keys) spec.gate_keys spec.objective_key s
      (ground (arith, eq_refl spec.objective_key))

-- The measured objective has no part in the decision: two evaluations that agree on all other
-- metrics get the same one.
pub apply_gates-objective :
    (e : EvaluationResult) (others : Dict) (spec : GateSpec) (reason : Option String)
    → ((k : String) → (spec.objective_key == k) ≡ false → lookup k e.metrics ≡ lookup k others)
    → apply_gates (some e) spec reason
      ≡ apply_gates (some (record e { metrics = others })) spec reason
unfolding apply_gates decide evaluated commands_ok command_detail exit_codes
apply_gates-objective e others spec reason agree = go (check_keys spec) refl
  where
    go :
        (o : Option String)
        → check_keys spec ≡ o
        → apply_gates (some e) spec reason
          ≡ apply_gates (some (record e { metrics = others })) spec reason
    go none q =
        let m = objective_apart spec q in
        ground
          (arith, q, gate_rows-agree e.metrics others spec.objective_key agree spec.gate_keys m)
    go (some key) q = ground (arith, q)
