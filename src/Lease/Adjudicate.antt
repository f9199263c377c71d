-- ===== src/Lease/Adjudicate.antt =====
-- `record_lease_adjudication`, `reactivate_lease` and `graduate_delivered_evidence`.
use simple_evolution.Prelude.{
  ℕ, ◌+◌, String, Bool, true, false, not, ◌&&◌, ◌||◌, Option, none, some, List, [], ◌∷◌, ◌==◌,
  string_eq, select, first?, order_by, update, count, if◌then◌else◌, is_some, ltb, nat_beq, get_or,
}
use simple_evolution.Json.{
  Json, Dict, Fields, bool, text, dict, object, text_or_null, bool_or_null, is_text, get_field,
  put_field,
}
use simple_evolution.Db.Rows.{
  ProposerAllocation, LeaseState, researching, awaiting_adjudication, reopen, GateDecision,
  GateResult,
}
use simple_evolution.Db.State.{Db}
use simple_evolution.Db.Exec.{Exec, ◌>>=◌, ◌>>◌, pure, gets, modify, time, transaction}
use simple_evolution.Db.Select.{get_allocation}
use simple_evolution.Db.Insert.{insert_scheduler_event}
use simple_evolution.Db.Update.{update_allocations}

abbrev pub is_awaiting : Option LeaseState → Bool
is_awaiting (some awaiting_adjudication) = true
is_awaiting _ = false

abbrev pub is_reopen : Option LeaseState → Bool
is_reopen (some reopen) = true
is_reopen _ = false

unfoldable pub gate_rows : List (String × GateResult) → Dict
gate_rows [] = []
gate_rows ((name, r) ∷ rs) =
    (name, dict (("passed", bool_or_null r.passed) ∷ ("detail", text r.detail) ∷ [])) ∷ gate_rows rs

unfoldable pub adjudication_payload :
    ProposerAllocation → String → GateDecision → Option String → Json
unfolding gate_rows
adjudication_payload a experiment_id gate detail = dict (
    ("allocation_id", text a.allocation_id)
    ∷ ("episode_id", text a.episode_id)
    ∷ ("experiment_id", text experiment_id)
    ∷ ("passed", bool false)
    ∷ ("gate", dict (gate_rows gate.results))
    ∷ ("detail", text_or_null detail)
    ∷ [])

unfoldable pub send_back :
    ProposerAllocation → String → GateDecision → Option String → ℕ → Exec Bool
unfolding adjudication_payload update_allocations
send_back a experiment_id gate detail now = do
  insert_scheduler_event "lease_adjudication" (adjudication_payload a experiment_id gate detail) now
  modify (
      update_allocations a.allocation_id
        (λ x. record x { state = some reopen; reopen_count = a.reopen_count + 1 }))
  pure true

-- The lease is closed, is not waiting for its adjudication, or has used up its reopens.
unfoldable pub cannot_reopen : ℕ → ProposerAllocation → Bool
cannot_reopen max_reopens a =
    is_some a.finished_at || not (is_awaiting a.state) || ltb max_reopens (a.reopen_count + 1)

unfoldable pub adjudicate_on_tx :
    Option ProposerAllocation → String → GateDecision → Option String → ℕ → ℕ → Exec Bool
unfolding cannot_reopen send_back
adjudicate_on_tx none experiment_id gate detail max_reopens now = pure false
adjudicate_on_tx (some a) experiment_id gate detail max_reopens now =
    if cannot_reopen max_reopens a then pure false else send_back a experiment_id gate detail now

unfoldable pub record_lease_adjudication :
    String → String → GateDecision → Option String → ℕ → Exec Bool
unfolding adjudicate_on_tx
record_lease_adjudication i experiment_id gate detail max_reopens = do
  now ← time
  transaction
      (do a ← gets (get_allocation i); adjudicate_on_tx a experiment_id gate detail max_reopens now)

unfoldable pub is_reopened : String → ProposerAllocation → Bool
is_reopened i a = a.allocation_id == i && is_reopen a.state

-- UPDATE ... SET state = 'researching' WHERE allocation_id = ? AND state = 'reopen'
unfoldable pub reactivate : String → Db → Db
unfolding is_reopened
reactivate i db = record db {
  proposer_allocations =
      update (is_reopened i) (λ a. record a { state = some researching }) db.proposer_allocations;
}

unfoldable pub reactivate_lease : String → Exec Bool
unfolding reactivate
reactivate_lease i = transaction (do
  changed ← gets (λ db. count (is_reopened i) db.proposer_allocations)
  modify (reactivate i)
  pure (ltb 0 changed))

-- entry["status"] = "verified" on a dict that names the delivered world and is not verified yet.
unfoldable pub graduates : String → Fields → Bool
graduates sha fs =
    is_text sha (get_field "sha" fs) && not (is_text "verified" (get_field "status" fs))

unfoldable pub graduate_entry : String → Json → Json
unfolding graduates
graduate_entry sha (object fs) =
    if graduates sha fs then object (put_field "status" (text "verified") fs) else object fs
graduate_entry sha other = other

unfoldable pub entry_graduates : String → Json → Bool
unfolding graduates
entry_graduates sha (object fs) = graduates sha fs
entry_graduates sha other = false

unfoldable pub graduate_all : String → List Json → List Json
unfolding graduate_entry
graduate_all sha [] = []
graduate_all sha (j ∷ js) = graduate_entry sha j ∷ graduate_all sha js

-- ORDER BY COALESCE(revision, 0) DESC LIMIT 1
unfoldable pub latest_evidence : String → Db → Option (List Json)
latest_evidence episode_id db =
    elim (first? (
      order_by (λ a b. ltb (get_or b.revision 0) (get_or a.revision 0))
        (select (λ s. s.episode_id == episode_id) db.research_states))) [
          | none ↦ none
          | some s ↦ s.evidence
        ]

unfoldable pub set_evidence : String → List Json → Db → Db
set_evidence episode_id entries db = record db {
  research_states =
      update (λ s. s.episode_id == episode_id && is_some s.lease_id)
        (λ s. record s { evidence = some entries }) db.research_states;
}

unfoldable pub graduate_on_tx : String → String → Option (List Json) → Exec ℕ
unfolding entry_graduates graduate_all set_evidence
graduate_on_tx episode_id sha none = pure 0
graduate_on_tx episode_id sha (some entries) = do
  let graduated = count (entry_graduates sha) entries
  if nat_beq graduated 0
      then pure tt
      else modify (set_evidence episode_id (graduate_all sha entries))
  pure graduated

unfoldable pub graduate_delivered_evidence : String → String → Exec ℕ
unfolding latest_evidence graduate_on_tx
graduate_delivered_evidence episode_id sha =
    transaction
      (do entries ← gets (latest_evidence episode_id); graduate_on_tx episode_id sha entries)
