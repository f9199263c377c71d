-- ===== src/Writer/Lease.antt =====
-- The research state of a lease: one row, which the seat revises. The connection of this writer
-- does not turn foreign keys on.
use simple_evolution.Prelude.{
  ℕ, ◌+◌, String, ◌<>◌, Bool, Option, none, some, List, [], ◌∷◌, ◌++◌, ◌==◌, string_eq, option_eq,
  any, find, update, get_or, if◌then◌else◌,
}
use simple_evolution.Json.{Json}
use simple_evolution.Db.Rows.{ResearchState}
use simple_evolution.Db.State.{Db}
use simple_evolution.Db.Exec.{
  Exec, ◌>>=◌, ◌>>◌, pure, raise_if, or_raise, gets, modify, time, transaction, no_lease_state,
  not_a_number, integrity_error,
}

-- The arguments of a registration; a list that is left out is empty.
pub record Registration : Type 0 where
  pub lease_id : String
  pub episode_id : String
  pub node_id : String
  pub working_model : String
  pub evidence : List Json
  pub experiment_log : List Json
  pub deliverables : List Json
  pub conclusion : Option Json
  pub evidence_refs : List String

-- f"rs-{episode_id}-head"
unfoldable pub head_id : String → String
head_id episode_id = "rs-" <> (episode_id <> "-head")

unfoldable pub of_lease : String → ResearchState → Bool
of_lease i s = s.lease_id == some i

unfoldable pub lease_row : String → Db → Option ResearchState
unfolding of_lease
lease_row i db = find (of_lease i) db.research_states

unfoldable pub update_lease_row : String → (ResearchState → ResearchState) → Db → Db
unfolding of_lease
update_lease_row i f db = record db { research_states = update (of_lease i) f db.research_states }

-- The row with the six blocks replaced, one revision on.
unfoldable pub rewritten : Registration → ResearchState → ResearchState
rewritten a s = record s {
  working_model = a.working_model;
  evidence_refs = a.evidence_refs;
  evidence = some a.evidence;
  experiment_log = some a.experiment_log;
  deliverables = some a.deliverables;
  conclusion = a.conclusion;
  revision = some (get_or s.revision 0 + 1);
}

unfoldable pub first_row : Registration → ℕ → ResearchState
unfolding head_id
first_row a now = record {
  research_state_id = head_id a.episode_id;
  node_id = a.node_id;
  episode_id = a.episode_id;
  derived_from_research_state_id = none;
  transformation_id = none;
  working_model = a.working_model;
  evidence_refs = a.evidence_refs;
  created_at = now;
  evidence = some a.evidence;
  experiment_log = some a.experiment_log;
  deliverables = some a.deliverables;
  conclusion = a.conclusion;
  revision = some 1;
  lease_id = some a.lease_id;
}

unfoldable pub insert_first_row : Registration → ℕ → Exec (Unit {0})
unfolding first_row head_id
insert_first_row a now = do
  taken ← gets (λ db. any (λ s. s.research_state_id == head_id a.episode_id) db.research_states)
  raise_if taken integrity_error
  modify (λ db. record db { research_states = db.research_states ++ (first_row a now ∷ []) })

-- int(row[0]) if row else 1
unfoldable pub revision_of : Option ResearchState → Exec ℕ
revision_of none = pure 1
revision_of (some s) = or_raise s.revision not_a_number

unfoldable pub upsert_on_tx : Registration → ℕ → Exec ℕ
unfolding of_lease lease_row update_lease_row rewritten insert_first_row revision_of
upsert_on_tx a now = do
  there ← gets (λ db. any (of_lease a.lease_id) db.research_states)
  modify (update_lease_row a.lease_id (rewritten a))
  if there then pure tt else insert_first_row a now
  row ← gets (lease_row a.lease_id)
  revision_of row

unfoldable pub upsert_lease_research_state : Registration → Exec ℕ
unfolding upsert_on_tx
upsert_lease_research_state a = do now ← time; transaction (upsert_on_tx a now)

-- NULL + 1 is NULL.
unfoldable pub next_revision : Option ℕ → Option ℕ
next_revision none = none
next_revision (some n) = some (n + 1)

unfoldable pub logged : List Json → ResearchState → ResearchState
unfolding next_revision
logged entries s = record s { experiment_log = some entries; revision = next_revision s.revision }

unfoldable pub append_experiment_log_entry : String → Json → Exec (Unit {0})
unfolding lease_row update_lease_row logged
append_experiment_log_entry lease_id entry = transaction (do
  found ← gets (lease_row lease_id)
  row ← or_raise found (no_lease_state lease_id)
  modify (update_lease_row lease_id (logged (get_or row.experiment_log [] ++ (entry ∷ [])))))
