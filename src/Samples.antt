-- ===== src/Samples.antt =====
-- A small store: a root node with two episodes, an open lease on one and a concluded lease on the
-- other.
use simple_evolution.Prelude.{String, ◌<>◌, none, some, [], ◌∷◌, true}
use simple_evolution.Text.{show}
use simple_evolution.Json.{number}
use simple_evolution.Prelude.Int.{pos}
use simple_evolution.Db.Rows.{
  Node, active, Episode, ProposerAllocation, researching, concluded, abstain, ResearchState,
  GateDecision,
}
use simple_evolution.Db.State.{Db, World, empty_db}

abbrev pub open_gate : GateDecision
open_gate = record { results = []; passed = true }

abbrev pub root : Node
root = record {
  node_id = "n0";
  parent_node_id = none;
  experiment_id = none;
  sha = "0123456789012345678901234567890123456789";
  metrics = ("score", number (pos 3)) ∷ [];
  gate_result = open_gate;
  depth = 0;
  status = active;
  created_at = 1;
}

abbrev pub episode : String → Episode
episode i = record {
  episode_id = i;
  inherited_from_episode_id = none;
  node_id = "n0";
  variation_operator = none;
  created_at = 2;
  last_active_at = 2;
  conclusion_type = none;
  concluded_at = none;
}

abbrev pub open_lease : ProposerAllocation
open_lease = record {
  allocation_id = "a1";
  node_id = "n0";
  episode_id = "e1";
  reserved_proposal_ids = "p1" ∷ [];
  started_at = 3;
  finished_at = none;
  proposals_produced = 0;
  decision_id = none;
  state = some researching;
  reopen_count = 0;
}

abbrev pub closed_lease : ProposerAllocation
closed_lease = record open_lease {
  allocation_id = "a2";
  episode_id = "e2";
  finished_at = some 5;
  state = some (concluded abstain);
}

abbrev pub head_state : ResearchState
head_state = record {
  research_state_id = "rs-e1-head";
  node_id = "n0";
  episode_id = "e1";
  derived_from_research_state_id = none;
  transformation_id = none;
  working_model = "model";
  evidence_refs = [];
  created_at = 4;
  evidence = none;
  experiment_log = none;
  deliverables = none;
  conclusion = none;
  revision = some 1;
  lease_id = some "a1";
}

abbrev pub small_db : Db
small_db = record empty_db {
  nodes = root ∷ [];
  episodes = episode "e1" ∷ episode "e2" ∷ [];
  proposer_allocations = open_lease ∷ closed_lease ∷ [];
}

-- The database in a world whose new ids count up.
abbrev pub world : Db → World
world db = record { db = db; clock = λ n. n; readings = 10; uuid = λ n. "id-" <> show n; drawn = 0 }

abbrev pub studied_db : Db
studied_db = record small_db { research_states = head_state ∷ [] }
