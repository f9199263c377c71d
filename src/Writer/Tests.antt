-- ===== src/Writer/Tests.antt =====
-- A seat registers its state, revises it and logs two entries.
use simple_evolution.Prelude.{refl, none, [], ◌∷◌, string_eq}
use simple_evolution.Json.{text}
use simple_evolution.Writer.Lease.{Registration, lease_row, of_lease, head_id}
use simple_evolution.Writer.LeaseLaws.{Logged, Registered, upsert-Registered, append-Logged}
use simple_evolution.Samples.{studied_db, head_state, world}

abbrev registration : Registration
registration = record {
  lease_id = "a1";
  episode_id = "e1";
  node_id = "n0";
  working_model = "the loop is memory bound";
  evidence = [];
  experiment_log = text "profiled" ∷ [];
  deliverables = [];
  conclusion = none;
  evidence_refs = [];
}

upsert-Registered_example : Registered registration (world studied_db)
unfolding of_lease head_id
upsert-Registered_example = upsert-Registered registration (world studied_db) refl

append-Logged_example :
    Logged "a1" (text "tiled" ∷ text "unrolled" ∷ []) head_state 1 (world studied_db)
unfolding lease_row of_lease
append-Logged_example =
    append-Logged "a1" (text "tiled" ∷ text "unrolled" ∷ []) head_state 1 (world studied_db) refl
      refl
