-- ===== src/Lease/Tests.antt =====
-- Runs of the lease on a small store.
use simple_evolution.Prelude.{◌≡◌, refl, none, some, [], ◌∷◌, true, arith, List}
use simple_evolution.Text.{show, split}
use simple_evolution.Json.{Dict, text, null}
use simple_evolution.Db.Rows.{ProposerAllocation, abstain}
use simple_evolution.Db.Select.{get_allocation}
use simple_evolution.Lease.History.{
  LeaseCall, CallAdvances, deallocates, ingests, reactivates, concludes, call, call-Advances,
}
use simple_evolution.Lease.Outcomes.{run, Continues, run-Continues, run_concluded}
use simple_evolution.Samples.{open_lease, closed_lease, studied_db, world}

show_120 : show 120 ≡ "120"
unfolding show
show_120 = refl

split_words : split "  two words " ≡ "two" ∷ "words" ∷ []
unfolding split
split_words = refl

abbrev abstention : Dict
abstention = ("kind", text "abstain") ∷ ("node_id", text "n0") ∷ ("episode_id", text "e1") ∷ []

abbrev delivery : Dict
delivery =
    ("kind", text "deliver")
    ∷ ("node_id", text "n0")
    ∷ ("episode_id", text "e1")
    ∷ ("world_sha", text "abcdefabcdefabcdefabcdefabcdefabcdefabcd")
    ∷ []

abbrev calls : List LeaseCall
calls =
    ingests "a1" delivery none true 600
    ∷ reactivates "a1"
    ∷ concludes "a1" abstain null null
    ∷ deallocates "a1" 0 none
    ∷ []

call-Advances_example :
    CallAdvances 2
      (ingests "a1" delivery none true 600)
      studied_db
      (call 2 (ingests "a1" delivery none true 600) (world studied_db)).db
call-Advances_example = call-Advances 2 (ingests "a1" delivery none true 600) (world studied_db)

run-Continues_example :
    (b : ProposerAllocation) × (get_allocation "a1" (run 2 calls (world studied_db)).db ≡ some b)
    × Continues 2 open_lease b
unfolding get_allocation
run-Continues_example = run-Continues 2 calls (world studied_db) "a1" open_lease refl (omega arith)

run_concluded_example : get_allocation "a2" (run 2 calls (world studied_db)).db ≡ some closed_lease
unfolding get_allocation
run_concluded_example =
    run_concluded 2 calls (world studied_db) "a2" closed_lease 5 abstain refl refl refl refl
