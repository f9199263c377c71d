-- ===== src/Lease/Minting.antt =====
-- The statements of a delivery touch no lease but their own.
use simple_evolution.Prelude.{
  ℕ, String, refl, Bool, true, false, inr, Option, none, some, arith, string_eq,
}
use simple_evolution.Json.{Dict}
use simple_evolution.Db.Rows.{
  ProposerAllocation, Proposal, ExperimentStatus, awaiting_adjudication, ResearchState,
}
use simple_evolution.Db.Exec.{modify, pure, ◌>>◌}
use simple_evolution.Db.Insert.{create_proposal, create_experiment}
use simple_evolution.Db.Update.{update_attempt_status, update_allocations, set_lease_state}
use simple_evolution.Lease.Deliver.{
  IngestKind, deliver, mint, redeliver, close_attempt, start_eval, check_world, check_delivery,
}
use simple_evolution.Lease.Frame.{
  leases-create_proposal, leases-create_experiment, leases-create_attempt, Frames, Touches,
  Touches-bind, frame_rules, leases-open_resource,
}

pub start_eval-Frames :
    (b : Bool) (a : ProposerAllocation) (i : String) (now : ℕ) → Frames (start_eval b a i now)
unfolding start_eval
start_eval-Frames false a i now = record { at = λ w. refl }
start_eval-Frames true a i now = record {
  at = λ w. grind (arith, leases-create_attempt, leases-open_resource);
}

abbrev pub awaiting : ProposerAllocation → ProposerAllocation
awaiting x = record x { state = some awaiting_adjudication }

pub create_proposal-Frames : (p : Proposal) → Frames (create_proposal p)
create_proposal-Frames p = record { at = leases-create_proposal p }

pub create_experiment-Frames :
    (i p n : String) (s : ExperimentStatus) → Frames (create_experiment i p n s)
create_experiment-Frames i p n s = record { at = leases-create_experiment i p n s }

pub awaits-Touches :
    {A : Type 0} (i : String) (a : A)
    → Touches i awaiting (modify (set_lease_state i awaiting_adjudication) >> pure a)
unfolding set_lease_state update_allocations
awaits-Touches i a = record { at = λ w. inr refl }

pub mint-Touches :
    (sha : String) (c : Dict) (a : ProposerAllocation) (head : ResearchState) (b : Bool) (now : ℕ)
    → Touches a.allocation_id awaiting (mint sha c a head b now)
unfolding mint
mint-Touches sha c a head b now = search (
  Touches-bind, create_proposal-Frames, create_experiment-Frames, start_eval-Frames, awaits-Touches,
)

pub redeliver-Touches : (a : ProposerAllocation) → Touches a.allocation_id awaiting (redeliver a)
unfolding redeliver
redeliver-Touches a = search (Touches-bind, frame_rules, awaits-Touches)

pub check_world-Frames : (k : IngestKind) (c : Dict) (cap : ℕ) → Frames (check_world k c cap)
unfolding check_world check_delivery
check_world-Frames deliver c cap = search frame_rules depth 20
check_world-Frames _ c cap = search frame_rules depth 20

pub close_attempt-Frames : (o : Option String) (now : ℕ) → Frames (modify (close_attempt o now))
unfolding close_attempt update_attempt_status
close_attempt-Frames none now = record { at = λ w. refl }
close_attempt-Frames (some i) now = record { at = λ w. refl }
