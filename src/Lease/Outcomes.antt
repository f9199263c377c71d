-- ===== src/Lease/Outcomes.antt =====
-- What the state machine means for one lease, over any calls.
use simple_evolution.Prelude.{
  ℕ, ◌≤◌, String, false, any, ◌≡◌, some, List, [], ◌∷◌, arith, string_eq,
}
use simple_evolution.Db.Rows.{ProposerAllocation, Conclusion, concluded}
use simple_evolution.Db.State.{World}
use simple_evolution.Db.Select.{get_allocation}
use simple_evolution.Db.Update.{finished_row}
use simple_evolution.Lease.Machine.{
  LeaseStep, same, deliver, deliver_reopened, deliver_unfinished, send_back, resume, conclude,
}
use simple_evolution.Lease.History.{
  LeaseCall, call, closes, CallStep, by_step, expire, call-Advances,
}

pub run : ℕ → List LeaseCall → World → World
run m [] w = w
run m (c ∷ cs) w = run m cs (call m c w)

-- What a lease keeps, and how its reopens are counted.
pub record Continues (m : ℕ) (a b : ProposerAllocation) : Type 0 where
  pub node : b.node_id ≡ a.node_id
  pub episode : b.episode_id ≡ a.episode_id
  pub reserved : b.reserved_proposal_ids ≡ a.reserved_proposal_ids
  pub decision : b.decision_id ≡ a.decision_id
  pub counted : a.reopen_count ≤ b.reopen_count
  pub bounded : b.reopen_count ≤ m

step-Continues :
    (m : ℕ) (a b : ProposerAllocation) → LeaseStep m a b → a.reopen_count ≤ m → Continues m a b
unfolding finished_row
step-Continues m a b (same e) h = ground arith
step-Continues m a b (deliver o q e) h = ground arith
step-Continues m a b (deliver_reopened o q e) h = ground arith
step-Continues m a b (deliver_unfinished c o q e) h = ground arith
step-Continues m a b (send_back o s l e) h = ground arith
step-Continues m a b (resume s e) h = ground arith
step-Continues m a b (conclude c n t o e) h = ground arith

call-Continues :
    (m : ℕ) (c : LeaseCall) (i : String) (a b : ProposerAllocation)
    → CallStep m c i a b
    → a.reopen_count ≤ m
    → Continues m a b
unfolding finished_row
call-Continues m c i a b (by_step s) h = step-Continues m a b s h
call-Continues m c i a b (expire n now k e) h = ground arith

Continues-trans :
    (m : ℕ) (a b c : ProposerAllocation) → Continues m a b → Continues m b c → Continues m a c
Continues-trans m a b c p q = ground arith

-- After any calls a lease whose reopen count was within the limit is still there, with its node,
-- its episode, its reserved ids and the decision that bought it; its reopen count has not fallen
-- and is still within the limit.
pub run-Continues :
    (m : ℕ) (cs : List LeaseCall) (w : World) (i : String) (a : ProposerAllocation)
    → get_allocation i w.db ≡ some a
    → a.reopen_count ≤ m
    → (b : ProposerAllocation) × (get_allocation i (run m cs w).db ≡ some b) × Continues m a b
unfolding run
run-Continues m [] w i a h bounded = (a, h, ground arith)
run-Continues m (c ∷ cs) w i a h bounded =
    let (b, hb, step) = call-Advances m c w i a h in
    let p = call-Continues m c i a b step bounded in
    let (d, hd, q) = run-Continues m cs (call m c w) i b hb p.bounded in
    (d, hd, Continues-trans m a b d p q)

final_step :
    (m : ℕ) (a b : ProposerAllocation) (t : ℕ) (outcome : Conclusion)
    → a.finished_at ≡ some t
    → a.state ≡ some (concluded outcome)
    → LeaseStep m a b
    → b ≡ a
final_step m a b t outcome f s (same e) = e
final_step m a b t outcome f s (deliver o q e) = cc
final_step m a b t outcome f s (deliver_reopened o q e) = cc
final_step m a b t outcome f s (deliver_unfinished c o q e) = cc
final_step m a b t outcome f s (send_back o q l e) = cc
final_step m a b t outcome f s (resume q e) = cc
final_step m a b t outcome f s (conclude c n u o e) = cc

final_call :
    (m : ℕ) (c : LeaseCall) (i : String) (a b : ProposerAllocation) (t : ℕ) (outcome : Conclusion)
    → closes i c ≡ false
    → a.finished_at ≡ some t
    → a.state ≡ some (concluded outcome)
    → CallStep m c i a b
    → b ≡ a
final_call m c i a b t outcome other f s (by_step step) = final_step m a b t outcome f s step
final_call m c i a b t outcome other f s (expire n now k e) = cc

-- A lease that is finished with an outcome keeps its row as it is, whatever calls follow, if none
-- of them is a close of that lease without an outcome.
pub run_concluded :
    (m : ℕ) (cs : List LeaseCall) (w : World) (i : String) (a : ProposerAllocation) (t : ℕ)
    (outcome : Conclusion)
    → get_allocation i w.db ≡ some a
    → a.finished_at ≡ some t
    → a.state ≡ some (concluded outcome)
    → any (closes i) cs ≡ false
    → get_allocation i (run m cs w).db ≡ some a
unfolding run
run_concluded m [] w i a t outcome h f s others = h
run_concluded m (c ∷ cs) w i a t outcome h f s others =
    let (b, hb, step) = call-Advances m c w i a h in
    let other : closes i c ≡ false = ground (arith, others) in
    run_concluded m cs (call m c w) i a t outcome
      (cc (hb, final_call m c i a b t outcome other f s step)) f s (ground (arith, others))
