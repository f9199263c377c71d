-- ===== src/Supervisor/CommitReturns.antt =====
-- What a judgment that is committed leaves in the tables of the gate.
use simple_evolution.Prelude.{
  ℕ, suc, ◌≤◌, Bool, true, false, ◌≡◌, refl, some, List, [], ◌∷◌, ◌++◌, arith, any, select, nat_beq,
  ltb, ◌==◌, string_eq, eq_refl, ◌⊎◌, if◌then◌else◌, inl, inr,
}
use simple_evolution.Db.Rows.{SupervisorEvent, DecisionKind, ProposerAllocation}
use simple_evolution.Db.State.{Db, World, event_head}
use simple_evolution.Db.Exec.{
  Exec, Outcome, done, raised, and_then, ◌>>=◌, ◌>>◌, pure, raise, time, modify, after, transaction,
  stale_decision,
}
use simple_evolution.Db.Insert.{insert_scheduler_event}
use simple_evolution.Db.Laws.{transaction-done}
use simple_evolution.Supervisor.Events.{
  supervisor_event_head, supervisor_event_cursor, pending_supervisor_events,
}
use simple_evolution.Supervisor.Commit.{
  Judgment, SupervisorCommit, check_judgment, check_payload, commit_supervisor_decision,
  commit_on_tx, is_decided, replay, decide, decision_row, enact, accepted_payload,
}
use simple_evolution.Supervisor.Quiet.{SameGate, Quiet-enact}

-- The checks read the judgment only.
pub check_judgment_lem :
    (j : Judgment) (w v : World) (kind : DecisionKind) (u : World)
    → check_judgment j w ≡ done kind u
    → (u ≡ w) × (check_judgment j v ≡ done kind v)
unfolding check_judgment check_payload
check_judgment_lem j w v kind u h = ground arith

-- The statements of `decide` after its side effects.
finish : Judgment → List ProposerAllocation → Exec SupervisorCommit
finish j created = do
  modify (λ db. record db { supervisor_cursor = some j.cursor_to })
  at ← time
  insert_scheduler_event "supervisor_decision_accepted" (accepted_payload j) at
  pure (record { decision_id = j.decision_id; replayed = false; allocations = created })

-- What a decision that is carried out leaves in the tables of the gate.
pub record Decided (j : Judgment) (kind : DecisionKind) (a b : Db) (c : SupervisorCommit)
    : Type 0 where
  pub events : b.supervisor_events ≡ a.supervisor_events
  pub cursor : b.supervisor_cursor ≡ some j.cursor_to
  pub row :
      (now : ℕ) × (b.supervisor_decisions
        ≡ a.supervisor_decisions ++ (decision_row j kind now ∷ []))
  pub fresh : c.replayed ≡ false

finish-Decided :
    (j : Judgment) (kind : DecisionKind) (a : Db) (now : ℕ) (o : Outcome (List ProposerAllocation))
    (c : SupervisorCommit) (v : World)
    → (after o).supervisor_events ≡ a.supervisor_events
    → (after o).supervisor_decisions ≡ a.supervisor_decisions ++ (decision_row j kind now ∷ [])
    → and_then o (finish j) ≡ done c v
    → Decided j kind a v.db c
unfolding finish insert_scheduler_event
finish-Decided j kind a now (done created u) c v e d h = record {
  events = ground arith;
  cursor = ground arith;
  row = (now, ground arith);
  fresh = ground arith;
}
finish-Decided j kind a now (raised x u) c v e d h = cc

decide-Decided :
    (j : Judgment) (kind : DecisionKind) (w : World) (c : SupervisorCommit) (v : World)
    → decide j kind w ≡ done c v
    → Decided j kind w.db v.db c
unfolding decide finish
decide-Decided j kind w c v =
    finish-Decided j kind w.db now (enact j kind judged) c v q.events q.decisions
  where
    now : ℕ
    now = w.clock w.readings

    judged : World
    judged = record w {
      readings = suc w.readings;
      db = record w.db {
        supervisor_decisions = w.supervisor_decisions ++ (decision_row j kind now ∷ []);
      };
    }

    q : SameGate judged.db (after (enact j kind judged)).db
    q = (Quiet-enact j kind).at judged

commit_on_tx-returns :
    (j : Judgment) (kind : DecisionKind) (w : World) (c : SupervisorCommit) (v : World)
    → commit_on_tx j kind w ≡ done c v
    → ((is_decided j.decision_id w.db ≡ true) × (v ≡ w) × (c.replayed ≡ true))
      ⊎ ((supervisor_event_head w.db ≡ j.cursor_to) × Decided j kind w.db v.db c)
unfolding commit_on_tx replay
commit_on_tx-returns j kind w c v =
    go (is_decided j.decision_id w.db) refl (nat_beq (supervisor_event_head w.db) j.cursor_to) refl
  where
    go :
        (b : Bool)
        → is_decided j.decision_id w.db ≡ b
        → (s : Bool) → nat_beq (supervisor_event_head w.db) j.cursor_to ≡ s
        → (if b
              then replay j
              else if s
              then decide j kind
              else raise (stale_decision (supervisor_event_head w.db)))
            w
          ≡ done c v
        → ((is_decided j.decision_id w.db ≡ true) × (v ≡ w) × (c.replayed ≡ true))
          ⊎ ((supervisor_event_head w.db ≡ j.cursor_to) × Decided j kind w.db v.db c)
    go true d s q h = inl (d, ground arith, ground arith)
    go false d true q h = inr (ground arith, decide-Decided j kind w c v h)
    go false d false q h = cc

-- No event is newer than a cursor at the head.
select-none :
    (es : List SupervisorEvent) (n : ℕ) → event_head es ≤ n → select (λ e. ltb n e.event_id) es ≡ []
select-none [] n h = refl
select-none (e ∷ es) n h = ground (arith, select-none es n)

pub nothing_pending :
    (db : Db) (n : ℕ)
    → db.supervisor_cursor ≡ some n
    → event_head db.supervisor_events ≤ n
    → pending_supervisor_events db ≡ []
unfolding pending_supervisor_events supervisor_event_cursor
nothing_pending db n c h = ground (arith, select-none db.supervisor_events n h)

any-last :
    {A : Type 0} (p : A → Bool) (xs : List A) (a : A) → p a ≡ true → any p (xs ++ (a ∷ [])) ≡ true
any-last p [] a h = ground arith
any-last p (x ∷ xs) a h = ground (arith, any-last p xs a h)

pub is_decided-append :
    (j : Judgment) (kind : DecisionKind) (a b : Db) (now : ℕ)
    → b.supervisor_decisions ≡ a.supervisor_decisions ++ (decision_row j kind now ∷ [])
    → is_decided j.decision_id b ≡ true
unfolding is_decided decision_row
is_decided-append j kind a b now h = ground (
  arith,
  h,
  any-last (λ d. d.decision_id == j.decision_id) a.supervisor_decisions (decision_row j kind now)
      (eq_refl j.decision_id),
)

-- A commit that returns has found the decision, or has carried it out on the newest evidence.
pub commit-returns :
    (j : Judgment) (w : World) (c : SupervisorCommit) (v : World)
    → commit_supervisor_decision j w ≡ done c v
    → (kind : DecisionKind) × (check_judgment j w ≡ done kind w)
      × (((is_decided j.decision_id w.db ≡ true) × (v ≡ w) × (c.replayed ≡ true))
          ⊎ ((supervisor_event_head w.db ≡ j.cursor_to) × Decided j kind w.db v.db c))
unfolding commit_supervisor_decision
commit-returns j w c v = checked (check_judgment j w) refl
  where
    Result : Type 0
    Result =
        (kind : DecisionKind) × (check_judgment j w ≡ done kind w)
        × (((is_decided j.decision_id w.db ≡ true) × (v ≡ w) × (c.replayed ≡ true))
            ⊎ ((supervisor_event_head w.db ≡ j.cursor_to) × Decided j kind w.db v.db c))

    result :
        (kind : DecisionKind)
        → check_judgment j w ≡ done kind w
        → commit_on_tx j kind w ≡ done c v
        → Result
    result kind q h = (kind, q, commit_on_tx-returns j kind w c v h)

    checked :
        (o : Outcome DecisionKind)
        → check_judgment j w ≡ o
        → and_then o (λ kind. transaction (commit_on_tx j kind)) ≡ done c v
        → Result
    checked (done kind u) q h =
        let same = (check_judgment_lem j w w kind u q).0 in
        result kind (cc (q, same)) (cc (transaction-done (commit_on_tx j kind) u c v h, same))
    checked (raised x u) q h = cc
