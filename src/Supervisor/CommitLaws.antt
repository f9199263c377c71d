-- ===== src/Supervisor/CommitLaws.antt =====
-- What `commit_supervisor_decision` does with a judgment on every path.
use simple_evolution.Prelude.{
  ℕ, suc, ◌+◌, ◌≤◌, max, true, false, ◌≡◌, List, [], ◌∷◌, ◌++◌, arith, nat_beq, string_eq, ◌⊎◌, inl,
  inr,
}
use simple_evolution.Json.{Json}
use simple_evolution.Db.Rows.{EventType, SupervisorEvent, DecisionKind}
use simple_evolution.Db.State.{Db, World, event_head}
use simple_evolution.Db.Exec.{done, raised, transaction, stale_decision}
use simple_evolution.Db.Insert.{insert_supervisor_event}
use simple_evolution.Supervisor.Events.{
  emit_supervisor_event, supervisor_event_head, supervisor_event_cursor, pending_supervisor_events,
}
use simple_evolution.Supervisor.Commit.{
  Judgment, SupervisorCommit, check_judgment, commit_supervisor_decision, commit_on_tx, is_decided,
  replay, bought_leases,
}
use simple_evolution.Supervisor.CommitReturns.{
  check_judgment_lem, Decided, nothing_pending, is_decided-append, commit-returns,
}

-- The answer to a decision that has been committed before.
abbrev pub replayed_commit : Judgment → Db → SupervisorCommit
replayed_commit j db = record {
  decision_id = j.decision_id;
  replayed = true;
  allocations = bought_leases j.decision_id db;
}

-- A checked judgment whose decision is not yet there, and whose cursor is not the newest wake
-- event, raises StaleSupervisorDecision with the head, and the world stays as it was.
commit-stale :
    (j : Judgment) (kind : DecisionKind) (w : World)
    → check_judgment j w ≡ done kind w
    → is_decided j.decision_id w.db ≡ false
    → nat_beq (supervisor_event_head w.db) j.cursor_to ≡ false
    → commit_supervisor_decision j w ≡ raised (stale_decision (supervisor_event_head w.db)) w
unfolding commit_supervisor_decision commit_on_tx transaction
commit-stale j kind w h d s = ground arith

-- A checked judgment whose decision is there already is answered with the leases it bought,
-- whatever the newest event is, and the world stays as it was.
commit-replay :
    (j : Judgment) (kind : DecisionKind) (w : World)
    → check_judgment j w ≡ done kind w
    → is_decided j.decision_id w.db ≡ true
    → commit_supervisor_decision j w ≡ done (replayed_commit j w.db) w
unfolding commit_supervisor_decision commit_on_tx transaction replay
commit-replay j kind w h d = ground arith

-- After a commit that carries out a decision every wake event there is has been consumed: the
-- cursor is the head, which has not moved, and no event is pending.
pub commit-consumes :
    (j : Judgment) (w : World) (c : SupervisorCommit) (v : World)
    → commit_supervisor_decision j w ≡ done c v
    → c.replayed ≡ false
    → (supervisor_event_cursor v.db ≡ supervisor_event_head w.db)
      × (supervisor_event_head v.db ≡ supervisor_event_head w.db)
      × (pending_supervisor_events v.db ≡ [])
unfolding supervisor_event_cursor supervisor_event_head
commit-consumes j w c v h fresh = let (kind, q, r) = commit-returns j w c v h in go r
  where
    go :
        {kind : DecisionKind}
        → ((is_decided j.decision_id w.db ≡ true) × (v ≡ w) × (c.replayed ≡ true))
          ⊎ ((supervisor_event_head w.db ≡ j.cursor_to) × Decided j kind w.db v.db c)
        → (supervisor_event_cursor v.db ≡ supervisor_event_head w.db)
          × (supervisor_event_head v.db ≡ supervisor_event_head w.db)
          × (pending_supervisor_events v.db ≡ [])
    go (inl (d, e, r)) = cc
    go (inr (head, d)) =
        (ground arith, ground arith, nothing_pending v.db j.cursor_to d.cursor (ground arith))

-- A commit that has returned can be delivered again: the second delivery answers with the leases
-- the decision bought and leaves the world as it is.
pub commit-again :
    (j : Judgment) (w : World) (c : SupervisorCommit) (v : World)
    → commit_supervisor_decision j w ≡ done c v
    → commit_supervisor_decision j v ≡ done (replayed_commit j v.db) v
commit-again j w c v h =
    let (kind, q, r) = commit-returns j w c v h in
    commit-replay j kind v (check_judgment_lem j w v kind w q).1 (go r)
  where
    go :
        {kind : DecisionKind}
        → ((is_decided j.decision_id w.db ≡ true) × (v ≡ w) × (c.replayed ≡ true))
          ⊎ ((supervisor_event_head w.db ≡ j.cursor_to) × Decided j kind w.db v.db c)
        → is_decided j.decision_id v.db ≡ true
    go (inl (d, e, r)) = cc
    go {kind} (inr (head, d)) = is_decided-append j kind w.db v.db d.row.0 d.row.1

event_head-append :
    (es : List SupervisorEvent) (e : SupervisorEvent)
    → event_head (es ++ (e ∷ [])) ≡ max (event_head es) e.event_id
event_head-append [] e = omega arith
event_head-append (x ∷ es) e = omega (arith, event_head-append es e)

-- Writing a wake event returns the next id, which becomes the head. A judgment that passes the
-- checks, whose decision is not there yet and whose cursor is at most the old head, raises
-- StaleSupervisorDecision after it and changes nothing.
pub emit-stale :
    (type : EventType) (payload : Json) (w : World) (j : Judgment) (kind : DecisionKind) (n : ℕ)
    (v : World)
    → emit_supervisor_event type payload w ≡ done n v
    → check_judgment j w ≡ done kind w
    → is_decided j.decision_id w.db ≡ false
    → j.cursor_to ≤ supervisor_event_head w.db
    → (n ≡ suc (supervisor_event_head w.db))
      × (supervisor_event_head v.db ≡ n)
      × (commit_supervisor_decision j v ≡ raised (stale_decision n) v)
unfolding emit_supervisor_event transaction insert_supervisor_event supervisor_event_head is_decided
emit-stale type payload w j kind n v h q d le = (
  ground (arith, head),
  ground (arith, head),
  cc (
    commit-stale j kind v (check_judgment_lem j w v kind w q).1 (ground arith)
        (ground (arith, head)),
    returned,
  ),
)
  where
    e : SupervisorEvent
    e = record {
      event_id = event_head w.supervisor_events + 1;
      type = type;
      payload = payload;
      created_at = w.clock w.readings;
    }

    head : event_head (w.supervisor_events ++ (e ∷ [])) ≡ event_head w.supervisor_events + 1
    head = omega (arith, event_head-append w.supervisor_events e)

    returned : n ≡ supervisor_event_head v.db
    returned = ground (arith, head)
