-- ===== src/Supervisor/OneOpen.antt =====
-- At most one integration request is open, as far as decisions go.
use simple_evolution.Prelude.{
  ℕ, ◌+◌, ◌≤◌, String, Bool, true, false, ◌&&◌, ◌≡◌, refl, Option, none, some, List, [], ◌∷◌, arith,
  any, find, count, count-append, ◌==◌, string_eq, subst, sym,
}
use simple_evolution.Db.Rows.{
  IntegrationRequest, is_open_request, DecisionKind, growth, integration_request, epoch_review,
  SupervisorDecision,
}
use simple_evolution.Db.State.{Db, World}
use simple_evolution.Db.Exec.{
  Exec, Outcome, done, raised, ◌>>=◌, ◌>>◌, pure, raise_if, gets, modify, time, after, transaction,
  commit_or_roll_back, request_already_open,
}
use simple_evolution.Db.Select.{get_integration_request}
use simple_evolution.Db.Insert.{
  insert_scheduler_event, create_integration_request, insert_request, new_request,
}
use simple_evolution.Supervisor.Requests.{
  RequestPayload, create_request_on_tx, accept_request, blocked_by_open, created_payload,
}
use simple_evolution.Supervisor.Commit.{
  Judgment, check_judgment, check_payload, commit_supervisor_decision, commit_on_tx, decide, replay,
  enact, present,
}
use simple_evolution.Supervisor.KeepsOne.{
  open_count, KeepsOne, one_rules, one_then, One-bind, same_requests, One-pure, One-allocate_on_tx,
  One-collect, One-apply_review_on_tx,
}

-- No request is open but the one that is asked for, which is not there.
none_open :
    (i : String) (rs : List IntegrationRequest)
    → find (λ r. r.integration_request_id == i) rs ≡ none
    → any (λ r. is_open_request r.status && r.integration_request_id == i) rs ≡ false
none_open i [] h = refl
none_open i (r ∷ rs) h = ground (arith, h, none_open i rs)

count-none_open :
    (rs : List IntegrationRequest)
    → any (λ r. is_open_request r.status) rs ≡ false
    → count (λ r. is_open_request r.status) rs ≡ 0
count-none_open [] h = refl
count-none_open (r ∷ rs) h = ground (arith, h, count-none_open rs)

no_open :
    (i : String) (db : Db)
    → blocked_by_open i db ≡ false
    → get_integration_request i db ≡ none
    → open_count db ≡ 0
unfolding blocked_by_open get_integration_request
no_open i db q f =
    count-none_open db.integration_requests
      (ground (arith, q, none_open i db.integration_requests f))

count-inserted :
    (rid epoch_id target : String) (donors : List String) (why : String) (w : World)
    → open_count (after (create_integration_request rid epoch_id target donors why w)).db
      ≤ open_count w.db + 1
unfolding create_integration_request insert_request new_request
count-inserted rid epoch_id target [] why w = omega arith
count-inserted rid epoch_id target (d ∷ ds) why w = ground (
  arith,
  count-append (λ r. is_open_request r.status) w.integration_requests
      (new_request rid epoch_id target (d ∷ ds) why (w.clock w.readings) ∷ []),
)

announce : IntegrationRequest → Exec IntegrationRequest
announce created = do
  now ← time
  insert_scheduler_event "integration_request_created" (created_payload created) now
  pure created

One-announce : (created : IntegrationRequest) → KeepsOne (announce created)
unfolding announce
One-announce created = search one_rules depth 20

One-accept_some :
    (p : RequestPayload) (r : IntegrationRequest) → KeepsOne (accept_request p (some r))
unfolding accept_request
One-accept_some p r = search one_rules

One-create_request_on_tx : (p : RequestPayload) → KeepsOne (create_request_on_tx p)
unfolding create_request_on_tx accept_request announce
One-create_request_on_tx p = record {
  at = λ w le.
      go w le (blocked_by_open p.integration_request_id w.db) refl
        (get_integration_request p.integration_request_id w.db) refl;
}
  where
    accepted :
        (w : World) → open_count w.db ≡ 0 → open_count (after (accept_request p none w)).db ≤ 1
    accepted w zero_open =
        one_then
          (create_integration_request p.integration_request_id p.epoch_id p.target_node_id
            p.donor_experiment_ids p.selection_rationale w)
          announce
          (omega (
            arith,
            zero_open,
            count-inserted p.integration_request_id p.epoch_id p.target_node_id
                p.donor_experiment_ids p.selection_rationale w,
          ))
          One-announce

    go :
        (w : World)
        → open_count w.db ≤ 1
        → (b : Bool) → blocked_by_open p.integration_request_id w.db ≡ b
        → (o : Option IntegrationRequest)
        → get_integration_request p.integration_request_id w.db ≡ o
        → open_count
            (after (
              (raise_if b request_already_open
                  >> (gets (get_integration_request p.integration_request_id) >>= accept_request p))
                w)).db
          ≤ 1
    go w le true q o f = le
    go w le false q (some r) f =
        subst (λ x. open_count (after (accept_request p x w)).db ≤ 1) (sym f)
          ((One-accept_some p r).at w le)
    go w le false q none f =
        subst (λ x. open_count (after (accept_request p x w)).db ≤ 1) (sym f)
          (accepted w (no_open p.integration_request_id w.db q f))

One-enact : (j : Judgment) (kind : DecisionKind) → KeepsOne (enact j kind)
unfolding enact
One-enact j growth =
    One-bind
      (One-collect j.leases _
        λ spec. One-allocate_on_tx spec j.max_proposals_per_node (some j.decision_id))
      λ seats. One-pure (present seats)
One-enact j integration_request = search (one_rules, One-create_request_on_tx) depth 20
One-enact j epoch_review = search (one_rules, One-apply_review_on_tx) depth 20

One-decisions :
    (f : Db → List SupervisorDecision)
    → KeepsOne (modify (λ db. record db { supervisor_decisions = f db }))
One-decisions f = same_requests _ λ w. refl

One-cursor : (n : ℕ) → KeepsOne (modify (λ db. record db { supervisor_cursor = some n }))
One-cursor n = same_requests _ λ w. refl

One-decide : (j : Judgment) (kind : DecisionKind) → KeepsOne (decide j kind)
unfolding decide
One-decide j kind = search (one_rules, One-decisions, One-cursor, One-enact) depth 30

One-replay : (j : Judgment) → KeepsOne (replay j)
unfolding replay
One-replay j = search one_rules

One-commit_on_tx : (j : Judgment) (kind : DecisionKind) → KeepsOne (commit_on_tx j kind)
unfolding commit_on_tx
One-commit_on_tx j kind = search (one_rules, One-decide, One-replay) depth 20

One-transaction : {A : Type 0} (body : Exec A) → KeepsOne body → KeepsOne (transaction body)
unfolding transaction
One-transaction {A} body h = record { at = λ w le. go w le (body w) (h.at w le) }
  where
    go :
        (w : World)
        → open_count w.db ≤ 1
        → (o : Outcome A) → open_count (after o).db ≤ 1
        → open_count (after (commit_or_roll_back w.db o)).db ≤ 1
    go w le (done a v) k = k
    go w le (raised e v) k = le

One-check_judgment : (j : Judgment) → KeepsOne (check_judgment j)
unfolding check_judgment check_payload
One-check_judgment j = same_requests _ λ w. ground arith

-- A judgment, accepted or refused, keeps at most one integration request open, if at most one
-- was.
pub commit-one_open :
    (j : Judgment) (w : World)
    → open_count w.db ≤ 1
    → open_count (after (commit_supervisor_decision j w)).db ≤ 1
unfolding commit_supervisor_decision
commit-one_open j w le =
    (One-bind (One-check_judgment j)
        λ kind. One-transaction (commit_on_tx j kind) (One-commit_on_tx j kind)).at
      w le
