-- ===== src/Supervisor/ReviewLaws.antt =====
-- What a review does with the request and with the epochs.
use simple_evolution.Prelude.{
  ℕ, String, ◌<>◌, true, false, ◌≡◌, refl, Option, none, some, [], ◌∷◌, ◌++◌, arith, update,
  find-holds, find-update, ◌==◌, string_eq, eq_iff, eq_refl,
}
use simple_evolution.Text.{strip}
use simple_evolution.Db.Rows.{
  Epoch, IntegrationRequest, RequestStatus, closed, promoted, is_submitted,
}
use simple_evolution.Db.State.{Db, World}
use simple_evolution.Db.Exec.{done, raised, review_needs_candidate}
use simple_evolution.Db.Select.{get_integration_request}
use simple_evolution.Db.Insert.{insert_scheduler_event}
use simple_evolution.Supervisor.Requests.{update_requests}
use simple_evolution.Supervisor.Review.{
  ReviewPayload, ReviewAction, promote, retain, action_of, apply_review_on_tx, review_candidate,
  reviewed, is_empty, open_epoch, check_epoch, current_epoch, insert_epoch, next_epoch,
  close_request,
}

-- The status that a review gives the request.
abbrev pub verdict : ReviewAction → RequestStatus
verdict promote = promoted
verdict retain = closed

-- The epochs after a review.
pub data EpochsAfter (child : String) (a b : Db) : ReviewAction → Type 0 where
  opened :
      (current e : Epoch)
      → current_epoch a ≡ some current
      → e.root_node_id ≡ child
      → e.previous_epoch_id ≡ some current.epoch_id
      → b.epochs ≡ a.epochs ++ (e ∷ [])
      → EpochsAfter child a b promote
  kept : b.epochs ≡ a.epochs → EpochsAfter child a b retain

check_epoch_lem :
    (r : IntegrationRequest) (o : Option Epoch) (w : World) (e : Epoch) (u : World)
    → check_epoch r o w ≡ done e u
    → (o ≡ some e) × (u ≡ w)
unfolding check_epoch
check_epoch_lem r none w e u h = cc
check_epoch_lem r (some x) w e u h = ground arith

-- What a review does to the tables that it is about.
record Judged (r : IntegrationRequest) (child : String) (a : ReviewAction) (w v : Db) : Type 0 where
  epochs : EpochsAfter child w v a
  now : ℕ
  requests :
      v.integration_requests
      ≡ update
          (λ x. x.integration_request_id == r.integration_request_id)
          (λ x. record x { status = verdict a; closed_at = some now })
          w.integration_requests

review_candidate_lem :
    (p : ReviewPayload) (a : ReviewAction) (r : IntegrationRequest) (child : String) (w v : World)
    → review_candidate p a r child w ≡ done tt v
    → Judged r child a w.db v.db
unfolding review_candidate close_request update_requests insert_scheduler_event open_epoch
    insert_epoch next_epoch check_epoch
review_candidate_lem p promote r child w v h = go (current_epoch w.db) refl
  where
    now : ℕ
    now = w.clock w.readings

    go : (o : Option Epoch) → current_epoch w.db ≡ o → Judged r child promote w.db v.db
    go none e = cc
    go (some current) e = record {
      epochs =
          opened current (next_epoch ("epoch-" <> w.uuid w.drawn) child current now) e refl refl
            (ground arith);
      now = now;
      requests = ground arith;
    }
review_candidate_lem p retain r child w v h = record {
  epochs = kept (ground arith);
  now = w.clock w.readings;
  requests = ground arith;
}

-- The candidate that a review finds is the request asked for, and it is submitted.
reviewed_lem :
    (i : String) (db : Db) (r : IntegrationRequest) (child : String)
    → reviewed (get_integration_request i db) db ≡ some (r, child)
    → (get_integration_request i db ≡ some r)
      × (r.integration_request_id ≡ i)
      × (is_submitted r.status ≡ true)
unfolding reviewed get_integration_request
reviewed_lem i db r child = go (get_integration_request i db) refl
  where
    go :
        (o : Option IntegrationRequest)
        → get_integration_request i db ≡ o
        → reviewed o db ≡ some (r, child)
        → (o ≡ some r) × (r.integration_request_id ≡ i) × (is_submitted r.status ≡ true)
    go none e h = cc
    go (some x) e h = ground (
      arith,
      find-holds (λ y. y.integration_request_id == i) db.integration_requests x e,
      eq_iff x.integration_request_id i,
    )

-- A review as it was applied to the candidate it names.
pub record Applied (p : ReviewPayload) (w v : Db) : Type 0 where
  pub request : IntegrationRequest
  pub child : String
  pub action : ReviewAction
  pub at : ℕ
  pub asked : action_of (strip p.action) ≡ some action
  pub candidate :
      reviewed (get_integration_request (strip p.integration_request_id) w) w
      ≡ some (request, child)
  pub epochs : EpochsAfter child w v action
  pub after_review :
      get_integration_request (strip p.integration_request_id) v
      ≡ some (record request { status = verdict action; closed_at = some at })

applied :
    (p : ReviewPayload) (a : ReviewAction) (r : IntegrationRequest) (child : String) (w v : Db)
    → action_of (strip p.action) ≡ some a
    → reviewed (get_integration_request (strip p.integration_request_id) w) w ≡ some (r, child)
    → Judged r child a w v
    → Applied p w v
unfolding get_integration_request
applied p a r child w v e f d =
    let (g, i, s) = reviewed_lem (strip p.integration_request_id) w r child f in
    record {
      request = r;
      child = child;
      action = a;
      at = d.now;
      asked = e;
      candidate = f;
      epochs = d.epochs;
      after_review = ground (
        arith,
        d.requests,
        i,
        g,
        eq_refl r.integration_request_id,
        find-update (λ x. x.integration_request_id == strip p.integration_request_id)
            (λ x. x.integration_request_id == r.integration_request_id)
            (λ x. record x { status = verdict a; closed_at = some d.now }) (λ x. refl)
            w.integration_requests r g,
      );
    }

-- A review that is accepted names a submitted candidate. A promotion opens one epoch, rooted at
-- the candidate's child and following the epoch that was current; a retention opens none. Either
-- way the request is in the status of the verdict.
pub review-applies :
    (p : ReviewPayload) (w v : World) → apply_review_on_tx p w ≡ done tt v → Applied p w.db v.db
unfolding apply_review_on_tx
review-applies p w v h =
    go (action_of (strip p.action)) refl
      (reviewed (get_integration_request (strip p.integration_request_id) w.db) w.db) refl
  where
    go :
        (o : Option ReviewAction)
        → action_of (strip p.action) ≡ o
        → (f : Option (IntegrationRequest × String))
        → reviewed (get_integration_request (strip p.integration_request_id) w.db) w.db ≡ f
        → Applied p w.db v.db
    go none e f g = ground arith
    go (some a) e none g = ground arith
    go (some a) e (some (r, child)) g =
        applied p a r child w.db v.db e g (review_candidate_lem p a r child w v (ground arith))

-- A request that a review has settled cannot be reviewed again: a later review of it, with a
-- known action and a rationale, raises for want of a candidate, and the world stays as it was.
pub review-once :
    (p q : ReviewPayload) (w v : World)
    → apply_review_on_tx p w ≡ done tt v
    → strip q.integration_request_id ≡ strip p.integration_request_id
    → is_empty (strip q.integration_request_id) ≡ false
    → is_empty (strip q.rationale) ≡ false
    → (a : ReviewAction) → action_of (strip q.action) ≡ some a
    → apply_review_on_tx q v ≡ raised review_needs_candidate v
unfolding apply_review_on_tx reviewed
review-once p q w v h same i r a action =
    let d = review-applies p w v h in settled d.action d.request d.at d.after_review
  where
    settled :
        (b : ReviewAction) (x : IntegrationRequest) (t : ℕ)
        → get_integration_request (strip p.integration_request_id) v.db
          ≡ some (record x { status = verdict b; closed_at = some t })
        → apply_review_on_tx q v ≡ raised review_needs_candidate v
    settled promote x t e = ground arith
    settled retain x t e = ground arith
