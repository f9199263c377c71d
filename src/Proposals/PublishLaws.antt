-- ===== src/Proposals/PublishLaws.antt =====
-- What a publication adds to the table of proposals.
use simple_evolution.Prelude.{
  append_one, append_none, ℕ, String, Bool, true, not, ◌&&◌, ◌≡◌, refl, Option, none, some, List,
  [], ◌∷◌, ◌++◌, arith, all, ◌==◌, string_eq, eq_refl,
}
use simple_evolution.Db.Rows.{Proposal, is_queued, Episode, ResearchState}
use simple_evolution.Db.State.{Db, World}
use simple_evolution.Db.Exec.{
  Exec, Outcome, done, raised, and_then, ◌>>=◌, ◌>>◌, pure, modify, collect, transaction,
}
use simple_evolution.Db.Laws.{transaction-raised, transaction-done}
use simple_evolution.Db.Keeps.{Keeps, Keeps-reads, keep_rules}
use simple_evolution.Db.Insert.{create_proposal, create_research_state}
use simple_evolution.Db.Update.{update_episode_last_active, update_episodes}
use simple_evolution.Proposals.Publish.{
  RawProposal, publish_one, publish_on_tx, publish_proposals, outside, check_operation,
  new_proposal,
}
use simple_evolution.Proposals.Batch.{
  RawState, publish_with_state, publish_research_batch, batch_on_tx, validate_unique_ids,
  check_state_id, check_state, create_state, check_owner,
}

-- A queued proposal of the node and the episode, with an id of the reserved pool.
abbrev pub belongs : String → String → Option (List String) → Proposal → Bool
belongs node_id episode_id reserved p =
    is_queued p.status
    && (p.node_id == node_id
        && (p.episode_id == episode_id && not (outside reserved p.proposal_id)))

-- A statement that returns appends the rows of its result, which all pass the test.
record Publishes (test : Proposal → Bool) {A : Type 0} (rows : A → List Proposal) (body : Exec A)
    : Type 0 where
  at :
      (w : World) (a : A) (v : World)
      → body w ≡ done a v
      → (v.proposals ≡ w.proposals ++ rows a) × (all test (rows a) ≡ true)

publish_one-Publishes :
    (node_id episode_id : String) (reserved : Option (List String)) (now : ℕ) (raw : RawProposal)
    → Publishes
        (belongs node_id episode_id reserved)
        (λ p. p ∷ [])
        (publish_one node_id episode_id reserved now raw)
unfolding publish_one create_proposal check_operation new_proposal
publish_one-Publishes node_id episode_id reserved now raw = record {
  at = λ w p v h. ground (arith, h, eq_refl node_id, eq_refl episode_id);
}

publish_with_state-Publishes :
    (node_id episode_id : String) (reserved : Option (List String)) (now : ℕ) (raw : RawProposal)
    → Publishes
        (belongs node_id episode_id reserved)
        (λ p. p ∷ [])
        (publish_with_state node_id episode_id reserved now raw)
unfolding publish_with_state create_proposal check_operation new_proposal
publish_with_state-Publishes node_id episode_id reserved now raw = record {
  at = λ w p v h. ground (arith, h, eq_refl node_id, eq_refl episode_id);
}

-- A statement that leaves the table of proposals alone.
abbrev Apart : {A : Type 0} → Exec A → Type 0
Apart body = Keeps (λ db. db.proposals) body

module _ {A B : Type 0} where
  Publishes-after :
      (test : Proposal → Bool) (rows : B → List Proposal) {body : Exec A} {k : A → Exec B}
      → Apart body
      → ((a : A) → Publishes test rows (k a))
      → Publishes test rows (body >>= k)
  Publishes-after test rows {body} {k} b ks = record { at = λ w c v. go w c v (body w) refl }
    where
      go :
          (w : World) (c : B) (v : World) (o : Outcome A)
          → body w ≡ o
          → and_then o k ≡ done c v
          → (v.proposals ≡ w.proposals ++ rows c) × (all test (rows c) ≡ true)
      go w c v (done a u) e h =
          let here = b.at w a u e in
          let next = (ks a).at u c v h in (ground (arith, here, next), next.1)
      go w c v (raised x u) e h = cc

-- One more round of a loop.
Publishes-cons :
    (test : Proposal → Bool) {body : Exec Proposal} {rest : Exec (List Proposal)}
    → Publishes test (λ p. p ∷ []) body
    → Publishes test (λ ps. ps) rest
    → Publishes test (λ ps. ps) (body >>= λ p. rest >>= λ ps. pure (p ∷ ps))
Publishes-cons test {body} {rest} b r = record { at = λ w ps v. first w ps v (body w) refl }
  where
    second :
        (w : World) (p : Proposal) (u : World) (ps : List Proposal) (v : World)
        (o : Outcome (List Proposal))
        → body w ≡ done p u
        → rest u ≡ o
        → and_then o (λ qs. pure (p ∷ qs)) ≡ done ps v
        → (v.proposals ≡ w.proposals ++ ps) × (all test ps ≡ true)
    second w p u ps v (done qs x) h c e =
        let here = b.at w p u h in
        let there = r.at u qs x c in ground (arith, e, here, there, append_one w.proposals p qs)
    second w p u ps v (raised x y) h c e = cc

    first :
        (w : World) (ps : List Proposal) (v : World) (o : Outcome Proposal)
        → body w ≡ o
        → and_then o (λ p. rest >>= λ qs. pure (p ∷ qs)) ≡ done ps v
        → (v.proposals ≡ w.proposals ++ ps) × (all test ps ≡ true)
    first w ps v (done p u) h e = second w p u ps v (rest u) h refl e
    first w ps v (raised x y) h e = cc

Publishes-collect :
    {R : Type 0} (test : Proposal → Bool) (raws : List R) (body : R → Exec Proposal)
    → ((r : R) → Publishes test (λ p. p ∷ []) (body r))
    → Publishes test (λ ps. ps) (collect raws body)
Publishes-collect test [] body h = record {
  at = λ w ps v e. ground (arith, e, append_none w.proposals);
}
Publishes-collect test (r ∷ raws) body h =
    Publishes-cons test (h r) (Publishes-collect test raws body h)

-- A loop, then a statement that leaves the proposals alone.
Publishes-before :
    (test : Proposal → Bool) {body : Exec (List Proposal)} (f : Db → Db)
    → ((db : Db) → (f db).proposals ≡ db.proposals)
    → Publishes test (λ ps. ps) body
    → Publishes test (λ ps. ps) (body >>= λ ps. modify f >> pure ps)
Publishes-before test {body} f h b = record { at = λ w ps v. go w ps v (body w) refl }
  where
    go :
        (w : World) (ps : List Proposal) (v : World) (o : Outcome (List Proposal))
        → body w ≡ o
        → and_then o (λ qs. modify f >> pure qs) ≡ done ps v
        → (v.proposals ≡ w.proposals ++ ps) × (all test ps ≡ true)
    go w ps v (done qs u) c e = let here = b.at w qs u c in ground (arith, here, e, h u.db)
    go w ps v (raised x y) c e = cc

Apart-create_research_state : (s : ResearchState) → Apart (create_research_state s)
unfolding create_research_state
Apart-create_research_state s = Keeps-reads _ λ w. ground arith

ruleset apart_rules = (keep_rules, Apart-create_research_state)

Apart-check_owner : (n : String) (o : Option Episode) (e : String) → Apart (check_owner n o e)
unfolding check_owner
Apart-check_owner n none e = search apart_rules
Apart-check_owner n (some x) e = search apart_rules

Apart-validate_unique_ids :
    (is : List (Option String)) (field : String) → Apart (validate_unique_ids is field)
unfolding validate_unique_ids
Apart-validate_unique_ids is field = search apart_rules depth 20

Apart-check_state_id : (e i : String) → Apart (check_state_id e i)
unfolding check_state_id
Apart-check_state_id e i = search apart_rules depth 20

Apart-check_state :
    (n e : String) (is : List String) (raw : RawState) → Apart (check_state n e is raw)
unfolding check_state
Apart-check_state n e is raw = search apart_rules depth 20

Apart-create_state : (n e : String) (now : ℕ) (raw : RawState) → Apart (create_state n e now raw)
unfolding create_state
Apart-create_state n e now raw = search apart_rules depth 20

last_active_proposals :
    (e : String) (now : ℕ) (db : Db)
    → (update_episode_last_active e now db).proposals ≡ db.proposals
unfolding update_episode_last_active update_episodes
last_active_proposals e now db = refl

publish_on_tx-Publishes :
    (n e : String) (raws : List RawProposal) (reserved : Option (List String)) (now : ℕ)
    → Publishes (belongs n e reserved) (λ ps. ps) (publish_on_tx n e raws reserved now)
unfolding publish_on_tx
publish_on_tx-Publishes n e raws reserved now =
    search
      (
        apart_rules,
        Publishes-after,
        Publishes-before (belongs n e reserved) (update_episode_last_active e now)
            (last_active_proposals e now),
        Publishes-collect,
        publish_one-Publishes,
      )
      depth 20

batch_on_tx-Publishes :
    (n e : String) (states : List RawState) (raws : List RawProposal)
    (reserved : Option (List String)) (now : ℕ)
    → Publishes (belongs n e reserved) (λ ps. ps) (batch_on_tx n e states raws reserved now)
unfolding batch_on_tx
batch_on_tx-Publishes n e states raws reserved now =
    search
      (
        apart_rules,
        Apart-check_owner,
        Apart-validate_unique_ids,
        Apart-check_state_id,
        Apart-check_state,
        Apart-create_state,
        Publishes-after,
        Publishes-before (belongs n e reserved) (update_episode_last_active e now)
            (last_active_proposals e now),
        Publishes-collect,
        publish_with_state-Publishes,
      )
      depth 20

-- What a call appends, all of which passes the test, or nothing at all.
abbrev pub AllOrNothing : (Proposal → Bool) → World → Outcome (List Proposal) → Type 0
AllOrNothing test w (done ps v) = (v.proposals ≡ w.proposals ++ ps) × (all test ps ≡ true)
AllOrNothing test w (raised e v) = v.db ≡ w.db

AllOrNothing-transaction :
    (test : Proposal → Bool) (body : Exec (List Proposal)) (w : World)
    → Publishes test (λ ps. ps) body
    → AllOrNothing test w (transaction body w)
AllOrNothing-transaction test body w b = go (transaction body w) refl
  where
    go : (o : Outcome (List Proposal)) → transaction body w ≡ o → AllOrNothing test w o
    go (done ps v) h = b.at w ps v (transaction-done body w ps v h)
    go (raised e v) h = transaction-raised body w e v h

-- A publication that returns has appended exactly the proposals it returns, each queued, of the
-- node and the episode, and with an id of the reserved pool, if one is given; one that raises
-- leaves the database as it was.
pub publish_proposals-AllOrNothing :
    (n e : String) (raws : List RawProposal) (reserved : Option (List String)) (w : World)
    → AllOrNothing (belongs n e reserved) w (publish_proposals n e raws reserved w)
unfolding publish_proposals
publish_proposals-AllOrNothing n e raws reserved w =
    let now = w.clock w.readings in
    AllOrNothing-transaction (belongs n e reserved) (publish_on_tx n e raws reserved now)
      (record w { readings = ℕ.suc w.readings }) (publish_on_tx-Publishes n e raws reserved now)

-- A research batch that returns has appended exactly the proposals it returns, each queued, of
-- the node and the episode, and with an id of the reserved pool, if one is given; a batch that
-- raises leaves the database as it was.
pub publish_research_batch-AllOrNothing :
    (n e : String) (states : List RawState) (raws : List RawProposal)
    (reserved : Option (List String)) (w : World)
    → AllOrNothing (belongs n e reserved) w (publish_research_batch n e states raws reserved w)
unfolding publish_research_batch
publish_research_batch-AllOrNothing n e states raws reserved w =
    let now = w.clock w.readings in
    AllOrNothing-transaction (belongs n e reserved) (batch_on_tx n e states raws reserved now)
      (record w { readings = ℕ.suc w.readings })
      (batch_on_tx-Publishes n e states raws reserved now)
