-- ===== src/Supervisor/Quiet.antt =====
-- Statements that leave the wake events, their cursor and the decisions alone: those that carry
-- out a decision.
use simple_evolution.Prelude.{
  ℕ, zero, suc, String, Bool, true, false, ◌≡◌, refl, ◌∙◌, Option, none, some, List, [], ◌∷◌, arith,
  if◌then◌else◌, string_eq,
}
use simple_evolution.Json.{Json}
use simple_evolution.Db.Rows.{
  Episode, ProposerAllocation, ResourceKind, IntegrationRequest, Epoch, RequestStatus, DecisionKind,
  growth, integration_request, epoch_review,
}
use simple_evolution.Db.State.{Db, World}
use simple_evolution.Db.Exec.{
  Error, Exec, Outcome, done, raised, and_then, ◌>>=◌, pure, raise, raise_if, or_raise, gets,
  modify, time, new_id, new_ids, collect, after,
}
use simple_evolution.Db.Insert.{
  create_allocation, open_resource, insert_scheduler_event, create_integration_request,
}
use simple_evolution.Lease.Allocate.{LeaseSpec, allocate_on_tx, reserve, check_episode, stamp_lens}
use simple_evolution.Supervisor.Requests.{
  RequestPayload, create_request_on_tx, accept_request, update_requests,
}
use simple_evolution.Supervisor.Review.{
  ReviewPayload, ReviewAction, promote, retain, apply_review_on_tx, review_candidate, open_epoch,
  check_epoch, insert_epoch, close_request,
}
use simple_evolution.Supervisor.Commit.{Judgment, enact, present}

-- The tables that say which evidence the growth gate has judged.
pub record SameGate (a b : Db) : Type 0 where
  pub events : b.supervisor_events ≡ a.supervisor_events
  pub decisions : b.supervisor_decisions ≡ a.supervisor_decisions
  pub cursor : b.supervisor_cursor ≡ a.supervisor_cursor

SameGate-refl : (a : Db) → SameGate a a
SameGate-refl a = record { events = refl; decisions = refl; cursor = refl }

SameGate-trans : (a b c : Db) → SameGate a b → SameGate b c → SameGate a c
SameGate-trans a b c p q = record {
  events = q.events ∙ p.events;
  decisions = q.decisions ∙ p.decisions;
  cursor = q.cursor ∙ p.cursor;
}

pub record Quiet {A : Type 0} (body : Exec A) : Type 0 where
  pub at : (w : World) → SameGate w.db (after (body w)).db

module _ {A B : Type 0} where
  Quiet-then :
      (a : Db) (o : Outcome A) (k : A → Exec B)
      → SameGate a (after o).db
      → ((x : A) → Quiet (k x))
      → SameGate a (after (and_then o k)).db
  Quiet-then a (done x w) k h ks = SameGate-trans a w.db (after (k x w)).db h ((ks x).at w)
  Quiet-then a (raised e w) k h ks = h

  pub Quiet-bind :
      {body : Exec A} {k : A → Exec B} → Quiet body → ((x : A) → Quiet (k x)) → Quiet (body >>= k)
  Quiet-bind {body} {k} b ks = record { at = λ w. Quiet-then w.db (body w) k (b.at w) ks }

module _ {A : Type 0} where
  pub Quiet-pure : (a : A) → Quiet (pure a)
  Quiet-pure a = record { at = λ w. SameGate-refl w.db }

  pub Quiet-raise : (e : Error) → Quiet (raise {A = A} e)
  Quiet-raise e = record { at = λ w. SameGate-refl w.db }

  pub Quiet-gets : (f : Db → A) → Quiet (gets f)
  Quiet-gets f = record { at = λ w. SameGate-refl w.db }

  pub Quiet-or_raise : (o : Option A) (e : Error) → Quiet (or_raise o e)
  Quiet-or_raise none e = record { at = λ w. SameGate-refl w.db }
  Quiet-or_raise (some a) e = record { at = λ w. SameGate-refl w.db }

  pub Quiet-if : (b : Bool) (m k : Exec A) → Quiet m → Quiet k → Quiet (if b then m else k)
  Quiet-if true m k p q = p
  Quiet-if false m k p q = q

pub Quiet-raise_if : (b : Bool) (e : Error) → Quiet (raise_if b e)
Quiet-raise_if true e = record { at = λ w. SameGate-refl w.db }
Quiet-raise_if false e = record { at = λ w. SameGate-refl w.db }

pub Quiet-time : Quiet time
Quiet-time = record { at = λ w. SameGate-refl w.db }

pub Quiet-new_id : Quiet new_id
Quiet-new_id = record { at = λ w. SameGate-refl w.db }

pub Quiet-new_ids : (n : ℕ) → Quiet (new_ids n)
Quiet-new_ids zero = Quiet-pure []
Quiet-new_ids (suc n) =
    Quiet-bind Quiet-new_id λ i. Quiet-bind (Quiet-new_ids n) λ is. Quiet-pure (i ∷ is)

pub Quiet-create_allocation : (a : ProposerAllocation) → Quiet (create_allocation a)
unfolding create_allocation
Quiet-create_allocation a = record { at = λ w. ground arith }

pub Quiet-open_resource :
    (k : ResourceKind) (r : String) (a e : Option String) (now : ℕ)
    → Quiet (open_resource k r a e now)
unfolding open_resource
Quiet-open_resource k r a e now = record { at = λ w. ground arith }

pub Quiet-insert_scheduler_event :
    (t : String) (p : Json) (now : ℕ) → Quiet (insert_scheduler_event t p now)
unfolding insert_scheduler_event
Quiet-insert_scheduler_event t p now = record { at = λ w. ground arith }

pub Quiet-create_integration_request :
    (i e n : String) (donors : List String) (why : String)
    → Quiet (create_integration_request i e n donors why)
unfolding create_integration_request
Quiet-create_integration_request i e n donors why = record { at = λ w. ground arith }

pub Quiet-check_episode : (spec : LeaseSpec) (o : Option Episode) → Quiet (check_episode spec o)
unfolding check_episode
Quiet-check_episode spec none = Quiet-raise _
Quiet-check_episode spec (some e) = Quiet-if _ _ _ (Quiet-pure e) (Quiet-raise _)

pub Quiet-stamp_lens :
    (spec : LeaseSpec) (e : Episode) (lens : Option String) → Quiet (stamp_lens spec e lens)
unfolding stamp_lens
Quiet-stamp_lens spec e none = Quiet-pure tt
Quiet-stamp_lens spec e (some lens) = record { at = λ w. ground arith }

pub Quiet-check_epoch : (r : IntegrationRequest) (o : Option Epoch) → Quiet (check_epoch r o)
unfolding check_epoch
Quiet-check_epoch r none = Quiet-raise _
Quiet-check_epoch r (some e) = Quiet-if _ _ _ (Quiet-pure e) (Quiet-raise _)

pub Quiet-close_request :
    (i : String) (status : RequestStatus) (now : ℕ) → Quiet (modify (close_request i status now))
unfolding close_request update_requests
Quiet-close_request i status now = record {
  at = λ w. record { events = refl; decisions = refl; cursor = refl };
}

pub Quiet-insert_epoch : (e : Epoch) → Quiet (insert_epoch e)
unfolding insert_epoch
Quiet-insert_epoch e = record { at = λ w. ground arith }

pub ruleset quiet_rules = (
  Quiet-pure, Quiet-raise, Quiet-gets, Quiet-or_raise, Quiet-if, Quiet-raise_if, Quiet-time,
  Quiet-new_id, Quiet-new_ids, Quiet-create_allocation, Quiet-open_resource,
  Quiet-insert_scheduler_event, Quiet-create_integration_request, Quiet-check_episode,
  Quiet-stamp_lens, Quiet-check_epoch, Quiet-close_request, Quiet-insert_epoch, Quiet-bind,
)

pub Quiet-reserve :
    (spec : LeaseSpec) (decision : Option String) (n : ℕ) → Quiet (reserve spec decision n)
unfolding reserve
Quiet-reserve spec decision n = search quiet_rules depth 20

pub Quiet-allocate_on_tx :
    (spec : LeaseSpec) (limit : Option ℕ) (decision : Option String)
    → Quiet (allocate_on_tx spec limit decision)
unfolding allocate_on_tx
Quiet-allocate_on_tx spec limit decision = search (quiet_rules, Quiet-reserve) depth 20

pub Quiet-accept_request :
    (p : RequestPayload) (o : Option IntegrationRequest) → Quiet (accept_request p o)
unfolding accept_request
Quiet-accept_request p none = search quiet_rules depth 20
Quiet-accept_request p (some r) = search quiet_rules depth 20

pub Quiet-create_request_on_tx : (p : RequestPayload) → Quiet (create_request_on_tx p)
unfolding create_request_on_tx
Quiet-create_request_on_tx p = search (quiet_rules, Quiet-accept_request) depth 20

pub Quiet-open_epoch :
    (r : IntegrationRequest) (child : String) (e : Epoch) (now : ℕ)
    → Quiet (open_epoch r child e now)
unfolding open_epoch
Quiet-open_epoch r child e now = search quiet_rules depth 20

pub Quiet-review_candidate :
    (p : ReviewPayload) (a : ReviewAction) (r : IntegrationRequest) (child : String)
    → Quiet (review_candidate p a r child)
unfolding review_candidate
Quiet-review_candidate p promote r child = search (quiet_rules, Quiet-open_epoch) depth 20
Quiet-review_candidate p retain r child = search quiet_rules depth 20

pub Quiet-apply_review_on_tx : (p : ReviewPayload) → Quiet (apply_review_on_tx p)
unfolding apply_review_on_tx
Quiet-apply_review_on_tx p = search (quiet_rules, Quiet-review_candidate) depth 20

pub Quiet-collect :
    {A B : Type 0} (xs : List A) (body : A → Exec B)
    → ((a : A) → Quiet (body a))
    → Quiet (collect xs body)
Quiet-collect [] body h = Quiet-pure []
Quiet-collect (x ∷ xs) body h =
    Quiet-bind (h x) λ b. Quiet-bind (Quiet-collect xs body h) λ bs. Quiet-pure (b ∷ bs)

-- Carrying out a decision writes no wake event, no decision and no cursor.
pub Quiet-enact : (j : Judgment) (kind : DecisionKind) → Quiet (enact j kind)
unfolding enact
Quiet-enact j growth =
    Quiet-bind
      (Quiet-collect j.leases _
        λ spec. Quiet-allocate_on_tx spec j.max_proposals_per_node (some j.decision_id))
      λ seats. Quiet-pure (present seats)
Quiet-enact j integration_request = search (quiet_rules, Quiet-create_request_on_tx) depth 20
Quiet-enact j epoch_review = search (quiet_rules, Quiet-apply_review_on_tx) depth 20
