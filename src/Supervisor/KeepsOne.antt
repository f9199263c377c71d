-- ===== src/Supervisor/KeepsOne.antt =====
-- Statements that keep at most one integration request open: those of leases and of reviews.
use simple_evolution.Prelude.{
  ℕ, zero, suc, ◌≤◌, String, Bool, true, false, ◌≡◌, refl, Option, none, some, List, [], ◌∷◌, arith,
  update, count, ◌==◌, string_eq, if◌then◌else◌,
}
use simple_evolution.Json.{Json}
use simple_evolution.Db.Rows.{
  IntegrationRequest, RequestStatus, closed, promoted, is_open_request, Episode, Epoch,
  ProposerAllocation, ResourceKind,
}
use simple_evolution.Db.State.{Db, World}
use simple_evolution.Db.Exec.{
  Error, Exec, Outcome, done, raised, and_then, ◌>>=◌, pure, raise, raise_if, or_raise, gets,
  modify, time, new_id, new_ids, collect, after,
}
use simple_evolution.Db.Insert.{create_allocation, open_resource, insert_scheduler_event}
use simple_evolution.Lease.Allocate.{LeaseSpec, allocate_on_tx, reserve, check_episode, stamp_lens}
use simple_evolution.Supervisor.Requests.{update_requests}
use simple_evolution.Supervisor.Review.{
  ReviewPayload, ReviewAction, promote, retain, apply_review_on_tx, review_candidate, open_epoch,
  check_epoch, insert_epoch, close_request,
}

abbrev pub open_count : Db → ℕ
open_count db = count (λ r. is_open_request r.status) db.integration_requests

pub record KeepsOne {A : Type 0} (body : Exec A) : Type 0 where
  pub at : (w : World) → open_count w.db ≤ 1 → open_count (after (body w)).db ≤ 1

module _ {A B : Type 0} where
  pub one_then :
      (o : Outcome A) (k : A → Exec B)
      → open_count (after o).db ≤ 1
      → ((x : A) → KeepsOne (k x))
      → open_count (after (and_then o k)).db ≤ 1
  one_then (done x w) k h ks = (ks x).at w h
  one_then (raised e w) k h ks = h

  pub One-bind :
      {body : Exec A} {k : A → Exec B}
      → KeepsOne body
      → ((x : A) → KeepsOne (k x))
      → KeepsOne (body >>= k)
  One-bind {body} {k} b ks = record { at = λ w h. one_then (body w) k (b.at w h) ks }

-- A statement that leaves the table of requests alone.
pub same_requests :
    {A : Type 0} (body : Exec A)
    → ((w : World) → (after (body w)).integration_requests ≡ w.integration_requests)
    → KeepsOne body
same_requests body h = record { at = λ w le. ground (arith, h w, le) }

module _ {A : Type 0} where
  pub One-pure : (a : A) → KeepsOne (pure a)
  One-pure a = same_requests _ λ w. refl

  pub One-raise : (e : Error) → KeepsOne (raise {A = A} e)
  One-raise e = same_requests _ λ w. refl

  pub One-gets : (f : Db → A) → KeepsOne (gets f)
  One-gets f = same_requests _ λ w. refl

  pub One-or_raise : (o : Option A) (e : Error) → KeepsOne (or_raise o e)
  One-or_raise none e = same_requests _ λ w. refl
  One-or_raise (some a) e = same_requests _ λ w. refl

  pub One-if : (b : Bool) (m k : Exec A) → KeepsOne m → KeepsOne k → KeepsOne (if b then m else k)
  One-if true m k p q = p
  One-if false m k p q = q

pub One-raise_if : (b : Bool) (e : Error) → KeepsOne (raise_if b e)
One-raise_if true e = same_requests _ λ w. refl
One-raise_if false e = same_requests _ λ w. refl

pub One-time : KeepsOne time
One-time = same_requests _ λ w. refl

pub One-new_id : KeepsOne new_id
One-new_id = same_requests _ λ w. refl

pub One-new_ids : (n : ℕ) → KeepsOne (new_ids n)
One-new_ids zero = One-pure []
One-new_ids (suc n) = One-bind One-new_id λ i. One-bind (One-new_ids n) λ is. One-pure (i ∷ is)

pub One-create_allocation : (a : ProposerAllocation) → KeepsOne (create_allocation a)
unfolding create_allocation
One-create_allocation a = same_requests _ λ w. ground arith

pub One-open_resource :
    (k : ResourceKind) (r : String) (a e : Option String) (now : ℕ)
    → KeepsOne (open_resource k r a e now)
unfolding open_resource
One-open_resource k r a e now = same_requests _ λ w. ground arith

pub One-insert_scheduler_event :
    (t : String) (p : Json) (now : ℕ) → KeepsOne (insert_scheduler_event t p now)
unfolding insert_scheduler_event
One-insert_scheduler_event t p now = same_requests _ λ w. ground arith

pub One-check_episode : (spec : LeaseSpec) (o : Option Episode) → KeepsOne (check_episode spec o)
unfolding check_episode
One-check_episode spec none = One-raise _
One-check_episode spec (some e) = One-if _ _ _ (One-pure e) (One-raise _)

pub One-stamp_lens :
    (spec : LeaseSpec) (e : Episode) (lens : Option String) → KeepsOne (stamp_lens spec e lens)
unfolding stamp_lens
One-stamp_lens spec e none = One-pure tt
One-stamp_lens spec e (some lens) = same_requests _ λ w. ground arith

pub One-check_epoch : (r : IntegrationRequest) (o : Option Epoch) → KeepsOne (check_epoch r o)
unfolding check_epoch
One-check_epoch r none = One-raise _
One-check_epoch r (some e) = One-if _ _ _ (One-pure e) (One-raise _)

pub One-insert_epoch : (e : Epoch) → KeepsOne (insert_epoch e)
unfolding insert_epoch
One-insert_epoch e = same_requests _ λ w. ground arith

pub ruleset one_rules = (
  One-pure, One-raise, One-gets, One-or_raise, One-if, One-raise_if, One-time, One-new_id,
  One-new_ids, One-create_allocation, One-open_resource, One-insert_scheduler_event,
  One-check_episode, One-stamp_lens, One-check_epoch, One-insert_epoch, One-bind,
)

pub One-reserve :
    (spec : LeaseSpec) (decision : Option String) (n : ℕ) → KeepsOne (reserve spec decision n)
unfolding reserve
One-reserve spec decision n = search one_rules depth 20

pub One-allocate_on_tx :
    (spec : LeaseSpec) (limit : Option ℕ) (decision : Option String)
    → KeepsOne (allocate_on_tx spec limit decision)
unfolding allocate_on_tx
One-allocate_on_tx spec limit decision = search (one_rules, One-reserve) depth 20

pub One-collect :
    {A B : Type 0} (xs : List A) (body : A → Exec B)
    → ((a : A) → KeepsOne (body a))
    → KeepsOne (collect xs body)
One-collect [] body h = One-pure []
One-collect (x ∷ xs) body h =
    One-bind (h x) λ b. One-bind (One-collect xs body h) λ bs. One-pure (b ∷ bs)

-- Closing a request opens none.
count-closed :
    (i : String) (status : RequestStatus) (now : ℕ)
    → is_open_request status ≡ false
    → (rs : List IntegrationRequest)
    → count
        (λ r. is_open_request r.status)
        (update
          (λ r. r.integration_request_id == i)
          (λ r. record r { status = status; closed_at = some now })
          rs)
      ≤ count (λ r. is_open_request r.status) rs
count-closed i status now h [] = omega arith
count-closed i status now h (r ∷ rs) = ground (arith, h, count-closed i status now h rs)

pub One-close_request :
    (i : String) (status : RequestStatus) (now : ℕ)
    → is_open_request status ≡ false
    → KeepsOne (modify (close_request i status now))
unfolding close_request update_requests
One-close_request i status now h = record {
  at = λ w le. omega (arith, count-closed i status now h w.integration_requests, le);
}

pub One-promoted : (i : String) (now : ℕ) → KeepsOne (modify (close_request i promoted now))
One-promoted i now = One-close_request i promoted now refl

pub One-closed : (i : String) (now : ℕ) → KeepsOne (modify (close_request i closed now))
One-closed i now = One-close_request i closed now refl

pub One-open_epoch :
    (r : IntegrationRequest) (child : String) (e : Epoch) (now : ℕ)
    → KeepsOne (open_epoch r child e now)
unfolding open_epoch
One-open_epoch r child e now = search (one_rules, One-promoted) depth 20

pub One-review_candidate :
    (p : ReviewPayload) (a : ReviewAction) (r : IntegrationRequest) (child : String)
    → KeepsOne (review_candidate p a r child)
unfolding review_candidate
One-review_candidate p promote r child = search (one_rules, One-open_epoch) depth 20
One-review_candidate p retain r child = search (one_rules, One-closed) depth 20

pub One-apply_review_on_tx : (p : ReviewPayload) → KeepsOne (apply_review_on_tx p)
unfolding apply_review_on_tx
One-apply_review_on_tx p = search (one_rules, One-review_candidate) depth 20
