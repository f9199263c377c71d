-- ===== src/Supervisor/Requests.antt =====
-- Integration requests.
use simple_evolution.Prelude.{
  ℕ, String, Bool, true, false, not, ◌&&◌, Option, none, some, List, [], ◌∷◌, ◌==◌, string_eq, any,
  select, order_by, update, count, ltb, coalesce, if◌then◌else◌,
}
use simple_evolution.Json.{Json, text, texts, dict}
use simple_evolution.Db.Rows.{
  IntegrationRequest, RequestStatus, open_request, abstained, closed, promoted, is_open_request,
  is_submitted,
}
use simple_evolution.Db.State.{Db}
use simple_evolution.Db.Exec.{
  Exec, ◌>>=◌, ◌>>◌, pure, raise, raise_if, or_raise, gets, modify, time, transaction,
  request_already_open, request_conflict, request_not_open, unknown_request, several_requests,
}
use simple_evolution.Db.Select.{get_integration_request}
use simple_evolution.Db.Insert.{
  create_integration_request as insert_integration_request, create_episode, insert_scheduler_event,
}

-- The request that a decision carries.
pub record RequestPayload : Type 0 where
  pub integration_request_id : String
  pub epoch_id : String
  pub target_node_id : String
  pub donor_experiment_ids : List String
  pub selection_rationale : String

unfoldable pub same_texts : List String → List String → Bool
same_texts [] [] = true
same_texts (x ∷ xs) (y ∷ ys) = x == y && same_texts xs ys
same_texts _ _ = false

unfoldable pub same_request : IntegrationRequest → RequestPayload → Bool
unfolding same_texts
same_request r p =
    r.epoch_id == p.epoch_id
    && (r.target_node_id == p.target_node_id
        && (same_texts r.donor_experiment_ids p.donor_experiment_ids
            && r.selection_rationale == p.selection_rationale))

unfoldable pub open_requests : Db → List IntegrationRequest
open_requests db =
    order_by (λ a b. ltb a.created_at b.created_at)
      (select (λ r. is_open_request r.status) db.integration_requests)

-- An open request, and none of them the one that is asked for.
unfoldable pub blocked_by_open : String → Db → Bool
blocked_by_open i db =
    any (λ r. is_open_request r.status) db.integration_requests
    && not (
        any (λ r. is_open_request r.status && r.integration_request_id == i)
          db.integration_requests)

unfoldable pub created_payload : IntegrationRequest → Json
created_payload r = dict (
    ("integration_request_id", text r.integration_request_id)
    ∷ ("epoch_id", text r.epoch_id)
    ∷ ("target_node_id", text r.target_node_id)
    ∷ ("donor_experiment_ids", texts r.donor_experiment_ids)
    ∷ [])

unfoldable pub accept_request : RequestPayload → Option IntegrationRequest → Exec IntegrationRequest
unfolding same_request created_payload
accept_request p (some existing) =
    if same_request existing p then pure existing else raise request_conflict
accept_request p none = do
  created ←
      insert_integration_request p.integration_request_id p.epoch_id p.target_node_id
        p.donor_experiment_ids p.selection_rationale
  now ← time
  insert_scheduler_event "integration_request_created" (created_payload created) now
  pure created

-- _create_integration_request_on_tx
unfoldable pub create_request_on_tx : RequestPayload → Exec IntegrationRequest
unfolding blocked_by_open accept_request
create_request_on_tx p = do
  blocked ← gets (blocked_by_open p.integration_request_id)
  raise_if blocked request_already_open
  existing ← gets (get_integration_request p.integration_request_id)
  accept_request p existing

unfoldable pub update_requests : String → (IntegrationRequest → IntegrationRequest) → Db → Db
update_requests i f db = record db {
  integration_requests = update (λ r. r.integration_request_id == i) f db.integration_requests;
}

unfoldable pub prepare_open : IntegrationRequest → Option String → Exec (Unit {0})
unfolding update_requests
prepare_open r (some e) = pure tt
prepare_open r none = do
  episode ← create_episode none r.target_node_id
  modify (
      update_requests r.integration_request_id
        (λ x. record x { integrator_episode_id = some episode.episode_id }))

unfoldable pub prepare_integration_request : String → Exec IntegrationRequest
unfolding prepare_open
prepare_integration_request i = transaction (do
  found ← gets (get_integration_request i)
  r ← or_raise found request_not_open
  raise_if (not (is_open_request r.status)) request_not_open
  prepare_open r r.integrator_episode_id
  again ← gets (get_integration_request i)
  or_raise again request_not_open)

-- The statuses that `finish_integration_request` takes, and those that stamp `closed_at`.
abbrev pub may_finish : RequestStatus → Bool
may_finish open_request = false
may_finish _ = true

abbrev pub stamps_closed : RequestStatus → Bool
stamps_closed abstained = true
stamps_closed closed = true
stamps_closed promoted = true
stamps_closed _ = false

unfoldable pub finish_row :
    RequestStatus
    → Option String
    → Option String
    → Option ℕ
    → IntegrationRequest
    → IntegrationRequest
finish_row status proposal experiment closed_at r = record r {
  status = status;
  proposal_id = coalesce proposal r.proposal_id;
  experiment_id = coalesce experiment r.experiment_id;
  closed_at = closed_at;
}

unfoldable pub finish_integration_request :
    String → RequestStatus → Option String → Option String → Exec IntegrationRequest
unfolding update_requests finish_row
finish_integration_request i status proposal experiment = do
  raise_if (not (may_finish status)) unknown_request
  now ← time
  let closed_at = if stamps_closed status then some now else none
  transaction (do
    modify (update_requests i (finish_row status proposal experiment closed_at))
    found ← gets (get_integration_request i)
    or_raise found unknown_request)

unfoldable pub links : String → IntegrationRequest → Bool
links i r = elim r.proposal_id [ none ↦ false | some p ↦ p == i ] && is_submitted r.status

unfoldable pub link_integration_experiment : String → String → Exec (Unit {0})
unfolding links
link_integration_experiment proposal experiment = transaction (do
  linked ← gets (λ db. count (links proposal) db.integration_requests)
  modify (λ db. record db {
    integration_requests =
        update (links proposal) (λ r. record r { experiment_id = some experiment })
          db.integration_requests;
  })
  raise_if (ltb 1 linked) several_requests)
