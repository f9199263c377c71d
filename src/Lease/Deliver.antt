-- ===== src/Lease/Deliver.antt =====
-- `ingest_lease_conclusion`: a seat's conclusion, as the worker's result document gives it.
use simple_evolution.Prelude.{
  ℕ, suc, ◌+◌, String, ◌<>◌, Bool, true, false, not, ◌&&◌, ◌||◌, Option, none, some, [], ◌∷◌, ◌==◌,
  string_eq, any, select, first?, order_by, take, length, if◌then◌else◌, is_some, ltb, nat_beq,
  get_or,
}
use simple_evolution.Prelude.Int.{pos}
use simple_evolution.Json.{truthy, Json, Dict, null, bool, text, number, dict, lookup, is_text}
use simple_evolution.Text.{split, join, prefix, is_sha, show}
use simple_evolution.Db.Rows.{
  ProposerAllocation, abstain, cut_off, awaiting_adjudication, ResearchState, Proposal, running,
  ExperimentStatus, AttemptStatus, experiment, eval,
}
use simple_evolution.Db.State.{Db}
use simple_evolution.Db.Exec.{
  Exec, ◌>>=◌, ◌>>◌, pure, raise, raise_if, or_raise, gets, modify, time, transaction,
  unknown_allocation, invalid_conclusion_kind, conclusion_of_another, vacuous_exit, bad_world_sha,
  world_exists, handover_too_long, unexpected_world_sha,
}
use simple_evolution.Db.Select.{get_allocation, get_proposal}
use simple_evolution.Db.Insert.{create_proposal, create_experiment, create_attempt, open_resource}
use simple_evolution.Db.Update.{update_attempt_status, set_lease_state}
use simple_evolution.Lease.Conclude.{conclude_on_tx}

pub data IngestKind : Type 0 where
  deliver abstains cuts_off already_concluded : IngestKind

pub record LeaseConclusionIngest : Type 0 where
  pub kind : IngestKind
  pub proposal_id : Option String
  pub experiment_id : Option String
  pub attempt_id : Option String
  pub replayed : Bool

-- conclusion.get("kind")
abbrev pub kind_of : Dict → Option IngestKind
kind_of c =
    if is_text "deliver" (lookup "kind" c)
    then some deliver
    else if is_text "abstain" (lookup "kind" c)
    then some abstains
    else if is_text "cut_off" (lookup "kind" c)
    then some cuts_off
    else none

-- d.get(k), where a missing key and null are the same None.
abbrev pub value_or_null : String → Dict → Json
value_or_null k c = get_or (lookup k c) null

abbrev pub is_null : Json → Bool
is_null null = true
is_null _ = false

-- `_word_count`: 0 for what is no text.
abbrev pub word_count : Json → ℕ
word_count (text s) = length (split s)
word_count _ = 0

-- NULL sorts below every revision.
abbrev pub revision_rank : ResearchState → ℕ
revision_rank s = elim s.revision [ none ↦ 0 | some r ↦ suc r ]

unfoldable pub newer : ResearchState → ResearchState → Bool
newer a b =
    ltb (revision_rank b) (revision_rank a)
    || (nat_beq (revision_rank a) (revision_rank b) && ltb b.created_at a.created_at)

-- ORDER BY revision DESC, created_at DESC LIMIT 1
unfoldable pub head_row : String → Db → Option ResearchState
unfolding newer
head_row episode_id db =
    first? (order_by newer (select (λ s. s.episode_id == episode_id) db.research_states))

-- The text of a valid world_sha.
abbrev pub sha_text : Json → Option String
sha_text (text s) = if is_sha s then some s else none
sha_text _ = none

unfoldable pub check_delivery : Dict → ℕ → Exec String
check_delivery c cap = do
  sha ← or_raise (sha_text (value_or_null "world_sha" c)) bad_world_sha
  db ← gets (λ d. d)
  raise_if (any (λ n. n.sha == sha) db.nodes) world_exists
  raise_if
      (truthy (get_or (lookup "handover_compliant" c) (bool true))
        && ltb cap (word_count (value_or_null "handover" c)))
      handover_too_long
  pure sha

-- The world of a delivery; the other conclusions carry none.
unfoldable pub check_world : IngestKind → Dict → ℕ → Exec (Option String)
unfolding check_delivery
check_world deliver c cap = do sha ← check_delivery c cap; pure (some sha)
check_world _ c cap = do
  raise_if (not (is_null (value_or_null "world_sha" c))) unexpected_world_sha
  pure none

unfoldable pub close_attempt : Option String → ℕ → Db → Db
close_attempt none now db = db
close_attempt (some i) now db = update_attempt_status i AttemptStatus.succeeded (some now) db

-- The first delivery uses the reserved id, a later one an id made of the lease's.
unfoldable pub delivery_id : ProposerAllocation → String
delivery_id a =
    let later = "delivery-" <> (a.allocation_id <> ("-" <> show (a.reopen_count + 1))) in
    if nat_beq a.reopen_count 0 then get_or (first? a.reserved_proposal_ids) later else later

unfoldable pub delivery_text : String → Dict → ProposerAllocation → String
delivery_text sha c a =
    "[delivery "
    <> (show (a.reopen_count + 1)
        <> ("] world " <> (prefix 12 sha <> (" — " <> digest (value_or_null "handover" c)))))
  where
    or_default : String → String
    or_default s = if s == "" then "world delivery" else s

    digest : Json → String
    digest (text s) = or_default (join (take 40 (split s)))
    digest _ = "world delivery"

unfoldable pub delivery_proposal : String → Dict → ProposerAllocation → ResearchState → ℕ → Proposal
unfolding delivery_text delivery_id
delivery_proposal sha c a head now = record {
  proposal_id = delivery_id a;
  node_id = a.node_id;
  episode_id = a.episode_id;
  instruction = delivery_text sha c a;
  rationale =
      (
        "delivery",
        dict (
            ("world_sha", text sha)
            ∷ ("handover", value_or_null "handover" c)
            ∷ ("handover_compliant", get_or (lookup "handover_compliant" c) (bool true))
            ∷ ("delivery_index", number (pos (a.reopen_count + 1)))
            ∷ []),
      )
      ∷ [];
  status = running;
  created_at = now;
  research_state_id = some head.research_state_id;
  research_operation = none;
  donor_experiment_ids = [];
}

-- SELECT experiment_id FROM experiments WHERE proposal_id = ?
unfoldable pub experiment_of : String → Db → Option String
experiment_of i db = elim (first? (select (λ e. e.proposal_id == i) db.experiments)) [
  | none ↦ none
  | some e ↦ some e.experiment_id
]

unfoldable pub start_eval : Bool → ProposerAllocation → String → ℕ → Exec (Option String)
start_eval false a experiment_id now = pure none
start_eval true a experiment_id now = do
  attempt ← create_attempt experiment_id experiment AttemptStatus.running (some now)
  open_resource eval experiment_id (some a.allocation_id) (some experiment_id) now
  pure (some attempt.attempt_id)

abbrev pub exp_id : String → String
exp_id proposal_id = "exp-" <> proposal_id

unfoldable pub mint :
    String → Dict → ProposerAllocation → ResearchState → Bool → ℕ → Exec LeaseConclusionIngest
unfolding delivery_proposal start_eval
mint sha c a head with_attempt now = do
  let pid = delivery_id a
  create_proposal (delivery_proposal sha c a head now)
  _ ←
      create_experiment (exp_id pid) pid a.node_id
        (if with_attempt then ExperimentStatus.running else ExperimentStatus.pending)
  attempt ← start_eval with_attempt a (exp_id pid) now
  modify (set_lease_state a.allocation_id awaiting_adjudication)
  pure (record {
    kind = deliver;
    proposal_id = some pid;
    experiment_id = some (exp_id pid);
    attempt_id = attempt;
    replayed = false;
  })

-- A delivery whose proposal is there already is a replay.
unfoldable pub redeliver : ProposerAllocation → Exec LeaseConclusionIngest
unfolding experiment_of
redeliver a = do
  eid ← gets (experiment_of (delivery_id a))
  modify (set_lease_state a.allocation_id awaiting_adjudication)
  pure (record {
    kind = deliver;
    proposal_id = some (delivery_id a);
    experiment_id = eid;
    attempt_id = none;
    replayed = true;
  })

unfoldable pub deliver_on_tx :
    String → Dict → ProposerAllocation → ResearchState → Bool → ℕ → Exec LeaseConclusionIngest
unfolding mint redeliver
deliver_on_tx sha c a head with_attempt now = do
  existing ← gets (get_proposal (delivery_id a))
  if is_some existing then redeliver a else mint sha c a head with_attempt now

unfoldable pub ends : IngestKind → LeaseConclusionIngest
ends k = record {
  kind = k;
  proposal_id = none;
  experiment_id = none;
  attempt_id = none;
  replayed = false;
}

unfoldable pub settle :
    IngestKind
    → Option String
    → Dict
    → ProposerAllocation
    → ResearchState
    → Bool
    → ℕ
    → Exec LeaseConclusionIngest
unfolding deliver_on_tx ends
settle deliver (some sha) c a head with_attempt now = deliver_on_tx sha c a head with_attempt now
settle abstains sha c a head with_attempt now = do
  conclude_on_tx (some a) abstain now (value_or_null "reason" c) null
  pure (ends abstains)
settle cuts_off sha c a head with_attempt now = do
  conclude_on_tx (some a) cut_off now (value_or_null "reason" c) null
  pure (ends cuts_off)
settle _ sha c a head with_attempt now = raise invalid_conclusion_kind

unfoldable pub ingest_open :
    IngestKind
    → Dict
    → ProposerAllocation
    → Option String
    → Bool
    → ℕ
    → ℕ
    → Exec LeaseConclusionIngest
unfolding check_world close_attempt settle
ingest_open k c a attempt_id with_attempt cap now = do
  raise_if
      (not (is_text a.node_id (lookup "node_id" c) && is_text a.episode_id (lookup "episode_id" c)))
      conclusion_of_another
  found ← gets (head_row a.episode_id)
  head ← or_raise found vacuous_exit
  sha ← check_world k c cap
  modify (close_attempt attempt_id now)
  settle k sha c a head with_attempt now

unfoldable pub late : LeaseConclusionIngest
late = record {
  kind = already_concluded;
  proposal_id = none;
  experiment_id = none;
  attempt_id = none;
  replayed = true;
}

unfoldable pub ingest_on_tx :
    IngestKind → String → Dict → Option String → Bool → ℕ → ℕ → Exec LeaseConclusionIngest
unfolding ingest_open late
ingest_on_tx k i c attempt_id with_attempt cap now = do
  found ← gets (get_allocation i)
  a ← or_raise found (unknown_allocation i)
  if is_some a.finished_at then pure late else ingest_open k c a attempt_id with_attempt cap now

unfoldable pub ingest_lease_conclusion :
    String → Dict → Option String → Bool → ℕ → Exec LeaseConclusionIngest
unfolding ingest_on_tx
ingest_lease_conclusion i c attempt_id with_attempt cap = do
  k ← or_raise (kind_of c) invalid_conclusion_kind
  now ← time
  transaction (ingest_on_tx k i c attempt_id with_attempt cap now)
