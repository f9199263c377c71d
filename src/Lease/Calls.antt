-- ===== src/Lease/Calls.antt =====
-- `ingest_lease_conclusion` follows the state machine.
use simple_evolution.Prelude.{
  ℕ, String, ◌≡◌, Bool, true, false, Option, none, some, string_eq, if◌then◌else◌, is_some,
}
use simple_evolution.Json.{Dict, null}
use simple_evolution.Db.Rows.{ProposerAllocation, abstain, cut_off, ResearchState}
use simple_evolution.Db.Exec.{vacuous_exit}
use simple_evolution.Db.Select.{get_proposal}
use simple_evolution.Lease.Deliver.{
  IngestKind, deliver, abstains, cuts_off, already_concluded, mint, redeliver, deliver_on_tx,
  settle, ingest_open, head_row, delivery_id,
}
use simple_evolution.Lease.Frame.{Frames-gets, Frames-raise, Frames-raise_if, Frames-or_raise}
use simple_evolution.Lease.Writes.{conclude_on_tx-Advances}
use simple_evolution.Lease.Minting.{
  redeliver-Touches, mint-Touches, check_world-Frames, close_attempt-Frames,
}
use simple_evolution.Lease.Goes.{Goes, Goes-bind, Goes-Frames, Goes-Touches, Goes-pure}

deliver_on_tx-Goes :
    (m : ℕ) (i sha : String) (c : Dict) (a : ProposerAllocation) (head : ResearchState) (b : Bool)
    (now : ℕ)
    → a.finished_at ≡ none
    → Goes m i a (deliver_on_tx sha c a head b now)
unfolding deliver_on_tx
deliver_on_tx-Goes m i sha c a head b now is_open =
    Goes-bind (Frames-gets (get_proposal (delivery_id a))) λ o. go (is_some o)
  where
    go : (t : Bool) → Goes m i a (if t then redeliver a else mint sha c a head b now)
    go true = Goes-Touches is_open (redeliver-Touches a)
    go false = Goes-Touches is_open (mint-Touches sha c a head b now)

settle-Goes :
    (m : ℕ) (i : String) (k : IngestKind) (sha : Option String) (c : Dict) (a : ProposerAllocation)
    (head : ResearchState) (b : Bool) (now : ℕ)
    → a.finished_at ≡ none
    → Goes m i a (settle k sha c a head b now)
unfolding settle
settle-Goes m i deliver none c a head b now is_open = Goes-Frames (Frames-raise _)
settle-Goes m i deliver (some sha) c a head b now is_open =
    deliver_on_tx-Goes m i sha c a head b now is_open
settle-Goes m i abstains sha c a head b now is_open =
    Goes-pure _ (record { at = λ w. conclude_on_tx-Advances m i a abstain now _ null w })
settle-Goes m i cuts_off sha c a head b now is_open =
    Goes-pure _ (record { at = λ w. conclude_on_tx-Advances m i a cut_off now _ null w })
settle-Goes m i already_concluded sha c a head b now is_open = Goes-Frames (Frames-raise _)

pub ingest_open-Goes :
    (m : ℕ) (i : String) (k : IngestKind) (c : Dict) (a : ProposerAllocation)
    (attempt : Option String) (b : Bool) (limit now : ℕ)
    → a.finished_at ≡ none
    → Goes m i a (ingest_open k c a attempt b limit now)
unfolding ingest_open
ingest_open-Goes m i k c a attempt b limit now is_open = Goes-bind (Frames-raise_if _ _) λ _.
    Goes-bind (Frames-gets (head_row a.episode_id)) λ found.
      Goes-bind (Frames-or_raise found vacuous_exit) λ head.
        Goes-bind (check_world-Frames k c limit) λ sha.
          Goes-bind (close_attempt-Frames attempt now)
            λ _. settle-Goes m i k sha c a head b now is_open
