-- ===== src/Writer/LeaseLaws.antt =====
-- A registration of the research state of a lease, and the entries of its log.
use simple_evolution.Prelude.{
  append_one, append_none, sym, ℕ, suc, ◌+◌, String, Bool, true, false, not, ◌&&◌, ◌≡◌, refl, ap,
  ◌∙◌, Option, none, some, List, [], ◌∷◌, ◌++◌, ◌==◌, string_eq, option_eq, any, find, update,
  length, get_or, arith, eq_refl, eq_iff, find-update, find-update-none, find-append, any-update,
  is_some-find, find-holds,
}
use simple_evolution.Json.{Json}
use simple_evolution.Db.Rows.{ResearchState}
use simple_evolution.Db.State.{Db, World}
use simple_evolution.Db.Exec.{done, for_each, transaction}
use simple_evolution.Writer.Lease.{
  Registration, head_id, of_lease, lease_row, update_lease_row, rewritten, first_row,
  insert_first_row, revision_of, upsert_on_tx, upsert_lease_research_state, next_revision, logged,
  append_experiment_log_entry,
}

-- The revision of the row of a lease, 0 when there is none.
abbrev pub revision_in : Option ResearchState → ℕ
revision_in none = 0
revision_in (some s) = get_or s.revision 0

-- The row holds what the seat has registered.
pub record Holds (a : Registration) (n : ℕ) (s : ResearchState) : Type 0 where
  lease : s.lease_id ≡ some a.lease_id
  model : s.working_model ≡ a.working_model
  refs : s.evidence_refs ≡ a.evidence_refs
  evidence : s.evidence ≡ some a.evidence
  log : s.experiment_log ≡ some a.experiment_log
  deliverables : s.deliverables ≡ some a.deliverables
  conclusion : s.conclusion ≡ a.conclusion
  revision : s.revision ≡ some n

-- The row is the first of its lease, under the episode's own id, or has kept what it was.
pub record Begins (a : Registration) (s : ResearchState) : Type 0 where
  state : s.research_state_id ≡ head_id a.episode_id
  node : s.node_id ≡ a.node_id
  episode : s.episode_id ≡ a.episode_id

pub record Stays (old s : ResearchState) : Type 0 where
  state : s.research_state_id ≡ old.research_state_id
  node : s.node_id ≡ old.node_id
  episode : s.episode_id ≡ old.episode_id
  created : s.created_at ≡ old.created_at

abbrev pub Placed : Registration → Option ResearchState → ResearchState → Type 0
Placed a none s = Begins a s
Placed a (some old) s = Stays old s

-- Another row has taken the id of a lease that has no row.
abbrev pub head_taken : Registration → Db → Bool
head_taken a db =
    not (any (of_lease a.lease_id) db.research_states)
    && any (λ s. s.research_state_id == head_id a.episode_id) db.research_states

-- What a registration returns and leaves.
abbrev pub Registered : Registration → World → Type 0
Registered a w =
    (v : World) × (s : ResearchState) × (upsert_lease_research_state a w
      ≡ done (revision_in (lease_row a.lease_id w.db) + 1) v)
    × (lease_row a.lease_id v.db ≡ some s)
    × Holds a (revision_in (lease_row a.lease_id w.db) + 1) s
    × Placed a (lease_row a.lease_id w.db) s

lease_row-id :
    (i : String) (w : World) (s : ResearchState) → lease_row i w.db ≡ some s → s.lease_id ≡ some i
unfolding lease_row of_lease
lease_row-id i w s f =
    known s.lease_id (find-holds (λ x. x.lease_id == some i) w.research_states s f)
  where
    known : (o : Option String) → (o == some i) ≡ true → o ≡ some i
    known none h = cc
    known (some j) h = ap some ((eq_iff j i).0 h)

rewritten-Holds :
    (a : Registration) (s : ResearchState) (w : World)
    → lease_row a.lease_id w.db ≡ some s
    → Holds a (revision_in (lease_row a.lease_id w.db) + 1) (rewritten a s)
unfolding rewritten
rewritten-Holds a s w f = record {
  lease = ground (arith, lease_row-id a.lease_id w s f);
  model = refl;
  refs = refl;
  evidence = refl;
  log = refl;
  deliverables = refl;
  conclusion = refl;
  revision = ground (arith, f);
}

first_row-Holds : (a : Registration) (now : ℕ) → Holds a 1 (first_row a now)
unfolding first_row
first_row-Holds a now = record {
  lease = refl;
  model = refl;
  refs = refl;
  evidence = refl;
  log = refl;
  deliverables = refl;
  conclusion = refl;
  revision = refl;
}

rewritten-Stays : (a : Registration) (s : ResearchState) → Stays s (rewritten a s)
unfolding rewritten
rewritten-Stays a s = record { state = refl; node = refl; episode = refl; created = refl }

first_row-Begins : (a : Registration) (now : ℕ) → Begins a (first_row a now)
unfolding first_row
first_row-Begins a now = record { state = refl; node = refl; episode = refl }

again-Registered :
    (a : Registration) (w : World) (s : ResearchState)
    → lease_row a.lease_id w.db ≡ some s
    → Registered a w
unfolding upsert_lease_research_state upsert_on_tx transaction lease_row update_lease_row
    revision_of rewritten
again-Registered a w s f =
    let mine = of_lease a.lease_id in
    let there : any mine w.research_states ≡ true =
      ground (arith, f, is_some-find mine w.research_states) in
    let row : find mine (update mine (rewritten a) w.research_states) ≡ some (rewritten a s) =
      ground (
        arith,
        find-update mine mine (rewritten a) (λ _. refl) w.research_states s f,
        find-holds mine w.research_states s f,
      ) in
    let v : World = record w {
      db = update_lease_row a.lease_id (rewritten a) w.db;
      readings = suc w.readings;
    } in
    (
      v,
      rewritten a s,
      ground (arith, there, row, f),
      row,
      rewritten-Holds a s w f,
      rw f (rewritten-Stays a s),
    )

fresh-Registered :
    (a : Registration) (w : World)
    → lease_row a.lease_id w.db ≡ none
    → any (λ s. s.research_state_id == head_id a.episode_id) w.research_states ≡ false
    → Registered a w
unfolding upsert_lease_research_state upsert_on_tx transaction lease_row update_lease_row
    revision_of insert_first_row rewritten first_row of_lease
fresh-Registered a w f free =
    let now = w.clock w.readings in
    let mine = of_lease a.lease_id in
    let named = λ (s : ResearchState). s.research_state_id == head_id a.episode_id in
    let rows = update mine (rewritten a) w.research_states in
    let there : any mine w.research_states ≡ false =
      ground (arith, f, is_some-find mine w.research_states) in
    let untaken : any named rows ≡ false =
      any-update named mine (rewritten a) (λ _. refl) w.research_states ∙ free in
    let absent : find mine rows ≡ none =
      find-update-none mine mine (rewritten a) (λ _. refl) w.research_states f in
    let row : find mine (rows ++ (first_row a now ∷ [])) ≡ some (first_row a now) =
      ground (arith, find-append mine rows (first_row a now ∷ []), absent, eq_refl a.lease_id) in
    let v : World = record w {
      db = record w.db { research_states = rows ++ (first_row a now ∷ []) };
      readings = suc w.readings;
    } in
    (
      v,
      first_row a now,
      ground (arith, there, untaken, row, f),
      row,
      ground (arith, f, first_row-Holds a now),
      rw f (first_row-Begins a now),
    )

-- Unless another row has taken the id of a lease that has no row, a registration returns the
-- revision after that of the row of the lease, or 1, and the row of the lease holds the six
-- blocks that were registered, at that revision. A first row has the node, the episode and the id
-- made of the episode; a later one keeps its own, and its time.
pub upsert-Registered : (a : Registration) (w : World) → head_taken a w.db ≡ false → Registered a w
unfolding lease_row
upsert-Registered a w free = go (find (of_lease a.lease_id) w.research_states) refl
  where
    go :
        (o : Option ResearchState)
        → find (of_lease a.lease_id) w.research_states ≡ o
        → Registered a w
    go none f =
        fresh-Registered a w f
          (ground (arith, free, f, is_some-find (of_lease a.lease_id) w.research_states))
    go (some s) f = again-Registered a w s f

-- What the entries of a log leave: the row with all of them, one revision on for each.
abbrev pub Logged : String → List Json → ResearchState → ℕ → World → Type 0
Logged i entries s r w =
    (v : World) × (t : ResearchState) × (for_each entries (append_experiment_log_entry i) w
      ≡ done tt v)
    × (lease_row i v.db ≡ some t)
    × (get_or t.experiment_log [] ≡ get_or s.experiment_log [] ++ entries)
    × (t.revision ≡ some (r + length entries))

-- Entries appended to the log of a lease whose row has a revision all return; the log is the old
-- one followed by them in their order, one revision on for each.
pub append-Logged :
    (i : String) (entries : List Json) (s : ResearchState) (r : ℕ) (w : World)
    → lease_row i w.db ≡ some s
    → s.revision ≡ some r
    → Logged i entries s r w
unfolding append_experiment_log_entry transaction lease_row update_lease_row logged next_revision
append-Logged i [] s r w f e =
    (w, s, refl, f, sym (append_none (get_or s.experiment_log [])), ground (arith, e))
append-Logged i (x ∷ xs) s r w f e =
    let t : ResearchState = logged (get_or s.experiment_log [] ++ (x ∷ [])) s in
    let u : World = record w {
      db = update_lease_row i (logged (get_or s.experiment_log [] ++ (x ∷ []))) w.db;
    } in
    let row : lease_row i u.db ≡ some t = ground (
      arith,
      find-update (of_lease i) (of_lease i) (logged (get_or s.experiment_log [] ++ (x ∷ [])))
          (λ _. refl) w.research_states s f,
      find-holds (of_lease i) w.research_states s f,
    ) in
    let (v, y, runs, last, log, revision) =
      append-Logged i xs t (r + 1) u row (ground (arith, e)) in
    (
      v,
      y,
      ground (arith, f, runs),
      last,
      log ∙ append_one (get_or s.experiment_log []) x xs,
      ground (arith, revision),
    )
