-- ===== src/Lease/Machine.antt =====
-- The lease state machine: what one call may do to the row of a lease.
use simple_evolution.Prelude.{
  ℕ, ◌+◌, ◌<◌, String, ◌≡◌, refl, sym, ap, ◌∙◌, Bool, true, false, inl, inr, Option, none, some,
  arith, update, find, ◌==◌, string_eq, subst, Bool-cases, find-update, find-holds, eq_iff,
  if◌then◌else◌,
}
use simple_evolution.Db.Rows.{
  ProposerAllocation, Conclusion, LeaseState, researching, awaiting_adjudication, reopen, concluded,
}
use simple_evolution.Db.State.{Db}
use simple_evolution.Db.Select.{get_allocation}
use simple_evolution.Db.Update.{finished_row}

-- COALESCE(state, 'researching') = 'researching'
abbrev pub is_researching : Option LeaseState → Bool
is_researching none = true
is_researching (some researching) = true
is_researching (some _) = false

module _ (max_reopens : ℕ) where
  -- researching -> awaiting_adjudication -> (reopen -> researching | concluded_*), and what else the
  -- code does: a delivery and a conclusion test of the row only that it is not finished, and a
  -- relaunch only that its state is reopen. So a delivery may skip reopen -> researching, and a
  -- conclusion may leave from any state of a lease that is not finished.
  pub data LeaseStep (a b : ProposerAllocation) : Type 0 where
    same : b ≡ a → LeaseStep a b
    deliver :
        a.finished_at ≡ none
        → is_researching a.state ≡ true
        → b ≡ record a { state = some awaiting_adjudication }
        → LeaseStep a b
    deliver_reopened :
        a.finished_at ≡ none
        → a.state ≡ some reopen
        → b ≡ record a { state = some awaiting_adjudication }
        → LeaseStep a b
    deliver_unfinished :
        (outcome : Conclusion)
        → a.finished_at ≡ none
        → a.state ≡ some (concluded outcome)
        → b ≡ record a { state = some awaiting_adjudication }
        → LeaseStep a b
    send_back :
        a.finished_at ≡ none
        → a.state ≡ some awaiting_adjudication
        → a.reopen_count < max_reopens
        → b ≡ record a { state = some reopen; reopen_count = a.reopen_count + 1 }
        → LeaseStep a b
    resume : a.state ≡ some reopen → b ≡ record a { state = some researching } → LeaseStep a b
    conclude :
        (outcome : Conclusion) (produced now : ℕ)
        → a.finished_at ≡ none
        → b ≡ finished_row produced now (some outcome) a
        → LeaseStep a b

  -- A delivery, from whatever state; one that waits already stays as it is.
  pub delivery_step :
      (a : ProposerAllocation)
      → a.finished_at ≡ none
      → LeaseStep a (record a { state = some awaiting_adjudication })
  delivery_step a is_open = go a.state refl
    where
      go :
          (s : Option LeaseState)
          → a.state ≡ s
          → LeaseStep a (record a { state = some awaiting_adjudication })
      go none e = deliver is_open (ground (arith, e)) refl
      go (some researching) e = deliver is_open (ground (arith, e)) refl
      go (some awaiting_adjudication) e = same (ground (arith, e))
      go (some reopen) e = deliver_reopened is_open e refl
      go (some (concluded c)) e = deliver_unfinished c is_open e refl

  -- Every lease is still there, and its row has made one step at most.
  abbrev pub Advances : Db → Db → Type 0
  Advances db db' =
      (i : String) (a : ProposerAllocation)
      → get_allocation i db ≡ some a
      → (b : ProposerAllocation) × (get_allocation i db' ≡ some b) × LeaseStep a b

  pub Advances-same :
      (db db' : Db) → db'.proposer_allocations ≡ db.proposer_allocations → Advances db db'
  unfolding get_allocation
  Advances-same db db' e i a h = (a, rw e h, same refl)

  same_row :
      (i j : String) (db : Db) (a b : ProposerAllocation)
      → get_allocation i db ≡ some a
      → get_allocation j db ≡ some b
      → (b.allocation_id == i) ≡ true
      → a ≡ b
  unfolding get_allocation
  same_row i j db a b ha hb hit =
      let i≡j : i ≡ j =
        sym ((eq_iff b.allocation_id i).0 hit)
        ∙ (eq_iff b.allocation_id j).0
            (find-holds (λ y. y.allocation_id == j) db.proposer_allocations b hb) in
      let again : get_allocation j db ≡ some a = subst (λ k. get_allocation k db ≡ some a) i≡j ha in
      cc (again, hb)

  -- An update of rows, of which it makes steps.
  pub Advances-update :
      (db db' : Db) (p : ProposerAllocation → Bool) (f : ProposerAllocation → ProposerAllocation)
      → ((a : ProposerAllocation) → (f a).allocation_id ≡ a.allocation_id)
      → ((j : String) (a : ProposerAllocation)
          → get_allocation j db ≡ some a
          → p a ≡ true
          → LeaseStep a (f a))
      → db'.proposer_allocations ≡ update p f db.proposer_allocations
      → Advances db db'
  unfolding get_allocation
  Advances-update db db' p f keeps step e j a h = elim (Bool-cases (p a)) [
    | inl hit ↦ (f a, rw e (rw (found a h) (rw hit)), step j a h hit)
    | inr miss ↦ (a, rw e (rw (found a h) (rw miss)), same refl)
  ]
    where
      found :
          (x : ProposerAllocation)
          → find (λ y. y.allocation_id == j) db.proposer_allocations ≡ some x
          → find (λ y. y.allocation_id == j) (update p f db.proposer_allocations)
            ≡ some (if p x then f x else x)
      found x =
          find-update (λ y. y.allocation_id == j) p f (λ y. ap (λ s. s == j) (keeps y))
            db.proposer_allocations x

  -- An update of one lease, of whose row it makes a step.
  pub Advances-update_one :
      (db db' : Db) (i : String) (a : ProposerAllocation)
      (f : ProposerAllocation → ProposerAllocation)
      → ((x : ProposerAllocation) → (f x).allocation_id ≡ x.allocation_id)
      → get_allocation i db ≡ some a
      → LeaseStep a (f a)
      → db'.proposer_allocations ≡ update (λ x. x.allocation_id == i) f db.proposer_allocations
      → Advances db db'
  Advances-update_one db db' i a f keeps found step =
      Advances-update db db' (λ x. x.allocation_id == i) f keeps
        λ j x h hit. subst (λ y. LeaseStep y (f y)) (same_row i j db a x found h hit) step

  pub Advances-finish :
      (db db' : Db) (a : ProposerAllocation) (outcome : Conclusion) (n now : ℕ)
      → a.finished_at ≡ none
      → get_allocation a.allocation_id db ≡ some a
      → db'.proposer_allocations
        ≡ update
            (λ x. x.allocation_id == a.allocation_id)
            (finished_row n now (some outcome))
            db.proposer_allocations
      → Advances db db'
  unfolding finished_row
  Advances-finish db db' a outcome n now is_open found =
      Advances-update_one db db' a.allocation_id a _ (λ x. refl) found
        (conclude outcome n now is_open refl)
