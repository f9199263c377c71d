-- ===== src/Db/Exec.antt =====
-- Python statements that read and write the world and may raise. An exception keeps what was drawn
-- from outside; a transaction that raises restores the database.
use simple_evolution.Prelude.{ℕ, suc, String, Bool, true, false, Option, none, some, List, [], ◌∷◌}
use simple_evolution.Db.State.{Db, World}

-- The exceptions that the store raises, one constructor for each `raise`.
pub data Error : Type 0 where
  unknown_experiment unknown_node unknown_episode unknown_allocation : String → Error
  no_allocation : Error
  already_terminal : String → Error
  missing_parent : String → Error
  missing_proposal_id : Error
  not_reserved : String → Error
  explore_with_donors synthesize_without_donors : Error
  episode_of_another_node : Error
  episode_holds_lens : String → String → Error
  missing_id duplicate_id : String → Error
  invalid_state_id duplicate_state_id unknown_state_id unknown_derived_from : String → Error
  state_of_another : Error
  invalid_conclusion_kind : Error
  conclusion_of_another : Error
  vacuous_exit : Error
  bad_world_sha : Error
  world_exists : Error
  handover_too_long : Error
  unexpected_world_sha : Error
  unknown_decision_kind : String → Error
  kind_takes_no_nodes missing_request missing_review missing_node_ids : Error
  stale_decision : ℕ → Error
  request_already_open request_conflict request_without_donors request_not_open : Error
  unknown_request : Error
  invalid_review : Error
  review_needs_candidate : Error
  older_epoch no_epoch : Error
  not_awaiting_review : Error
  not_a_number : Error
  several_requests : Error
  unknown_operation : Error
  key_error : String → Error
  no_lease_state : String → Error
  incomplete_request repeated_donors unknown_target donors_not_passed : Error
  too_many_seats no_lens_basis : Error
  duplicate_purchase : String → String → Error
  unknown_lens not_allocatable : String → Error
  lens_burned : String → String → Error
  malformed_purchase : String → Error
  premature_stop : Error
  integrity_error : Error

pub data Outcome (A : Type 0) : Type 0 where
  done : A → World → Outcome A
  raised : Error → World → Outcome A

abbrev pub Exec : Type 0 → Type 0
Exec A = World → Outcome A

abbrev pub and_then : {A B : Type 0} → Outcome A → (A → Exec B) → Outcome B
and_then (done a w) f = f a w
and_then (raised e w) f = raised e w

infixl 5 ◌>>=◌ ◌>>◌
abbrev pub ◌>>=◌ : {A B : Type 0} → Exec A → (A → Exec B) → Exec B
◌>>=◌ m f w = and_then (m w) f

abbrev pub ◌>>◌ : {B : Type 0} → Exec (Unit {0}) → Exec B → Exec B
m >> k = m >>= λ _. k

abbrev pub pure : {A : Type 0} → A → Exec A
pure a w = done a w

abbrev pub raise : {A : Type 0} → Error → Exec A
raise e w = raised e w

-- if test: raise e
abbrev pub raise_if : Bool → Error → Exec (Unit {0})
raise_if true e w = raised e w
raise_if false e w = done tt w

-- The value, or `raise e` on None.
abbrev pub or_raise : {A : Type 0} → Option A → Error → Exec A
or_raise none e w = raised e w
or_raise (some a) e w = done a w

abbrev pub gets : {A : Type 0} → (Db → A) → Exec A
gets f w = done (f w.db) w

abbrev pub modify : (Db → Db) → Exec (Unit {0})
modify f w = done tt (record w { db = f w.db })

-- time.time()
abbrev pub time : Exec ℕ
time w = done (w.clock w.readings) (record w { readings = suc w.readings })

-- _new_id()
abbrev pub new_id : Exec String
new_id w = done (w.uuid w.drawn) (record w { drawn = suc w.drawn })

abbrev pub new_ids : ℕ → Exec (List String)
new_ids ℕ.zero = pure []
new_ids (suc n) = do i ← new_id; is ← new_ids n; pure (i ∷ is)

abbrev pub for_each : {A : Type 0} → List A → (A → Exec (Unit {0})) → Exec (Unit {0})
for_each [] body = pure tt
for_each (x ∷ xs) body = do body x; for_each xs body

-- [body(x) for x in xs]
abbrev pub collect : {A B : Type 0} → List A → (A → Exec B) → Exec (List B)
collect [] body = pure []
collect (x ∷ xs) body = do b ← body x; bs ← collect xs body; pure (b ∷ bs)

abbrev pub commit_or_roll_back : {A : Type 0} → Db → Outcome A → Outcome A
commit_or_roll_back db (done a w) = done a w
commit_or_roll_back db (raised e w) = raised e (record w { db = db })

-- `conn.commit()` after the body, `conn.rollback()` when it raises.
unfoldable pub transaction : {A : Type 0} → Exec A → Exec A
transaction m w = commit_or_roll_back w.db (m w)

-- The world that a statement leaves, whether it raises or not.
abbrev pub after : {A : Type 0} → Outcome A → World
after (done a w) = w
after (raised e w) = w
