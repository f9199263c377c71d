-- ===== src/Supervisor/Events.antt =====
-- Wake events and their cursor, scheduler events and run limits.
use simple_evolution.Prelude.{
  ℕ, String, Option, none, some, List, [], ◌∷◌, ◌++◌, ◌==◌, string_eq, select, order_by, get_or,
  ltb, if◌then◌else◌, last?,
}
use simple_evolution.Json.{Json, Dict, null, dict, texts, lookup}
use simple_evolution.Db.Rows.{EventType, budget_changed, SupervisorEvent, RunLimit}
use simple_evolution.Db.State.{Db, event_head}
use simple_evolution.Db.Exec.{Exec, ◌>>=◌, ◌>>◌, pure, gets, modify, time, transaction}
use simple_evolution.Db.Insert.{insert_supervisor_event, insert_scheduler_event}

-- The event is written before any notification. `lastrowid` is its id.
unfoldable pub emit_supervisor_event : EventType → Json → Exec ℕ
unfolding insert_supervisor_event
emit_supervisor_event type payload = transaction (do
  now ← time
  modify (insert_supervisor_event type payload now)
  gets (λ db. event_head db.supervisor_events))

unfoldable pub supervisor_event_head : Db → ℕ
supervisor_event_head db = event_head db.supervisor_events

-- ResearchQueries.supervisor_event_cursor: 0 before the first decision.
unfoldable pub supervisor_event_cursor : Db → ℕ
supervisor_event_cursor db = get_or db.supervisor_cursor 0

-- SELECT * FROM supervisor_events WHERE event_id > ? ORDER BY event_id
unfoldable pub pending_supervisor_events : Db → List SupervisorEvent
unfolding supervisor_event_cursor
pending_supervisor_events db =
    order_by (λ a b. ltb a.event_id b.event_id)
      (select (λ e. ltb (supervisor_event_cursor db) e.event_id) db.supervisor_events)

unfoldable pub record_scheduler_event : String → Json → Exec (Unit {0})
record_scheduler_event type payload =
    transaction (do now ← time; insert_scheduler_event type payload now)

-- ORDER BY created_at DESC, rowid DESC LIMIT 1
unfoldable pub latest_scheduler_event : String → Db → Option Json
latest_scheduler_event type db =
    elim (last? (
      order_by (λ a b. ltb a.created_at b.created_at)
        (select (λ e. e.type == type) db.scheduler_events))) [
          | none ↦ none
          | some e ↦ some e.payload
        ]

unfoldable pub installed : String → List RunLimit → Option String
installed name [] = none
installed name (l ∷ ls) = if l.name == name then some l.value else installed name ls

-- INSERT OR REPLACE INTO run_limits
unfoldable pub replace_limit : String → String → ℕ → List RunLimit → List RunLimit
replace_limit name value now [] = record { name = name; value = value; updated_at = now } ∷ []
replace_limit name value now (l ∷ ls) =
    if l.name == name
    then record { name = name; value = value; updated_at = now } ∷ ls
    else l ∷ replace_limit name value now ls

unfoldable pub budget_payload : List String → Dict → Json
budget_payload changed limits = dict (
    ("changed", texts changed)
    ∷ ("max_terminal_evals", get_or (lookup "max_terminal_evals" limits) null)
    ∷ ("budget_usd", get_or (lookup "budget_usd" limits) null)
    ∷ [])

-- json.dumps with sorted keys.
module _ (encode : Json → String) where
  -- One limit: the name, if it was installed with another value.
  unfoldable pub install_one : String → String → Option String → Exec (List String)
  unfolding replace_limit
  install_one name value none = do
    now ← time
    modify (λ db. record db { run_limits = replace_limit name value now db.run_limits })
    pure []
  install_one name value (some old) = if old == value then pure [] else do
    now ← time
    modify (λ db. record db { run_limits = replace_limit name value now db.run_limits })
    pure (name ∷ [])

  -- The loop over the sorted names.
  unfoldable pub install_all : Dict → Exec (List String)
  unfolding install_one installed
  install_all [] = pure []
  install_all ((name, v) ∷ rest) = do
    old ← gets (λ db. installed name db.run_limits)
    first ← install_one name (encode v) old
    others ← install_all rest
    pure (first ++ others)

  unfoldable pub notify_budget : List String → Dict → Exec (Unit {0})
  unfolding budget_payload insert_supervisor_event
  notify_budget [] limits = pure tt
  notify_budget (name ∷ names) limits = do
    now ← time
    modify (insert_supervisor_event budget_changed (budget_payload (name ∷ names) limits) now)

  -- `limits` is in the order of its names.
  unfoldable pub install_run_limits : Dict → Exec (List String)
  unfolding install_all notify_budget
  install_run_limits limits =
      transaction (do changed ← install_all limits; notify_budget changed limits; pure changed)
