-- ===== src/Supervisor/Limits.antt =====
-- Run limits and the wake event of a change.
use simple_evolution.Prelude.{
  String, true, ◌≡◌, refl, Option, none, some, List, [], ◌∷◌, ◌++◌, arith, string_eq, ◌+◌, map,
  is_unique, subst,
}
use simple_evolution.Json.{Json, Dict}
use simple_evolution.Db.Rows.{SupervisorEvent, budget_changed}
use simple_evolution.Db.State.{Db, World, event_head}
use simple_evolution.Db.Exec.{done, after, transaction}
use simple_evolution.Db.Insert.{insert_supervisor_event}
use simple_evolution.Supervisor.Events.{
  installed, install_one, install_all, notify_budget, install_run_limits, budget_payload,
}
use simple_evolution.Supervisor.Installs.{differing, overridden, given, install_all-Installs}
use simple_evolution.Supervisor.Quiet.{Quiet, SameGate, Quiet-bind, Quiet-pure, Quiet-gets}

-- The wake events after an install that changed the named limits.
pub data Notified (a b : Db) : List String → Type 0 where
  silent : b.supervisor_events ≡ a.supervisor_events → Notified a b []
  woken :
      (name : String) (names : List String) (e : SupervisorEvent)
      → e.type ≡ budget_changed
      → e.event_id ≡ event_head a.supervisor_events + 1
      → b.supervisor_events ≡ a.supervisor_events ++ (e ∷ [])
      → Notified a b (name ∷ names)

module _ (encode : Json → String) where
  Quiet-install_one :
      (name value : String) (old : Option String) → Quiet (install_one encode name value old)
  unfolding install_one
  Quiet-install_one name value none = record { at = λ w. ground arith }
  Quiet-install_one name value (some old) = record { at = λ w. ground arith }

  Quiet-install_all : (limits : Dict) → Quiet (install_all encode limits)
  unfolding install_all
  Quiet-install_all [] = Quiet-pure []
  Quiet-install_all ((name, v) ∷ rest) =
      Quiet-bind (Quiet-gets (λ db. installed name db.run_limits)) λ old.
        Quiet-bind (Quiet-install_one name (encode v) old)
          λ first. Quiet-bind (Quiet-install_all rest) λ others. Quiet-pure (first ++ others)

  notified :
      (changed : List String) (limits : Dict) (a : Db) (w : World)
      → SameGate a w.db
      → (v : World) × (notify_budget encode changed limits w ≡ done tt v)
        × Notified a v.db changed
        × (v.run_limits ≡ w.run_limits)
  unfolding notify_budget insert_supervisor_event
  notified [] limits a w q = (w, refl, silent q.events, refl)
  notified (name ∷ names) limits a w q = (
    after (notify_budget encode (name ∷ names) limits w),
    refl,
    woken name names
        (record {
          event_id = event_head w.supervisor_events + 1;
          type = budget_changed;
          payload = budget_payload (name ∷ names) limits;
          created_at = w.clock w.readings;
        })
        refl (ground (arith, q.events)) (ground (arith, q.events)),
    refl,
  )

-- Installing limits, no two under one name, returns the names of those that were there with
-- another value, in their order. Each of the limits has then the given value, and any other is
-- what it was. If a name is returned, exactly one wake event has been appended, of type
-- budget_changed and with the next id; if none is, no wake event.
pub install_run_limits-wakes :
    (encode : Json → String) (limits : Dict) (w : World)
    → is_unique (map (λ l. l.0) limits) ≡ true
    → (v : World) × (install_run_limits encode limits w
        ≡ done (differing encode limits w.run_limits) v)
      × ((n : String)
          → installed n v.run_limits
            ≡ overridden (given encode n limits) (installed n w.run_limits))
      × Notified w.db v.db (differing encode limits w.run_limits)
unfolding install_run_limits transaction
install_run_limits-wakes encode limits w h =
    let (u, runs, left) = install_all-Installs encode limits w h in
    let changed = differing encode limits w.run_limits in
    let quiet : SameGate w.db u.db =
      subst (λ o. SameGate w.db (after o).db) runs ((Quiet-install_all encode limits).at w) in
    let (v, notifies, n, kept) = notified encode changed limits w.db u quiet in
    (v, ground (arith, runs, notifies), λ m. ground (arith, left m, kept), n)
