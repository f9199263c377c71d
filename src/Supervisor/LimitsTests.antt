-- ===== src/Supervisor/LimitsTests.antt =====
-- A change of a run limit on a small store.
use simple_evolution.Prelude.{ℕ, String, ◌≡◌, refl, [], ◌∷◌}
use simple_evolution.Prelude.Int.{pos}
use simple_evolution.Text.{show}
use simple_evolution.Json.{Json, Dict, number}
use simple_evolution.Db.State.{World}
use simple_evolution.Db.Exec.{done, after, transaction}
use simple_evolution.Supervisor.Events.{
  installed, install_run_limits, install_all, install_one, notify_budget, replace_limit,
}
use simple_evolution.Supervisor.Installs.{differing, overridden, given}
use simple_evolution.Supervisor.Limits.{Notified, install_run_limits-wakes}
use simple_evolution.Samples.{small_db, world}

-- The JSON text of the limits used here.
abbrev encode_limit : Json → String
encode_limit (number (pos n)) = show n
encode_limit _ = "null"

abbrev limits : ℕ → Dict
limits n = ("max_terminal_evals", number (pos n)) ∷ []

abbrev limited_world : World
limited_world = after (install_run_limits encode_limit (limits 10) (world small_db))

install_run_limits-wakes_example :
    (v : World) × (install_run_limits encode_limit (limits 20) limited_world
      ≡ done (differing encode_limit (limits 20) limited_world.run_limits) v)
    × ((n : String)
        → installed n v.run_limits
          ≡ overridden (given encode_limit n (limits 20)) (installed n limited_world.run_limits))
    × Notified limited_world.db v.db (differing encode_limit (limits 20) limited_world.run_limits)
install_run_limits-wakes_example =
    install_run_limits-wakes encode_limit (limits 20) limited_world refl

-- The first install is no change, the second is.
reports_change :
    differing encode_limit (limits 20) limited_world.run_limits ≡ "max_terminal_evals" ∷ []
unfolding install_run_limits install_all install_one replace_limit notify_budget installed show
    transaction
reports_change = refl
