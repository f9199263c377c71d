-- ===== src/Writer/Ledger.antt =====
-- The ledgers of assistant calls and of occupied resources.
use simple_evolution.Prelude.{
  ℕ, String, Bool, ◌&&◌, Option, none, some, [], ◌∷◌, ◌++◌, ◌==◌, string_eq, any, update, is_none,
}
use simple_evolution.Json.{Dict}
use simple_evolution.Db.Rows.{AssistantCall, CallKind, ResourceKind, ResourceRow}
use simple_evolution.Db.Exec.{
  Exec, ◌>>=◌, ◌>>◌, pure, raise_if, gets, modify, time, new_id, transaction, integrity_error,
}

-- The arguments of a call's row, without the time.
unfoldable pub record_assistant_call :
    String
    → String
    → Option String
    → Option String
    → CallKind
    → String
    → Option Bool
    → Dict
    → Option String
    → Exec (Unit {0})
record_assistant_call call_id episode_id lease_id lens kind digest adopted usage world_sha =
    transaction (do
      now ← time
      there ← gets (λ db. any (λ c. c.call_id == call_id) db.assistant_calls)
      raise_if there integrity_error
      let c : AssistantCall = record {
        call_id = call_id;
        episode_id = episode_id;
        lease_id = lease_id;
        lens = lens;
        kind = kind;
        question_digest = digest;
        adopted = adopted;
        usage = usage;
        world_sha = world_sha;
        created_at = now;
      }
      modify (λ db. record db { assistant_calls = db.assistant_calls ++ (c ∷ []) }))

unfoldable pub mark_call_adopted : String → Bool → Exec (Unit {0})
mark_call_adopted call_id adopted = transaction (
    modify λ db. record db {
      assistant_calls =
          update (λ c. c.call_id == call_id) (λ c. record c { adopted = some adopted })
            db.assistant_calls;
    })

unfoldable pub resource_row : String → ResourceKind → String → Option String → ℕ → ResourceRow
resource_row ledger_id kind ref_id allocation_id opened_at = record {
  ledger_id = ledger_id;
  kind = kind;
  ref_id = ref_id;
  allocation_id = allocation_id;
  experiment_id = none;
  opened_at = opened_at;
  closed_at = none;
}

unfoldable pub record_resource_row : String → ResourceKind → Option String → ℕ → Exec String
unfolding resource_row
record_resource_row ref_id kind allocation_id opened_at = do
  ledger_id ← new_id
  transaction (do
    there ← gets (λ db. any (λ r. r.ledger_id == ledger_id) db.resource_ledger)
    raise_if there integrity_error
    modify (λ db. record db {
      resource_ledger =
          db.resource_ledger ++ (resource_row ledger_id kind ref_id allocation_id opened_at ∷ []);
    }))
  pure ledger_id

-- ref_id = ? AND closed_at IS NULL
unfoldable pub is_held : String → ResourceRow → Bool
is_held ref_id r = r.ref_id == ref_id && is_none r.closed_at

unfoldable pub close_resource_row : String → Exec (Unit {0})
unfolding is_held
close_resource_row ref_id = transaction (do
  now ← time
  modify (λ db. record db {
    resource_ledger =
        update (is_held ref_id) (λ r. record r { closed_at = some now }) db.resource_ledger;
  }))
