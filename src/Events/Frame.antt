-- ===== src/Events/Frame.antt =====
-- What is not of the table of tool events stays as it is when one is recorded.
use mathlib.Core.Option.{some-injective}
use mathlib.Core.Path.{subst}
use ahmed_agent.Base.{ℕ, ap, Option, String, List}
use ahmed_agent.Base.Json.{Json}
use ahmed_agent.Schema.{Db, ToolEvent}
use ahmed_agent.Exec.Preserves.{Preserves, Preserves-transact, Preserves-if, Preserves-raise}
use ahmed_agent.Events.{record_tool_event}

module _ (P : Db → Type 0)
    (on_events : (db : Db) (es : List ToolEvent) → P db → P (record db { tool_events = es })) where
  pub record_tool_event-keeps :
      (run_id : ℕ) (tool_name status : String) (duration_ms : Option ℕ) (safe_metadata : Json)
      → Preserves P (record_tool_event run_id tool_name status duration_ms safe_metadata)
  unfolding record_tool_event
  record_tool_event-keeps run_id tool_name status duration_ms safe_metadata =
      Preserves-if _ _ _ _ (Preserves-raise _ _) (
        Preserves-transact _ _ (λ now db a db' p e.
          subst P (ap (λ (q : Unit {0} × Db). q.1) (some-injective _ _ e)) (on_events db _ p)))
