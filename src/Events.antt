-- ===== src/Events.antt =====
-- persistence_events.py: checkpoints, tool events, and the audit events of authorization and
-- recovery.
pub mod Frame
use Prim.Native.String
use mathlib.Core.List.{reverse}
use ahmed_agent.Base.{
  ℕ, ◌+◌, Bool, ◌||◌, not, Option, none, some, String, List, ◌∷◌, take, ltb, ◌==◌, str_eq,
  if◌then◌else◌,
}
use ahmed_agent.Base.Json.{Json, obj, end, field, str, bool}
use ahmed_agent.Base.Table.{select_all, update}
use ahmed_agent.Schema.{Run, Checkpoint}
use ahmed_agent.Exec.{Exec, Transaction, value_error, raise, transact}
use ahmed_agent.Audit.{Hashing, NewEvent, append_audit_event}
use ahmed_agent.Runs

-- `status not in {"success", "failed"}`
abbrev invalid_tool_status : String → Bool
invalid_tool_status status = not (str_eq status "success" || str_eq status "failed")

unfoldable pub record_tool_event : ℕ → String → String → Option ℕ → Json → Exec (Unit {0})
record_tool_event run_id tool_name status duration_ms safe_metadata =
    if invalid_tool_status status
    then raise value_error
    else transact λ now db. some (
      tt,
      record db {
        tool_events =
            record {
              run_id = run_id;
              tool_name = tool_name;
              status = status;
              duration_ms = duration_ms;
              safe_metadata = safe_metadata;
              created_at = now;
            }
            ∷ db.tool_events;
      },
    )

-- `not stage or len(stage) > 64`
abbrev pub invalid_stage : String → Bool
invalid_stage stage = str_eq stage "" || ltb 64 (String.count stage)

-- The columns that a checkpoint sets in its run.
unfoldable pub at_stage : String → ℕ → Run → Run
at_stage stage now r = record r { stage = stage; last_checkpoint_at = some now }

abbrev stage_event : ℕ → ℕ → String → NewEvent
stage_event session_id run_id stage = record {
  session_id = some session_id;
  run_id = some run_id;
  action_id = none;
  event_type = "run.checkpoint";
  tool_name = none;
  status = stage;
  safe_metadata = obj (field "stage" (str stage) end);
}

-- `limit < 1 or limit > 100`
abbrev invalid_limit : ℕ → Bool
invalid_limit limit = ltb limit 1 || ltb 100 limit

unfoldable pub load_run_checkpoints : ℕ → ℕ → Exec (List Checkpoint)
load_run_checkpoints run_id limit =
    if invalid_limit limit
    then raise value_error
    else transact λ now db. some (
      take limit (reverse (select_all (λ (c : Checkpoint). c.run_id == run_id) db.checkpoints)),
      db,
    )

module _ (h : Hashing) where
  -- The INSERT of the checkpoint, the UPDATE of the run and the audit event, in one transaction.
  unfoldable pub insert_checkpoint : ℕ → ℕ → String → Json → Transaction (Unit {0})
  unfolding at_stage
  insert_checkpoint session_id run_id stage state now db =
      let inserted = record db {
        checkpoints =
            record {
              checkpoint_id = db.checkpoint_seq;
              session_id = session_id;
              run_id = run_id;
              stage = stage;
              state_json = state;
              created_at = now;
            }
            ∷ db.checkpoints;
        checkpoint_seq = db.checkpoint_seq + 1;
        runs = update (Runs.by_id run_id) (at_stage stage now) db.runs;
      } in
      some (tt, (append_audit_event h (stage_event session_id run_id stage) now inserted).1)

  unfoldable pub record_run_checkpoint : ℕ → ℕ → String → Json → Exec (Unit {0})
  unfolding insert_checkpoint
  record_run_checkpoint session_id run_id stage state =
      if invalid_stage stage
      then raise value_error
      else transact (insert_checkpoint session_id run_id stage state)

  abbrev or_null : Option String → Json
  or_null none = Json.null
  or_null (some s) = str s

  -- The event carries the action's id as the column and as text in the metadata; `uuid_text` is
  -- the printer of UUIDs.
  unfoldable pub record_auth_event :
      (ℕ → String) → String → Bool → String → Option ℕ → String → Exec (Unit {0})
  record_auth_event uuid_text principal authenticated endpoint action_id result = transact λ now db.
      some (
        tt,
        (append_audit_event h
            (record {
              session_id = none;
              run_id = none;
              action_id = action_id;
              event_type = "auth.authorization";
              tool_name = none;
              status = result;
              safe_metadata = obj (
                  field "principal" (str principal) (
                    field "authenticated" (bool authenticated) (
                      field "endpoint" (str endpoint) (
                        field "action_id"
                          (elim action_id [ none ↦ Json.null | some i ↦ str (uuid_text i) ])
                          (field "result" (str result) end)))));
            })
            now db).1,
      )

  -- `event_type not in {"recovery.failed", "recovery.completed"}`
  abbrev invalid_recovery : String → Bool
  invalid_recovery event_type =
      not (str_eq event_type "recovery.failed" || str_eq event_type "recovery.completed")

  unfoldable pub record_recovery_event : ℕ → ℕ → String → String → Json → Exec (Unit {0})
  record_recovery_event session_id run_id event_type status safe_metadata =
      if invalid_recovery event_type
      then raise value_error
      else transact λ now db. some (
        tt,
        (append_audit_event h
            (record {
              session_id = some session_id;
              run_id = some run_id;
              action_id = none;
              event_type = event_type;
              tool_name = none;
              status = status;
              safe_metadata = safe_metadata;
            })
            now db).1,
      )
