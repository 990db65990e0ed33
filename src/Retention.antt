-- ===== src/Retention.antt =====
-- persistence_runs.py: what is deleted after some time, the preview of it and the cleanup.
pub mod Exact
pub mod Keep
mod Examples
use ahmed_agent.Base.{
  ℕ, ◌+◌, ◌*◌, Bool, true, false, ◌&&◌, ◌||◌, not, Option, none, some, String, List, [], ◌∷◌, map,
  length, ltb, ◌==◌, str_eq, is_some, if◌then◌else◌,
}
use ahmed_agent.Base.Json.{Json, Items, obj, end, field, int, str, arr, nil, cons}
use ahmed_agent.Base.Table.{select, select_all, delete, count}
use ahmed_agent.Schema.{
  Db, Run, RunStatus, Session, Checkpoint, Message, ToolEvent, PendingAction, succeeded, failed,
  second,
}
use ahmed_agent.Exec.{Exec, Transaction, transact}
use ahmed_agent.Audit.{Hashing, NewEvent, append_audit_event}
use ahmed_agent.Runs.{by_id, is_orphaned}

abbrev pub days : ℕ → ℕ
days n = n * 86400 * second

-- `scope = ANY(TEST_RETENTION_SCOPES)`
abbrev pub is_test_scope : String → Bool
is_test_scope scope = str_eq scope "fault_injection" || str_eq scope "probe"

abbrev pub is_succeeded : RunStatus → Bool
is_succeeded succeeded = true
is_succeeded _ = false

abbrev pub is_failed : RunStatus → Bool
is_failed failed = true
is_failed _ = false

-- The WHERE of the preview, for a row of the join of a checkpoint with a run.
unfoldable pub expired : ℕ → Run → Checkpoint → Bool
expired now r c =
    (is_succeeded r.status && ltb (c.created_at + days 30) now)
    || ((is_failed r.status || is_orphaned r.recovery_status) && ltb (c.created_at + days 90) now)

-- The rows of the join, ON the id of the run.
unfoldable pub candidate_rows : ℕ → List Run → List Checkpoint → ℕ
unfolding expired
candidate_rows now runs [] = 0
candidate_rows now runs (c ∷ cs) =
    count (λ (r : Run). by_id c.run_id r && expired now r c) runs + candidate_rows now runs cs

-- The DELETE … USING of the cleanup: a checkpoint goes where some run meets its WHERE.
unfoldable pub is_due : ℕ → List Run → Checkpoint → Bool
is_due now [] c = false
is_due now (r ∷ rs) c =
    c.run_id == r.run_id
      && ((is_succeeded r.status && ltb (c.created_at + days 30) now)
          || ((is_failed r.status || is_orphaned r.recovery_status)
              && ltb (c.created_at + days 90) now))
    || is_due now rs c

abbrev pub in_test_session : Option Session → Bool
in_test_session none = false
in_test_session (some s) = is_test_scope s.scope

-- The join of a run with its session.
unfoldable pub is_test_run : List Session → Run → Bool
is_test_run sessions r =
    in_test_session (select (λ (s : Session). s.session_id == r.session_id) sessions)

pub record Preview : Type 0 where
  pub checkpoint_candidates : ℕ
  pub test_run_candidates : ℕ
  pub audit_events_preserved : ℕ

unfoldable pub preview : ℕ → Db → Preview
unfolding candidate_rows
preview now db = record {
  checkpoint_candidates = candidate_rows now db.runs db.checkpoints;
  test_run_candidates = count (is_test_run db.sessions) db.runs;
  audit_events_preserved = length db.audit;
}

unfoldable pub retention_preview : Exec Preview
unfolding preview
retention_preview = transact λ now db. some (preview now db, db)

-- `run_id = ANY(…)`
abbrev pub is_any : List ℕ → ℕ → Bool
is_any [] id = false
is_any (x ∷ xs) id = id == x || is_any xs id

pub record Deleted : Type 0 where
  pub deleted_runs : ℕ
  pub deleted_sessions : ℕ
  pub deleted_messages : ℕ
  pub deleted_checkpoints : ℕ
  pub deleted_tool_events : ℕ
  pub deleted_pending_actions : ℕ

abbrev pub nothing_deleted : Deleted
nothing_deleted = record {
  deleted_runs = 0;
  deleted_sessions = 0;
  deleted_messages = 0;
  deleted_checkpoints = 0;
  deleted_tool_events = 0;
  deleted_pending_actions = 0;
}

abbrev pub message_of : List ℕ → Message → Bool
message_of ids m = is_any ids m.run_id

abbrev pub checkpoint_of : List ℕ → Checkpoint → Bool
checkpoint_of ids c = is_any ids c.run_id

abbrev pub tool_event_of : List ℕ → ToolEvent → Bool
tool_event_of ids e = is_any ids e.run_id

abbrev pub action_of : List ℕ → PendingAction → Bool
action_of ids a = is_any ids a.run_id

abbrev pub run_of : List ℕ → Run → Bool
run_of ids r = is_any ids r.run_id

-- A test session without a run.
abbrev pub is_left : List Run → Session → Bool
is_left runs s =
    is_test_scope s.scope && not (is_some (select (λ (r : Run). r.session_id == s.session_id) runs))

-- The first DELETE.
unfoldable pub delete_expired : ℕ → Db → Db × Deleted
unfolding is_due
delete_expired now db = (
  record db { checkpoints = delete (is_due now db.runs) db.checkpoints },
  record nothing_deleted { deleted_checkpoints = count (is_due now db.runs) db.checkpoints },
)

-- The DELETEs of the runs that were selected.
unfoldable pub delete_runs : List ℕ → Db × Deleted → Db × Deleted
delete_runs [] state = state
delete_runs (id ∷ more) (db, d) =
    let ids = id ∷ more in
    let runs = delete (run_of ids) db.runs in
    (
      record db {
        messages = delete (message_of ids) db.messages;
        checkpoints = delete (checkpoint_of ids) db.checkpoints;
        tool_events = delete (tool_event_of ids) db.tool_events;
        actions = delete (action_of ids) db.actions;
        runs = runs;
        sessions = delete (is_left runs) db.sessions;
      },
      record d {
        deleted_messages = count (message_of ids) db.messages;
        deleted_checkpoints = d.deleted_checkpoints + count (checkpoint_of ids) db.checkpoints;
        deleted_tool_events = count (tool_event_of ids) db.tool_events;
        deleted_pending_actions = count (action_of ids) db.actions;
        deleted_runs = count (run_of ids) db.runs;
        deleted_sessions = count (is_left runs) db.sessions;
      },
    )

abbrev pub test_ids : Db → List ℕ
test_ids db = map (λ (r : Run). r.run_id) (select_all (is_test_run db.sessions) db.runs)

unfoldable pub delete_all : Bool → ℕ → Db → Db × Deleted
unfolding delete_expired delete_runs is_test_run
delete_all include_test_data now db =
    delete_runs (if include_test_data then test_ids db else []) (delete_expired now db)

abbrev pub cleanup_event : Bool → Deleted → NewEvent
cleanup_event include_test_data d = record {
  session_id = none;
  run_id = none;
  action_id = none;
  event_type =
      if include_test_data then "retention.test_data_cleanup" else "retention.checkpoint_cleanup";
  tool_name = none;
  status = "completed";
  safe_metadata = obj (
      field "scopes"
        (arr (
          if include_test_data then cons (str "fault_injection") (cons (str "probe") nil) else nil))
        (field "deleted_runs" (int d.deleted_runs) (
          field "deleted_sessions" (int d.deleted_sessions) (
            field "deleted_messages" (int d.deleted_messages) (
              field "deleted_checkpoints" (int d.deleted_checkpoints) (
                field "deleted_tool_events" (int d.deleted_tool_events) (
                  field "deleted_pending_actions" (int d.deleted_pending_actions)
                    (field "audit_events_deleted" (int 0) end))))))));
}

module _ (h : Hashing) where
  -- The transaction: what it returns, with the number of audit events that are there then.
  unfoldable pub cleanup : Bool → Transaction (Deleted × ℕ)
  unfolding delete_all
  cleanup include_test_data now db =
      let (cleaned, d) = delete_all include_test_data now db in
      let logged = (append_audit_event h (cleanup_event include_test_data d) now cleaned).1 in
      some ((d, length logged.audit), logged)

  unfoldable pub cleanup_retention : Bool → Exec (Deleted × ℕ)
  unfolding cleanup
  cleanup_retention include_test_data = transact (cleanup include_test_data)
