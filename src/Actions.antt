-- ===== src/Actions.antt =====
-- persistence_audit.py: actions that wait for the owner's approval. Each function is one
-- transaction; the row is locked by `FOR UPDATE`, so transactions on it run one after another.
pub mod Calls
pub mod Once
pub mod Create
pub mod Answers
pub mod Frame
mod Examples
use ahmed_agent.Base.{
  ℕ, ◌+◌, ◌*◌, Bool, true, false, ◌&&◌, Option, none, some, String, List, [], ◌∷◌, leb, ◌==◌,
  str_eq, is_some, if◌then◌else◌,
}
use ahmed_agent.Base.Json.{Json, obj, end, field, str, int}
use ahmed_agent.Base.Table.{select, update}
use ahmed_agent.Schema.{
  Db, PendingAction, ActionStatus, pending, approved, rejected, expired, executing, executed,
  second,
}
use ahmed_agent.Exec.{Exec, Transaction, type_error, raise, pure, transact, ◌>>=◌}
use ahmed_agent.Audit.{Hashing, NewEvent, append_audit_event}

abbrev pub by_id : ℕ → PendingAction → Bool
by_id action_id r = r.action_id == action_id

-- `run_id = $1 AND idempotency_key = $2`; NULL equals nothing.
abbrev pub same_key : Option String → Option String → Bool
same_key (some a) (some b) = str_eq a b
same_key _ _ = false

abbrev pub by_key : ℕ → Option String → PendingAction → Bool
by_key run_id key r = r.run_id == run_id && same_key r.idempotency_key key

new_action : ℕ → ℕ → ℕ → String → String → String → Json → Option String → ℕ → PendingAction
new_action action_id session_id run_id user_id tool_name risk_level arguments key now = record {
  action_id = action_id;
  session_id = session_id;
  run_id = run_id;
  user_id = user_id;
  tool_name = tool_name;
  risk_level = risk_level;
  arguments_json = arguments;
  status = pending;
  created_at = now;
  expires_at = now + 900 * second;
  approved_at = none;
  rejected_at = none;
  executed_at = none;
  idempotency_key = key;
}

-- `INSERT … ON CONFLICT (run_id, idempotency_key) … DO NOTHING`; the primary key refuses an
-- action that is there already.
unfoldable pub insert_action : PendingAction → List PendingAction → Option (List PendingAction)
insert_action r rows =
    if is_some (select (by_key r.run_id r.idempotency_key) rows)
    then some rows
    else if is_some (select (by_id r.action_id) rows)
    then none
    else some (r ∷ rows)

-- `if idempotency_key`
abbrev pub truthy : Option String → Bool
truthy none = false
truthy (some k) = if str_eq k "" then false else true

-- The event that a call on an existing row records.
abbrev action_event : PendingAction → String → String → Json → NewEvent
action_event r event_type status safe_metadata = record {
  session_id = some r.session_id;
  run_id = some r.run_id;
  action_id = some r.action_id;
  event_type = event_type;
  tool_name = some r.tool_name;
  status = status;
  safe_metadata = safe_metadata;
}

abbrev pub empty_json : Json
empty_json = obj end

-- What a call answers: `not_found`, `forbidden`, or the status of the action.
pub data Reply : Type 0 where
  not_found forbidden : Reply
  action : ActionStatus → Reply

-- The row stands for the fields of it that the answer copies.
pub record Answer : Type 0 where
  pub reply : Reply
  pub should_execute : Bool
  pub row : Option PendingAction

abbrev refuse : Reply → Answer
refuse reply = record { reply = reply; should_execute = false; row = none }

module _ (h : Hashing) where
  abbrev audited : NewEvent → ℕ → Db → Db
  audited e now db = (append_audit_event h e now db).1

  created_event : PendingAction → NewEvent
  created_event r =
      action_event r "pending_action.created" "pending"
        (obj (field "risk_level" (str r.risk_level) end))

  hit_event : PendingAction → PendingAction → NewEvent
  hit_event r existing =
      record (action_event r "pending_action.idempotency_hit" "deduplicated"
        (obj (field "risk_level" (str r.risk_level) end))) { action_id = some existing.action_id }

  -- The rest of the transaction after the INSERT: the lookup by key, if there is a key.
  record_created :
      PendingAction → Option PendingAction → ℕ → Db → Option (Option PendingAction × Db)
  unfolding created_event hit_event
  record_created r (some existing) now db =
      some (some existing, audited (hit_event r existing) now db)
  record_created r none now db =
      some (select (by_id r.action_id) db.actions, audited (created_event r) now db)

  after_insert :
      PendingAction → Option (List PendingAction) → ℕ → Db → Option (Option PendingAction × Db)
  unfolding record_created
  after_insert r none now db = none
  after_insert r (some rows) now db =
      record_created r
        (if truthy r.idempotency_key then select (by_key r.run_id r.idempotency_key) rows else none)
        now (record db { actions = rows })

  insert_recorded : PendingAction → Transaction (Option PendingAction)
  unfolding insert_action after_insert
  insert_recorded r now db = after_insert r (insert_action r db.actions) now db

  -- `dict(row)` after the transaction raises `TypeError` if there is no row.
  to_dict : Option PendingAction → Exec PendingAction
  to_dict none = raise type_error
  to_dict (some r) = pure r

  unfoldable pub create_pending_action :
      ℕ → ℕ → ℕ → String → String → String → Json → Option String → Exec PendingAction
  unfolding new_action insert_recorded to_dict
  create_pending_action action_id session_id run_id user_id tool_name risk_level arguments key = do
    row ← transact λ now.
        insert_recorded
          (new_action action_id session_id run_id user_id tool_name risk_level arguments key now)
          now
    to_dict row

  -- `UPDATE pending_actions SET … WHERE action_id = $1`, with the event that goes with it.
  write : PendingAction → (PendingAction → PendingAction) → NewEvent → ℕ → Db → Db
  write r change e now db =
      audited e now (record db { actions = update (by_id r.action_id) change db.actions })

  -- A function of the row that `SELECT … WHERE action_id = $1 FOR UPDATE` finds, after the checks
  -- that it is there and that it is the user's.
  abbrev guarded :
      (PendingAction → ℕ → Db → Answer × Db) → String → Option PendingAction → ℕ → Db → Answer × Db
  guarded body user_id none now db = (refuse not_found, db)
  guarded body user_id (some r) now db =
      if str_eq r.user_id user_id then body r now db else (refuse forbidden, db)

  abbrev on_row : (PendingAction → ℕ → Db → Answer × Db) → ℕ → String → Transaction Answer
  on_row body action_id user_id now db =
      some (guarded body user_id (select (by_id action_id) db.actions) now db)

  approve_pending : PendingAction → ℕ → Db → Answer × Db
  unfolding write
  approve_pending r now db =
      if leb r.expires_at now
      then (
        refuse (action expired),
        write r (λ a. record a { status = expired })
            (action_event r "pending_action.expired" "expired" empty_json) now db,
      )
      else (
        record { reply = action approved; should_execute = true; row = some r },
        write r (λ a. record a { status = approved; approved_at = some now })
            (action_event r "pending_action.approved" "approved" empty_json) now db,
      )

  approve_row : ActionStatus → PendingAction → ℕ → Db → Answer × Db
  unfolding approve_pending
  approve_row pending r now db = approve_pending r now db
  approve_row approved r now db =
      (record { reply = action approved; should_execute = true; row = some r }, db)
  approve_row s r now db = (record { reply = action s; should_execute = false; row = some r }, db)

  unfoldable pub approve_pending_action : ℕ → String → Exec Answer
  unfolding approve_row
  approve_pending_action action_id user_id =
      transact (on_row (λ r. approve_row r.status r) action_id user_id)

  claim_row : ActionStatus → PendingAction → ℕ → Db → Answer × Db
  unfolding write
  claim_row approved r now db = (
    record { reply = action executing; should_execute = true; row = some r },
    write r (λ a. record a { status = executing })
        (action_event r "pending_action.execution_started" "executing" empty_json) now db,
  )
  claim_row s r now db = (refuse (action s), db)

  unfoldable pub claim_pending_action_execution : ℕ → String → Exec Answer
  unfolding claim_row
  claim_pending_action_execution action_id user_id =
      transact (on_row (λ r. claim_row r.status r) action_id user_id)

  complete_row : ActionStatus → PendingAction → ℕ → Db → Answer × Db
  unfolding write
  complete_row executing r now db = (
    refuse (action executed),
    write r (λ a. record a { status = executed; executed_at = some now })
        (action_event r "pending_action.executed" "executed"
          (obj (field "execution_count" (int 1) end)))
        now db,
  )
  complete_row s r now db = (refuse (action s), db)

  unfoldable pub complete_pending_action : ℕ → String → Exec Answer
  unfolding complete_row
  complete_pending_action action_id user_id =
      transact (on_row (λ r. complete_row r.status r) action_id user_id)

  reject_row : ActionStatus → PendingAction → ℕ → Db → Answer × Db
  unfolding write
  reject_row pending r now db = (
    refuse (action rejected),
    write r (λ a. record a { status = rejected; rejected_at = some now })
        (action_event r "pending_action.rejected" "rejected" empty_json) now db,
  )
  reject_row s r now db = (refuse (action s), db)

  unfoldable pub reject_pending_action : ℕ → String → Exec Answer
  unfolding reject_row
  reject_pending_action action_id user_id =
      transact (on_row (λ r. reject_row r.status r) action_id user_id)
