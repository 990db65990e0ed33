-- ===== src/Resume.antt =====
-- server.py: the recovery routes of a run, from the parsed id on; who may call them is decided
-- before. `recovery_worker` stands for `f"{WORKER_ID}:recovery"`, which is configured.
pub mod Decide
pub mod Tail
pub mod Succeed
pub mod Keep
pub mod Complete
pub mod Refuse
mod Examples
use ahmed_agent.Base.{
  ℕ, Bool, true, false, ◌&&◌, not, Option, none, some, String, ◌⊎◌, inl, inr, ◌==◌, if◌then◌else◌,
}
use ahmed_agent.Base.Json.{Json, obj, end, field, int, str, bool}
use ahmed_agent.Base.Table.{count}
use ahmed_agent.Schema.{Run, RunStatus, RecoveryStatus, running, succeeded, failed, other}
use ahmed_agent.Exec.{Exec, pure, try_except, ◌>>=◌, ◌>>◌}
use ahmed_agent.Audit.{Hashing}
use ahmed_agent.RunState.{
  RunStage, RecoveryAction, response_ready, response_persisted, completed, complete_persisted_tail,
  retry_new_run, manual_review, noop, value, of_value, recovery_action,
}
use ahmed_agent.Runs.{
  is_running, is_orphaned, mark_orphaned_runs, load_run_recovery, claim_orphaned_run,
  release_orphaned_run, finish_run,
}
use ahmed_agent.Events.{record_run_checkpoint, record_recovery_event}
use ahmed_agent.Messages.{run_message_count}

-- The answers of `run_resume_route`, by their `status` or `code`.
pub data Resumed : Type 0 where
  load_failed not_found lease_active unknown_run_stage recovery_claim_failed : Resumed
  response_not_persisted recovery_failed : Resumed
  already_completed terminal_failure retry no_op needs_review : Run → Resumed
  recovered : ℕ → Resumed

unfoldable pub status_code : Resumed → ℕ
status_code load_failed = 400
status_code not_found = 404
status_code (already_completed r) = 200
status_code (no_op r) = 200
status_code (recovered n) = 200
status_code recovery_failed = 502
status_code _ = 409

unfoldable pub load_recovery_state : ℕ → Exec (Option Run)
load_recovery_state run_id = mark_orphaned_runs >> load_run_recovery run_id

-- The answers that follow from the action of the stage, or the stage to complete.
unfoldable pub by_action : Run → RunStage → RecoveryAction → Resumed ⊎ RunStage
by_action r stage retry_new_run = inl (retry r)
by_action r stage manual_review = inl (needs_review r)
by_action r stage noop = inl (no_op r)
by_action r stage complete_persisted_tail = inr stage

unfoldable pub by_stage : Run → Option RunStage → Resumed ⊎ RunStage
unfolding by_action
by_stage r none = inl unknown_run_stage
by_stage r (some stage) = by_action r stage (recovery_action stage)

-- What is answered without touching the run, or the stage to complete.
unfoldable pub decide : Run → RunStatus → Resumed ⊎ RunStage
unfolding by_stage
decide r succeeded = inl (already_completed r)
decide r failed = inl (terminal_failure r)
decide r running =
    if not (is_orphaned r.recovery_status) then inl lease_active else by_stage r (of_value r.stage)
decide r (other text) = by_stage r (of_value r.stage)

-- What `run_recovery_route` answers besides the row.
unfoldable pub route_action : Option RunStage → RecoveryAction
route_action none = manual_review
route_action (some stage) = recovery_action stage

abbrev pub completes : RecoveryAction → Bool
completes complete_persisted_tail = true
completes _ = false

unfoldable pub safe_to_resume : Run → Bool
unfolding route_action
safe_to_resume r = is_orphaned r.recovery_status && completes (route_action (of_value r.stage))

-- The outer `none` is the answer 400, the inner one 404.
unfoldable pub run_recovery_route :
    Option ℕ → Exec (Option (Option (Run × (RecoveryAction × Bool))))
unfolding load_recovery_state route_action safe_to_resume
run_recovery_route none = pure none
run_recovery_route (some run_id) =
    try_except (do recovery ← load_recovery_state run_id; pure (some (answer recovery))) (pure none)
  where
    answer : Option Run → Option (Run × (RecoveryAction × Bool))
    answer none = none
    answer (some r) = some (r, (route_action (of_value r.stage), safe_to_resume r))

abbrev pub is_ready : RunStage → Bool
is_ready response_ready = true
is_ready _ = false

-- `{"message_count": message_count, "recovered": True}`
abbrev pub recovered_state : ℕ → Json
recovered_state message_count =
    obj (field "message_count" (int message_count) (field "recovered" (bool true) end))

module _ (h : Hashing) (recovery_worker : String) where
  -- `claimed["session_id"]` is the session of the row.
  unfoldable pub persist_stage : ℕ → ℕ → ℕ → RunStage → Exec (Unit {0})
  persist_stage session_id run_id message_count stage =
      if is_ready stage
      then record_run_checkpoint h session_id run_id (value response_persisted)
          (recovered_state message_count)
      else pure tt

  unfoldable pub finish_tail : ℕ → ℕ → ℕ → Exec Resumed
  finish_tail session_id run_id message_count = do
    _ ← finish_run run_id succeeded none
    _ ← record_run_checkpoint h session_id run_id (value completed) (recovered_state message_count)
    pure (recovered message_count)

  unfoldable pub give_back : ℕ → Exec Resumed
  give_back run_id = do _ ← release_orphaned_run run_id recovery_worker; pure response_not_persisted

  unfoldable pub persist_tail : ℕ → ℕ → RunStage → ℕ → Exec Resumed
  unfolding persist_stage finish_tail give_back
  persist_tail session_id run_id stage message_count =
      if is_ready stage && message_count == 0 then give_back run_id else (do
        _ ← persist_stage session_id run_id message_count stage
        finish_tail session_id run_id message_count)

  -- The body of the `try`.
  unfoldable pub complete_tail : ℕ → ℕ → RunStage → Exec Resumed
  unfolding persist_tail
  complete_tail session_id run_id stage = do
    message_count ← run_message_count run_id
    persist_tail session_id run_id stage message_count

  -- Its `except PersistenceError`.
  unfoldable pub give_up : ℕ → ℕ → Exec Resumed
  give_up session_id run_id = do
    _ ← try_except (release_orphaned_run run_id recovery_worker) (pure false)
    _ ←
        try_except
          (record_recovery_event h session_id run_id "recovery.failed" "failed"
            (obj (field "code" (str "RECOVERY_PERSISTENCE_ERROR") end)))
          (pure tt)
    pure recovery_failed

  unfoldable pub resume_claimed : ℕ → RunStage → Option Run → Exec Resumed
  unfolding complete_tail give_up
  resume_claimed run_id stage none = pure recovery_claim_failed
  resume_claimed run_id stage (some claimed) =
      try_except (complete_tail claimed.session_id run_id stage) (give_up claimed.session_id run_id)

  -- The lease of `claim_orphaned_run` is its default, 120 seconds.
  unfoldable pub resume_decided : ℕ → Resumed ⊎ RunStage → Exec Resumed
  unfolding resume_claimed
  resume_decided run_id (inl answer) = pure answer
  resume_decided run_id (inr stage) = do
    claimed ← claim_orphaned_run run_id recovery_worker 120
    resume_claimed run_id stage claimed

  unfoldable pub resume_loaded : ℕ → Option (Option Run) → Exec Resumed
  unfolding decide resume_decided
  resume_loaded run_id none = pure load_failed
  resume_loaded run_id (some none) = pure not_found
  resume_loaded run_id (some (some r)) = resume_decided run_id (decide r r.status)

  -- `none` where `_request_uuid` raises.
  unfoldable pub run_resume_route : Option ℕ → Exec Resumed
  unfolding load_recovery_state resume_loaded
  run_resume_route none = pure load_failed
  run_resume_route (some run_id) = do
    loaded ← try_except (do recovery ← load_recovery_state run_id; pure (some recovery)) (pure none)
    resume_loaded run_id loaded
