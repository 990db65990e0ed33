-- ===== src/RunState.antt =====
-- run_state.py: the stages of a chat run, the transitions between them, and what may be done with
-- a run that its worker has lost. A `StrEnum` member is a constructor, and its text is `value`.
pub mod Progress
mod Examples
use ahmed_agent.Base.{
  Bool, true, false, Option, none, some, String, List, [], ◌∷◌, str_eq, if◌then◌else◌,
}

pub data RunStage : Type 0 where
  created context_loaded model_running response_ready response_persisted completed failed : RunStage

pub data RecoveryAction : Type 0 where
  complete_persisted_tail retry_new_run manual_review noop : RecoveryAction

-- `stage.value`
unfoldable pub value : RunStage → String
value created = "created"
value context_loaded = "context_loaded"
value model_running = "model_running"
value response_ready = "response_ready"
value response_persisted = "response_persisted"
value completed = "completed"
value failed = "failed"

-- `RunStage(text)`; `none` is its `ValueError`.
unfoldable pub of_value : String → Option RunStage
of_value text =
    if str_eq text "created"
    then some created
    else if str_eq text "context_loaded"
    then some context_loaded
    else if str_eq text "model_running"
    then some model_running
    else if str_eq text "response_ready"
    then some response_ready
    else if str_eq text "response_persisted"
    then some response_persisted
    else if str_eq text "completed"
    then some completed
    else if str_eq text "failed"
    then some failed
    else none

-- `next_stage in _ALLOWED_TRANSITIONS[stage]`
unfoldable pub allowed_transition : RunStage → RunStage → Bool
allowed_transition created context_loaded = true
allowed_transition created failed = true
allowed_transition context_loaded model_running = true
allowed_transition context_loaded failed = true
allowed_transition model_running response_ready = true
allowed_transition model_running failed = true
allowed_transition response_ready response_persisted = true
allowed_transition response_ready failed = true
allowed_transition response_persisted completed = true
allowed_transition response_persisted failed = true
allowed_transition _ _ = false

unfoldable pub recovery_action : RunStage → RecoveryAction
recovery_action response_ready = complete_persisted_tail
recovery_action response_persisted = complete_persisted_tail
recovery_action created = retry_new_run
recovery_action context_loaded = retry_new_run
recovery_action model_running = manual_review
recovery_action _ = noop

pub record RunState : Type 0 where
  pub stage : RunStage

-- `RunState()`
abbrev pub new : RunState
new = record { stage = created }

-- `RunState.transition`: the object afterwards, and whether the call returned (`true`) or raised
-- `ValueError` (`false`), which leaves the object as it was.
unfoldable pub transition : RunState → RunStage → RunState × Bool
unfolding allowed_transition
transition s next_stage =
    if allowed_transition s.stage next_stage
    then (record s { stage = next_stage }, true)
    else (s, false)

-- A caller that asks for these stages one after another, as `save_checkpoint` of server.py does:
-- a refused transition is logged and passed over. The stages that were entered come back too.
unfoldable pub transitions : RunState → List RunStage → RunState × List RunStage
unfolding transition
transitions s [] = (s, [])
transitions s (next_stage ∷ rest) =
    let (s', done) = transition s next_stage in
    let (end, entered) = transitions s' rest in
    (end, if done then next_stage ∷ entered else entered)
