-- ===== src/Chat.antt =====
-- server.py: the chat route, from the accepted request on. What happens while `run_ahmed` runs is
-- a given list of activities, and how it ends a given outcome; the model providers decide both.
pub mod Request
pub mod Frame
pub mod Store
pub mod Tell
mod Examples
use Prim.Native.String
use ahmed_agent.Base.{
  ℕ, Bool, true, false, not, Option, none, some, String, List, [], ◌∷◌, length, str_eq,
  if◌then◌else◌,
}
use ahmed_agent.Base.Json.{Json, obj, end, field, int, str}
use ahmed_agent.Schema.{succeeded, failed}
use ahmed_agent.Exec.{
  Exec, value_error, raise, pure, ignore, try_except, try_either, attempt, attempt_either, ◌>>=◌,
}
use ahmed_agent.Audit.{Hashing}
use ahmed_agent.RunState.{
  RunStage, RunState, context_loaded, model_running, response_ready, response_persisted, completed,
  value, new, transition,
}
use ahmed_agent.Runs.{create_run, finish_run, renew_run_lease}
use ahmed_agent.Events.{record_run_checkpoint, record_tool_event}
use ahmed_agent.Actions.{create_pending_action}
use ahmed_agent.Messages.{ensure_session, load_message_history, append_new_messages}
use ahmed_agent.Chat.Request.{Accepted, RawHistory, listed}

-- How `run_ahmed` ends: `result.output` as text with the new messages as `json.loads` reads them
-- and their size, an `AgentCoreError` by its `provider_status or provider_code or …`, or another
-- exception by its type.
pub data AgentOutcome : Type 0 where
  returned : String → Option Json → ℕ → AgentOutcome
  core_error : String → AgentOutcome
  other_error : String → AgentOutcome

-- What happens meanwhile: a tool event, a pending action, or the end of a pause of the heartbeat.
-- A failure of these calls shows in the outcome only.
pub data Activity : Type 0 where
  tool_event : String → String → ℕ → Json → Activity
  pending_action : ℕ → String → String → Json → Option String → Activity
  beat : Activity

-- The answers of the route.
pub data Chatted : Type 0 where
  setup_failed rate_limited agent_failed not_stored no_text : Chatted
  reply : String → Chatted

unfoldable pub http_status : Chatted → ℕ
http_status rate_limited = 503
http_status (reply s) = 200
http_status _ = 502

-- `None` is no history.
abbrev pub history_items : Option (List Json) → ℕ
history_items none = 0
history_items (some js) = length js

abbrev pub by_provider : String → Json
by_provider provider = obj (field "provider" (str provider) end)

abbrev pub counted : ℕ → Json
counted message_count = obj (field "message_count" (int message_count) end)

module _ (h : Hashing) (worker_id : String) (strip model_name : String → String)
    (parse_message_history : RawHistory → Option (Option (List Json))) where
  module _ (a : Accepted) where
    -- The checkpoint of a stage that was entered; errors are logged. The object `run_state` is
    -- passed along.
    unfoldable pub save_checkpoint : RunState → RunStage → Json → Exec RunState
    save_checkpoint run_state next_stage state =
        let (entered, done) = transition run_state next_stage in
        if done
        then (do
          _ ←
              try_either (record_run_checkpoint h a.session_id a.run_id (value entered.stage) state)
                (pure tt)
          pure entered)
        else pure entered

    parsed : Option (Option (List Json)) → Exec (Option (List Json))
    parsed none = raise value_error
    parsed (some history) = pure history

    -- `if stored_history:`
    unfoldable pub stored_or_raw : RawHistory → List Json → Exec (Option (List Json))
    unfolding parsed
    stored_or_raw raw [] = parsed (parse_message_history raw)
    stored_or_raw raw (j ∷ js) = parsed (parse_message_history (listed (j ∷ js)))

    -- The body of the first `try`.
    unfoldable pub set_up : RawHistory → Exec RunState
    unfolding stored_or_raw save_checkpoint
    set_up raw = do
      _ ← ensure_session a.session_id a.scope
      stored ← load_message_history a.session_id 50
      history ← stored_or_raw raw stored
      _ ←
          create_run a.run_id a.session_id a.message a.provider (model_name a.provider)
            (some worker_id) 120
      save_checkpoint new context_loaded (
          obj (
            field "scope" (str a.scope) (
              field "provider" (str a.provider)
                (field "history_items" (int (history_items history)) end))))

    -- One round of `_run_lease_heartbeat`: whether it goes on.
    unfoldable pub heartbeat : Bool → Exec Bool
    heartbeat true = try_either (renew_run_lease a.run_id worker_id 120) (pure false)
    heartbeat false = pure false

    unfoldable pub act : String → Bool → Activity → Exec Bool
    unfolding heartbeat
    act user_id beating (tool_event tool_name status duration_ms safe_metadata) = do
      _ ← ignore (record_tool_event a.run_id tool_name status (some duration_ms) safe_metadata)
      pure beating
    act user_id beating (pending_action action_id tool_name risk_level arguments key) = do
      _ ← ignore (
          create_pending_action h action_id a.session_id a.run_id user_id tool_name risk_level
            arguments key)
      pure beating
    act user_id beating beat = heartbeat beating

    unfoldable pub while_running : String → Bool → List Activity → Exec (Unit {0})
    unfolding act
    while_running user_id beating [] = pure tt
    while_running user_id beating (activity ∷ rest) = do
      still ← act user_id beating activity
      while_running user_id still rest

    -- The three `except` blocks that end a run.
    unfoldable pub fail_run : RunState → String → Chatted → Exec Chatted
    unfolding save_checkpoint
    fail_run run_state error_code answer = do
      _ ← try_except (finish_run a.run_id failed (some error_code)) (pure tt)
      _ ←
          save_checkpoint run_state RunStage.failed
            (obj (field "error_code" (str error_code) (field "provider" (str a.provider) end)))
      pure answer

    -- After the response is stored.
    unfoldable pub complete_run : RunState → ℕ → String → Exec Chatted
    unfolding save_checkpoint fail_run
    complete_run run_state message_count final_text = do
      persisted ← save_checkpoint run_state response_persisted (counted message_count)
      finished ← attempt (finish_run a.run_id succeeded none)
      elim finished [
        | none ↦ fail_run persisted "PersistenceError" not_stored
        | some _ ↦ (do
          _ ← save_checkpoint persisted completed (counted message_count)
          pure (if str_eq final_text "" then no_text else reply final_text))
      ]

    -- The second `try` with its handler: its two calls that raise are attempted one after the other.
    unfoldable pub store_response : RunState → String → Option Json → ℕ → Exec Chatted
    unfolding save_checkpoint complete_run fail_run
    store_response run_state final_text new_messages response_bytes = do
      ready ← save_checkpoint run_state response_ready (
          obj (field "response_bytes" (int response_bytes) (field "provider" (str a.provider) end)))
      stored ← attempt (append_new_messages a.session_id a.run_id new_messages)
      elim stored [
        | none ↦ fail_run ready "PersistenceError" not_stored
        | some message_count ↦ complete_run ready message_count final_text
      ]

    unfoldable pub end_run : RunState → AgentOutcome → Exec Chatted
    unfolding store_response fail_run
    end_run run_state (returned output new_messages response_bytes) =
        store_response run_state (strip output) new_messages response_bytes
    end_run run_state (core_error provider_status) =
        fail_run run_state provider_status
          (if str_eq provider_status "RATE_LIMITED" then rate_limited else agent_failed)
    end_run run_state (other_error error_type) = fail_run run_state error_type agent_failed

    unfoldable pub run_agent : String → List Activity → AgentOutcome → RunState → Exec Chatted
    unfolding save_checkpoint while_running end_run
    run_agent user_id activities outcome run_state = do
      running ←
          save_checkpoint run_state model_running
            (obj (field "provider" (str a.provider) (field "scope" (str a.scope) end)))
      _ ← while_running user_id true activities
      end_run running outcome

    unfoldable pub chat_message : String → RawHistory → List Activity → AgentOutcome → Exec Chatted
    unfolding set_up run_agent
    chat_message user_id raw activities outcome = do
      started ← attempt_either (set_up raw)
      elim started [
        | none ↦ pure setup_failed
        | some run_state ↦ run_agent user_id activities outcome run_state
      ]
