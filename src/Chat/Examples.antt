-- ===== src/Chat/Examples.antt =====
-- The chat route at one request, with a heartbeat and a tool event while the model runs.
use ahmed_agent.Base.{◌≡◌, refl, Option, none, some, String, List, [], ◌∷◌}
use ahmed_agent.Base.Json.{Json, arr, obj, end, nil, cons}
use ahmed_agent.Schema.{empty}
use ahmed_agent.Exec.{World, ok}
use ahmed_agent.Audit.{Hashing, append_audit_event}
use ahmed_agent.RunState.{transition, value}
use ahmed_agent.Runs.{create_run, finish_run, renew_run_lease}
use ahmed_agent.Events.{record_run_checkpoint, record_tool_event}
use ahmed_agent.Messages.{ensure_session, load_message_history, append_new_messages}
use ahmed_agent.Chat.{
  AgentOutcome, returned, Activity, tool_event, beat, Chatted, reply, no_text, chat_message,
}
use ahmed_agent.Chat.Request.{
  Accepted, RawHistory, no_history, text, absent, accepted, check_request,
}
use ahmed_agent.Chat.Store.{Told}
use ahmed_agent.Chat.Tell.{chat_Told}

abbrev plain : Hashing
plain = record { sha256 = λ s. s; canonical_json = λ p. p.event_type }

abbrev same : String → String
same s = s

abbrev model_name : String → String
model_name provider = "gemini-model"

abbrev parse : RawHistory → Option (Option (List Json))
parse raw = some none

abbrev request : Accepted
request = record { message = "hi"; session_id = 2; run_id = 7; scope = "WEB"; provider = "gemini" }

abbrev start : World
start = record { db = empty; clock = 10; outcomes = [] }

abbrev activities : List Activity
activities = beat ∷ tool_event "web_search" "success" 5 (obj end) ∷ []

abbrev outcome : String → AgentOutcome
outcome output = returned output (some (arr (cons (obj end) nil))) 2

replies :
    (chat_message plain "w1" same model_name parse request "owner" no_history activities
      (outcome "hello")
      start).0
    ≡ ok (reply "hello")
unfolding chat_message ensure_session load_message_history create_run record_run_checkpoint
    transition value renew_run_lease record_tool_event append_new_messages finish_run
    append_audit_event
replies = refl

without_text :
    (chat_message plain "w1" same model_name parse request "owner" no_history []
      (outcome "")
      start).0
    ≡ ok no_text
unfolding chat_message ensure_session load_message_history create_run record_run_checkpoint
    transition value append_new_messages finish_run append_audit_event
without_text = refl

chat_Told_example :
    (answer : Chatted) × ((chat_message plain "w1" same model_name parse request "owner" no_history
        activities
        (outcome "hello")
        start).0
      ≡ ok answer)
    × Told same request
        (outcome "hello")
        []
        answer
        (chat_message plain "w1" same model_name parse request "owner" no_history activities
          (outcome "hello")
          start).1.db
chat_Told_example =
    chat_Told plain "w1" same model_name parse request "owner" no_history activities
      (outcome "hello") start

-- A body with only a message gets the default scope and provider.
defaults :
    check_request same
      (λ s. none)
      (λ s. none)
      (λ s. 0)
      (λ js. some js)
      2
      7
      (some (record {
        message = text "hi";
        history = no_history;
        conversation_id = absent;
        run_id = absent;
        scope = absent;
        provider = absent;
      }))
    ≡ accepted request
unfolding check_request
defaults = refl
