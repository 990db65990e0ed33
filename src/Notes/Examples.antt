-- ===== src/Notes/Examples.antt =====
-- A search that fails, succeeds and fails twice more, with another call between.
use ahmed_agent.Base.{◌+◌, ◌≡◌, refl, some, List, [], ◌∷◌}
use ahmed_agent.Notes.{
  Advice, failed_again, call_key, retry_prompt, reflect_on_tool_failure, ToolCall, fails, succeeds,
  book_all,
}
use ahmed_agent.Notes.Attempts.{standing, reflect_counts}

abbrev again : Advice
again = record { guidance = "retry"; escalated_guidance = "stop" }

abbrev calls : List ToolCall
calls =
    fails "web_search" "timeout" "q" again
    ∷ succeeds "web_search" "q"
    ∷ fails "web_search" "timeout" "q" again
    ∷ succeeds "web_search" "other"
    ∷ []

second_failure :
    (reflect_on_tool_failure "web_search" "timeout" "q" again (book_all calls (some []))).1
    ≡ failed_again "web_search" 2 "timeout" "stop"
unfolding reflect_on_tool_failure book_all
second_failure = refl

reflect_counts_example :
    (reflect_on_tool_failure "web_search" "timeout" "q" again (book_all calls (some []))).1
    ≡ retry_prompt "web_search" "timeout" again (standing (call_key "web_search" "q") 0 calls + 1)
reflect_counts_example = reflect_counts calls "web_search" "timeout" "q" again
