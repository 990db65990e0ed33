-- ===== src/Notes.antt =====
-- agent_runtime.py: the notes on failed tool calls of a run, from which the model is told how often
-- the same call has failed. The functions do not wait, so the calls of a run make their entries one
-- after another, in any order.
pub mod Attempts
mod Examples
use Prim.Native.String
use ahmed_agent.Base.{
  ℕ, ◌+◌, Bool, true, false, not, Option, none, some, String, List, [], ◌∷◌, ◌++◌, ◌==◌, str_eq,
  if◌then◌else◌,
}
use ahmed_agent.Base.Table.{count, delete}

-- `f"{tool_name}:{call_signature}"`
abbrev pub call_key : String → String → String
call_key tool_name call_signature = String.◌++◌ tool_name (String.◌++◌ ":" call_signature)

pub record Note : Type 0 where
  pub tool : String
  pub key : String
  pub reason : String
  pub attempt : ℕ

-- The advice that a tool gives after a first failure, and after one of a call that has failed before.
pub record Advice : Type 0 where
  pub guidance : String
  pub escalated_guidance : String

-- The prompt of the `ModelRetry`, by the values that its text shows: after a first failure, or after
-- one of a call that has failed before. The capital that the escalated guidance starts with is left
-- to the text.
pub data ModelRetry : Type 0 where
  first_failure : String → String → String → ModelRetry
  failed_again : String → ℕ → String → String → ModelRetry

abbrev pub has_key : String → Note → Bool
has_key key note = str_eq note.key key

unfoldable pub retry_prompt : String → String → Advice → ℕ → ModelRetry
retry_prompt tool_name reason advice attempt_number =
    if attempt_number == 1
    then first_failure tool_name reason advice.guidance
    else failed_again tool_name attempt_number reason advice.escalated_guidance

-- The notes afterwards and the prompt; without a list of notes, nothing is kept.
unfoldable pub reflect_on_tool_failure :
    String → String → String → Advice → Option (List Note) → Option (List Note) × ModelRetry
unfolding retry_prompt
reflect_on_tool_failure tool_name reason call_signature advice none =
    (none, retry_prompt tool_name reason advice 1)
reflect_on_tool_failure tool_name reason call_signature advice (some notes) =
    let key = call_key tool_name call_signature in
    let prior_attempts = count (has_key key) notes in
    (
      some (
          notes
          ++ (record { tool = tool_name; key = key; reason = reason; attempt = prior_attempts + 1 }
              ∷ [])),
      retry_prompt tool_name reason advice (prior_attempts + 1),
    )

unfoldable pub clear_tool_failure_note : String → String → Option (List Note) → Option (List Note)
clear_tool_failure_note tool_name call_signature none = none
clear_tool_failure_note tool_name call_signature (some notes) =
    some (delete (has_key (call_key tool_name call_signature)) notes)

-- A tool call at its end.
pub data ToolCall : Type 0 where
  fails : String → String → String → Advice → ToolCall
  succeeds : String → String → ToolCall

unfoldable pub book : ToolCall → Option (List Note) → Option (List Note)
unfolding reflect_on_tool_failure clear_tool_failure_note
book (fails tool_name reason call_signature advice) notes =
    (reflect_on_tool_failure tool_name reason call_signature advice notes).0
book (succeeds tool_name call_signature) notes =
    clear_tool_failure_note tool_name call_signature notes

unfoldable pub book_all : List ToolCall → Option (List Note) → Option (List Note)
unfolding book
book_all [] notes = notes
book_all (c ∷ cs) notes = book_all cs (book c notes)
