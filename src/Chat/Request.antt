-- ===== src/Chat/Request.antt =====
-- server.py and agent_runtime.py: what a chat request has to be, from the body of the request on.
-- Parameters: `strip` is `str.strip`, `parse_uuid` what `str(UUID(…))` makes of a text,
-- `validate_text` and `validate_list` are pydantic-ai's `ModelMessagesTypeAdapter`, and `utf8_size`
-- is the length of a text in UTF-8. They answer `none` where the library raises `ValueError`.
use Prim.Native.String
use ahmed_agent.Base.{
  ℕ, Bool, true, false, ◌||◌, not, Option, none, some, String, List, length, ltb, str_eq,
  if◌then◌else◌,
}
use ahmed_agent.Base.Json.{Json}

-- A value of the body. A scalar is no text and not null; a container cannot be hashed either.
pub data Value : Type 0 where
  absent null : Value
  text : String → Value
  scalar container : Value

pub data RawHistory : Type 0 where
  no_history unsupported : RawHistory
  encoded : String → RawHistory
  listed : List Json → RawHistory

pub record Payload : Type 0 where
  pub message : Value
  pub history : RawHistory
  pub conversation_id : Value
  pub run_id : Value
  pub scope : Value
  pub provider : Value

-- A request that was let in.
pub record Accepted : Type 0 where
  pub message : String
  pub session_id : ℕ
  pub run_id : ℕ
  pub scope : String
  pub provider : String

pub data Checked : Type 0 where
  bad_request : Checked  -- 400
  crashed : Checked  -- an exception that the route does not catch
  accepted : Accepted → Checked

-- `payload.get(name, default)` of a text
abbrev pub with_default : String → Value → Value
with_default default absent = text default
with_default default v = v

-- `value in {a, b}` of a value that can be hashed
abbrev pub one_of : String → String → Value → Bool
one_of a b (text s) = str_eq s a || str_eq s b
one_of a b _ = false

abbrev pub is_container : Value → Bool
is_container container = true
is_container _ = false

-- `not message or len(message) > 2000`, after the strip
abbrev pub bad_length : String → Bool
bad_length s = str_eq s "" || ltb 2000 (String.count s)

abbrev pub within : Option (List Json) → Option (List Json)
within none = none
within (some history) = if ltb 50 (length history) then none else some history

abbrev pub text_or : String → Value → String
text_or default (text s) = s
text_or default _ = default

module _ (strip : String → String) (parse_uuid : String → Option ℕ)
    (validate_text : String → Option (List Json)) (utf8_size : String → ℕ)
    (validate_list : List Json → Option (List Json)) where
  -- The outer `none` is the `ValueError`, the inner one no history. Bytes are not among the values
  -- of a JSON body.
  unfoldable pub parse_message_history : RawHistory → Option (Option (List Json))
  parse_message_history no_history = some none
  parse_message_history unsupported = none
  parse_message_history (encoded s) =
      if ltb 1000000 (utf8_size s)
      then none
      else elim (within (validate_text s)) [ none ↦ none | some history ↦ some (some history) ]
  parse_message_history (listed js) =
      if ltb 50 (length js)
      then none
      else elim (within (validate_list js)) [ none ↦ none | some history ↦ some (some history) ]

  -- `fresh` is the `uuid4()` of an id that is not given, or null.
  unfoldable pub request_uuid : ℕ → Value → Option ℕ
  request_uuid fresh absent = some fresh
  request_uuid fresh null = some fresh
  request_uuid fresh (text s) = parse_uuid s
  request_uuid fresh _ = none

  check_ids : String → Value → Value → Option ℕ → Option ℕ → Checked
  check_ids message scope provider (some session_id) (some run_id) = accepted (record {
    message = message;
    session_id = session_id;
    run_id = run_id;
    scope = text_or "" scope;
    provider = text_or "" provider;
  })
  check_ids message scope provider _ _ = bad_request

  check_fields : ℕ → ℕ → Payload → String → Value → Value → Checked
  unfolding request_uuid check_ids
  check_fields fresh_session fresh_run p message scope provider =
      if is_container scope
      then crashed
      else if not (one_of "WEB" "MY_FILES" scope)
      then bad_request
      else if not (one_of "gemini" "openai" provider)
      then bad_request
      else check_ids message scope provider (request_uuid fresh_session p.conversation_id)
          (request_uuid fresh_run p.run_id)

  check_history : ℕ → ℕ → Payload → String → Option (Option (List Json)) → Checked
  unfolding check_fields
  check_history fresh_session fresh_run p message none = bad_request
  check_history fresh_session fresh_run p message (some history) =
      check_fields fresh_session fresh_run p message (with_default "WEB" p.scope)
        (with_default "gemini" p.provider)

  check_message : ℕ → ℕ → Payload → Value → Checked
  unfolding check_history parse_message_history
  check_message fresh_session fresh_run p (text s) =
      if bad_length (strip s)
      then bad_request
      else check_history fresh_session fresh_run p (strip s) (parse_message_history p.history)
  check_message fresh_session fresh_run p _ = bad_request

  -- `none` where the body is no JSON object.
  unfoldable pub check_request : ℕ → ℕ → Option Payload → Checked
  unfolding check_message
  check_request fresh_session fresh_run none = bad_request
  check_request fresh_session fresh_run (some p) = check_message fresh_session fresh_run p p.message
