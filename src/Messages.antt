-- ===== src/Messages.antt =====
-- persistence_runs.py: the sessions and the messages of a conversation. `json.loads` is not part
-- of the repository: what it makes of the text is the argument, `none` where it raises.
pub mod History
mod Examples
use mathlib.Core.List.{reverse}
use ahmed_agent.Base.{
  ℕ, suc, ◌+◌, Bool, true, false, ◌&&◌, Option, none, some, String, List, [], ◌∷◌, map, length,
  take, max, leb, ◌==◌, is_some, if◌then◌else◌,
}
use ahmed_agent.Base.Json.{Json, Items, Fields, arr, obj, nil, cons}
use ahmed_agent.Base.Table.{select, select_all, update, count}
use ahmed_agent.Schema.{Db, Session, Message}
use ahmed_agent.Exec.{Exec, Result, Transaction, persistence_error, raise, pure, transact, ◌>>=◌}

abbrev by_session : ℕ → Session → Bool
by_session session_id s = s.session_id == session_id

-- `INSERT … ON CONFLICT (session_id) DO UPDATE SET status = 'active', updated_at = NOW()`
unfoldable pub ensure_session : ℕ → String → Exec (Unit {0})
ensure_session session_id scope = transact λ now db. some (
  tt,
  record db {
    sessions =
        if is_some (select (by_session session_id) db.sessions)
        then update (by_session session_id) (λ s. record s { status = "active"; updated_at = now })
            db.sessions
        else record {
          session_id = session_id;
          scope = scope;
          status = "active";
          created_at = now;
          updated_at = now;
        }
          ∷ db.sessions;
  },
)

abbrev pub in_session : ℕ → Message → Bool
in_session session_id m = m.session_id == session_id

-- `ORDER BY sequence_number DESC`
pub insert_desc : Message → List Message → List Message
insert_desc m [] = m ∷ []
insert_desc m (x ∷ xs) =
    let rest = insert_desc m xs in
    if leb x.sequence_number m.sequence_number then m ∷ x ∷ xs else x ∷ rest

unfoldable pub order_desc : List Message → List Message
unfolding insert_desc
order_desc [] = []
order_desc (m ∷ ms) = insert_desc m (order_desc ms)

-- The newest `limit` messages of the session, oldest first.
unfoldable pub recent : ℕ → ℕ → List Message → List Message
unfolding order_desc
recent session_id limit ms =
    reverse (take limit (order_desc (select_all (in_session session_id) ms)))

abbrev pub is_object : Json → Bool
is_object (obj _) = true
is_object _ = false

abbrev pub all_objects : List Json → Bool
all_objects [] = true
all_objects (j ∷ js) = is_object j && all_objects js

abbrev pub contents : List Message → List Json
contents = map (λ (m : Message). m.message_json)

-- `Stored agent history has an invalid message.`
checked : List Json → Exec (List Json)
checked js = if all_objects js then pure js else raise persistence_error

unfoldable pub load_message_history : ℕ → ℕ → Exec (List Json)
unfolding recent checked
load_message_history session_id limit = do
  rows ← transact λ now db. some (recent session_id limit db.messages, db)
  checked (contents rows)

unfoldable pub run_message_count : ℕ → Exec ℕ
run_message_count run_id =
    transact λ now db. some (count (λ (m : Message). m.run_id == run_id) db.messages, db)

-- `MAX(sequence_number)` of a session, 0 for no row.
unfoldable pub max_sequence : ℕ → List Message → ℕ
max_sequence session_id [] = 0
max_sequence session_id (m ∷ ms) =
    max (if in_session session_id m then m.sequence_number else 0) (max_sequence session_id ms)

-- The loop of INSERTs, with `next_sequence + offset` as its number.
unfoldable pub insert_messages : ℕ → ℕ → ℕ → ℕ → List Json → List Message → List Message
insert_messages session_id run_id now sequence [] ms = ms
insert_messages session_id run_id now sequence (j ∷ js) ms =
    insert_messages session_id run_id now (suc sequence) js (
      record {
        session_id = session_id;
        run_id = run_id;
        sequence_number = sequence;
        message_json = j;
        created_at = now;
      }
      ∷ ms)

unfoldable pub append_messages : ℕ → ℕ → List Json → Transaction ℕ
unfolding max_sequence insert_messages
append_messages session_id run_id js now db = some (
  length js,
  record db {
    messages =
        insert_messages session_id run_id now (max_sequence session_id db.messages + 1) js
          db.messages;
    sessions = update (by_session session_id) (λ s. record s { updated_at = now }) db.sessions;
  },
)

-- The items of a JSON array.
abbrev pub items : Items → List Json
items nil = []
items (cons j js) = j ∷ items js

-- `isinstance(raw_messages, list) and all(isinstance(message, dict) …)`
abbrev pub message_list : Option Json → Option (List Json)
message_list (some (arr js)) = if all_objects (items js) then some (items js) else none
message_list _ = none

append_valid : ℕ → ℕ → Option (List Json) → Exec ℕ
unfolding append_messages
append_valid session_id run_id none = raise persistence_error
append_valid session_id run_id (some js) = transact (append_messages session_id run_id js)

unfoldable pub append_new_messages : ℕ → ℕ → Option Json → Exec ℕ
unfolding append_valid
append_new_messages session_id run_id new_messages =
    append_valid session_id run_id (message_list new_messages)
