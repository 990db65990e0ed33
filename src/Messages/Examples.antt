-- ===== src/Messages/Examples.antt =====
-- A conversation of session 2 with two turns, and messages of another session between them.
use ahmed_agent.Base.{ℕ, ◌+◌, ◌≡◌, refl, List, [], ◌∷◌, ◌++◌, length, arith}
use ahmed_agent.Base.Json.{Json, str}
use ahmed_agent.Schema.{Message}
use ahmed_agent.Messages.{contents, recent, insert_messages, max_sequence}
use ahmed_agent.Messages.History.{IsFalling, rows, append-IsFalling, recent-append}

abbrev message : ℕ → ℕ → Json → Message
message session_id sequence_number j = record {
  session_id = session_id;
  run_id = 7;
  sequence_number = sequence_number;
  message_json = j;
  created_at = 0;
}

abbrev stored : List Message
stored = message 2 2 (str "b") ∷ message 3 1 (str "x") ∷ message 2 1 (str "a") ∷ []

abbrev turn : List Json
turn = str "c" ∷ str "d" ∷ []

append-IsFalling_example :
    (b : ℕ) × IsFalling b (rows 2 (insert_messages 2 8 9 (max_sequence 2 stored + 1) turn stored))
append-IsFalling_example = append-IsFalling 2 8 9 3 turn stored (omega arith, (omega arith, tt))

recent-append_example :
    contents
      (recent 2 (length turn + 1) (insert_messages 2 8 9 (max_sequence 2 stored + 1) turn stored))
    ≡ contents (recent 2 1 stored) ++ turn
recent-append_example = recent-append 2 8 9 3 1 turn stored (omega arith, (omega arith, tt))

newest_two : contents (recent 2 2 stored) ≡ str "a" ∷ str "b" ∷ []
unfolding recent
newest_two = refl
