-- ===== src/Chat/Store.antt =====
-- What the chat route leaves of the run and the messages once the model has answered.
use mathlib.Core.Path.{subst}
use ahmed_agent.Base.{
  ℕ, ◌+◌, ◌≡◌, ◌≢◌, refl, ◌∙◌, ◌⊎◌, inl, inr, Option, none, some, String, List, str_eq, eq_iff,
  Bool-cases, Option-cases, if◌then◌else◌,
}
use ahmed_agent.Base.Json.{Json}
use ahmed_agent.Schema.{Db, RunStatus, Message, succeeded, failed}
use ahmed_agent.Exec.{persistence_error, pure, attempt, ◌>>=◌}
use ahmed_agent.Exec.Ensures.{
  Ensures, NoError, Failing, Attempted, Ensures-pure, Ensures-raise, Ensures-statements,
  Ensures-bind, Ensures-try, Ensures-attempt,
}
use ahmed_agent.Audit.{Hashing}
use ahmed_agent.RunState.{RunStage, RunState, response_ready, response_persisted, completed}
use ahmed_agent.Runs.{by_id, finish_run, update_finished, finished}
use ahmed_agent.Messages.{
  append_new_messages, append_messages, insert_messages, max_sequence, message_list,
}
use ahmed_agent.Chat.{
  AgentOutcome, returned, Chatted, setup_failed, rate_limited, agent_failed, not_stored, no_text,
  reply, counted, save_checkpoint, fail_run, complete_run, store_response,
}
use ahmed_agent.Chat.Request.{Accepted, RawHistory}
use ahmed_agent.Chat.Frame.{Holds, update_row, save_checkpoint_frame}

-- The new messages that the outcome brings.
abbrev pub new_messages_of : AgentOutcome → Option (List Json)
new_messages_of (returned output new_messages response_bytes) = message_list new_messages
new_messages_of _ = none

-- The messages of the outcome stand behind those that the session had.
abbrev pub Appended : Accepted → AgentOutcome → List Message → List Message → Type 0
Appended a outcome ms ms' =
    (now : ℕ) × (js : List Json) × (new_messages_of outcome ≡ some js)
    × (ms' ≡ insert_messages a.session_id a.run_id now (max_sequence a.session_id ms + 1) js ms)

-- The text that the outcome brings.
abbrev pub IsText : (String → String) → AgentOutcome → String → Type 0
IsText strip (returned output new_messages response_bytes) s = strip output ≡ s
IsText strip _ s = ⊥

abbrev pub Unsuccessful : RunStatus → Type 0
Unsuccessful s = s ≢ succeeded

abbrev pub Successful : RunStatus → Type 0
Successful s = s ≡ succeeded

-- A reply is the text of the outcome, and its run and messages are stored. With the answer that
-- there is no text they are stored too. Every other answer is of a run that is not stored as
-- succeeded, or of no run, and all but one of them of messages that are as they were.
abbrev pub Told : (String → String) → Accepted → AgentOutcome → List Message → Chatted → Db → Type 0
Told strip a outcome ms setup_failed db = db.messages ≡ ms
Told strip a outcome ms rate_limited db = Holds a.run_id Unsuccessful (λ ms'. ms' ≡ ms) db
Told strip a outcome ms agent_failed db = Holds a.run_id Unsuccessful (λ ms'. ms' ≡ ms) db
Told strip a outcome ms not_stored db =
    Holds a.run_id Unsuccessful (λ ms'. (ms' ≡ ms) ⊎ Appended a outcome ms ms') db
Told strip a outcome ms no_text db =
    Holds a.run_id Successful (Appended a outcome ms) db × IsText strip outcome ""
Told strip a outcome ms (reply s) db =
    Holds a.run_id Successful (Appended a outcome ms) db × IsText strip outcome s × (s ≢ "")

finish_failed_frame :
    (run_id : ℕ) (code : Option String) (M : List Message → Type 0)
    → Ensures Failing
        (Holds run_id Unsuccessful M)
        (finish_run run_id failed code)
        (λ u. Holds run_id Unsuccessful M)
        (Holds run_id Unsuccessful M)
unfolding finish_run update_finished finished
finish_failed_frame run_id code M =
    Ensures-statements _ _ _ _ _ refl (λ db p. p)
      (λ now db (row, m). (
        update_row run_id Unsuccessful Unsuccessful (by_id run_id) (finished failed code now)
            (λ r. refl) (λ r is s. rw is (λ e. cc e)) db.runs row,
        m,
      ))

finish_succeeded_frame :
    (run_id : ℕ) (M : List Message → Type 0)
    → Ensures Failing
        (Holds run_id Unsuccessful M)
        (finish_run run_id succeeded none)
        (λ u. Holds run_id Successful M)
        (Holds run_id Unsuccessful M)
unfolding finish_run update_finished finished
finish_succeeded_frame run_id M =
    Ensures-statements _ _ _ _ _ refl (λ db p. p)
      (λ now db (row, m). (
        update_row run_id Unsuccessful Successful (by_id run_id) (finished succeeded none now)
            (λ r. refl) (λ r is s. rw is refl) db.runs row,
        m,
      ))

module _ (h : Hashing) (worker_id : String) (strip model_name : String → String)
    (parse_message_history : RawHistory → Option (Option (List Json))) (a : Accepted)
    (outcome : AgentOutcome) (ms : List Message) where
  pub fail_run_frame :
      (M : List Message → Type 0) (F : Db → Type 0) (s : RunState) (code : String)
      (answer : Chatted)
      → ((db : Db) → Holds a.run_id Unsuccessful M db → Told strip a outcome ms answer db)
      → Ensures NoError
          (Holds a.run_id Unsuccessful M)
          (fail_run h worker_id strip model_name parse_message_history a s code answer)
          (Told strip a outcome ms)
          F
  unfolding fail_run
  fail_run_frame M F s code answer tells =
      Ensures-bind _ _ (λ u. Holds a.run_id Unsuccessful M) _ _ _ _
        (Ensures-try _ _ _ _ (Holds a.run_id Unsuccessful M) _ _
          (finish_failed_frame a.run_id (some code) M) (Ensures-pure _ _ _ _ tt (λ db p. p)))
        (λ u.
          Ensures-bind _ _ (λ s'. Holds a.run_id Unsuccessful M) _ _ _ _
            (save_checkpoint_frame h worker_id strip model_name parse_message_history a Unsuccessful
              M _ s RunStage.failed _)
            (λ s'. Ensures-pure _ _ _ _ answer tells))

  append_frame :
      (new_messages : Option Json)
      → new_messages_of outcome ≡ message_list new_messages
      → Ensures Failing
          (Holds a.run_id Unsuccessful (λ ms'. ms' ≡ ms))
          (append_new_messages a.session_id a.run_id new_messages)
          (λ n. Holds a.run_id Unsuccessful (Appended a outcome ms))
          (Holds a.run_id Unsuccessful (λ ms'. ms' ≡ ms))
  unfolding append_new_messages append_messages
  append_frame new_messages brought = elim (Option-cases (message_list new_messages)) [
    | inl bad ↦ rw bad (Ensures-raise _ _ _ _ persistence_error refl (λ db p. p))
    | inr (js, good) ↦ rw good (
        Ensures-statements _ _ _ _ _ refl (λ db p. p)
          (λ now db (row, same). (row, (now, js, brought ∙ good, rw same refl))))
  ]

  complete_run_frame :
      (F : Db → Type 0) (s : RunState) (n : ℕ) (final_text : String)
      → IsText strip outcome final_text
      → Ensures NoError
          (Holds a.run_id Unsuccessful (Appended a outcome ms))
          (complete_run h worker_id strip model_name parse_message_history a s n final_text)
          (Told strip a outcome ms)
          F
  unfolding complete_run
  complete_run_frame F s n final_text text =
      Ensures-bind _ _ (λ s'. Holds a.run_id Unsuccessful (Appended a outcome ms)) _ _ _ _
        (save_checkpoint_frame h worker_id strip model_name parse_message_history a Unsuccessful
          (Appended a outcome ms) _ s response_persisted _)
        (λ persisted.
          Ensures-bind _ _
            (Attempted (λ u. Holds a.run_id Successful (Appended a outcome ms))
              (Holds a.run_id Unsuccessful (Appended a outcome ms)))
            _ _ (attempt (finish_run a.run_id succeeded none)) _
            (Ensures-attempt _ _ _ _ _ _ (finish_succeeded_frame a.run_id _)) (ended persisted))
    where
      answered :
          (db : Db)
          → Holds a.run_id Successful (Appended a outcome ms) db
          → Told strip a outcome ms (if str_eq final_text "" then no_text else reply final_text) db
      answered db p = elim (Bool-cases (str_eq final_text "")) [
        | inl empty_text ↦
            rw empty_text (p, subst (IsText strip outcome) ((eq_iff _ _).0 empty_text) text)
        | inr some_text ↦ rw some_text (p, text, λ e. cc (some_text, (eq_iff final_text "").1 e))
      ]

      ended :
          (persisted : RunState) (o : Option (Unit {0}))
          → Ensures NoError
              (Attempted
                (λ u. Holds a.run_id Successful (Appended a outcome ms))
                (Holds a.run_id Unsuccessful (Appended a outcome ms))
                o)
              (elim o [
                | none ↦
                    fail_run h worker_id strip model_name parse_message_history a persisted
                      "PersistenceError" not_stored
                | some _ ↦ (do
                  _ ←
                      save_checkpoint h worker_id strip model_name parse_message_history a persisted
                        completed
                        (counted n)
                  pure (if str_eq final_text "" then no_text else reply final_text))
              ])
              (Told strip a outcome ms)
              F
      ended persisted none =
          fail_run_frame (Appended a outcome ms) F persisted "PersistenceError" not_stored
            (λ db (row, m). (row, inr m))
      ended persisted (some u) =
          Ensures-bind _ _ (λ s'. Holds a.run_id Successful (Appended a outcome ms)) _ _ _ _
            (save_checkpoint_frame h worker_id strip model_name parse_message_history a Successful
              (Appended a outcome ms) _ persisted completed _)
            (λ s'. Ensures-pure _ _ _ _ _ answered)

  pub store_response_frame :
      (F : Db → Type 0) (s : RunState) (final_text : String) (new_messages : Option Json)
      (response_bytes : ℕ)
      → IsText strip outcome final_text
      → new_messages_of outcome ≡ message_list new_messages
      → Ensures NoError
          (Holds a.run_id Unsuccessful (λ ms'. ms' ≡ ms))
          (store_response h worker_id strip model_name parse_message_history a s final_text
            new_messages response_bytes)
          (Told strip a outcome ms)
          F
  unfolding store_response
  store_response_frame F s final_text new_messages response_bytes text brought =
      Ensures-bind _ _ (λ s'. Holds a.run_id Unsuccessful (λ ms'. ms' ≡ ms)) _ _ _ _
        (save_checkpoint_frame h worker_id strip model_name parse_message_history a Unsuccessful
          (λ ms'. ms' ≡ ms) _ s response_ready _)
        (λ ready.
          Ensures-bind _ _
            (Attempted (λ n. Holds a.run_id Unsuccessful (Appended a outcome ms))
              (Holds a.run_id Unsuccessful (λ ms'. ms' ≡ ms)))
            _ _ (attempt (append_new_messages a.session_id a.run_id new_messages)) _
            (Ensures-attempt _ _ _ _ _ _ (append_frame new_messages brought)) (stored ready))
    where
      stored :
          (ready : RunState) (o : Option ℕ)
          → Ensures NoError
              (Attempted
                (λ n. Holds a.run_id Unsuccessful (Appended a outcome ms))
                (Holds a.run_id Unsuccessful (λ ms'. ms' ≡ ms))
                o)
              (elim o [
                | none ↦
                    fail_run h worker_id strip model_name parse_message_history a ready
                      "PersistenceError" not_stored
                | some n ↦
                    complete_run h worker_id strip model_name parse_message_history a ready n
                      final_text
              ])
              (Told strip a outcome ms)
              F
      stored ready none =
          fail_run_frame (λ ms'. ms' ≡ ms) F ready "PersistenceError" not_stored
            (λ db (row, m). (row, inl m))
      stored ready (some n) = complete_run_frame F ready n final_text text
