-- ===== src/Chat/Tell.antt =====
-- What the answer of the chat route tells of what is stored.
use mathlib.Core.Path.{subst}
use mathlib.Core.Option.{some-injective}
use ahmed_agent.Base.{
  ◌≡◌, refl, inl, inr, Bool, true, false, Option, none, some, String, List, [], ◌∷◌, str_eq, ==_iff,
  Bool-cases, Option-cases, if◌then◌else◌,
}
use ahmed_agent.Base.Json.{Json}
use ahmed_agent.Base.Table.{select}
use ahmed_agent.Schema.{Db, Message}
use ahmed_agent.Exec.{World, ok, value_error, persistence_error, pure, attempt_either}
use ahmed_agent.Exec.Ensures.{
  Ensures, NoError, Handled, Attempted, Ensures-pure, Ensures-raise, Ensures-statements,
  Ensures-transact, Ensures-bind, Ensures-attempt_either, Ensures-no_error,
}
use ahmed_agent.Audit.{Hashing}
use ahmed_agent.RunState.{RunState, new, context_loaded, model_running}
use ahmed_agent.Runs.{by_id, create_run, insert_run, new_run}
use ahmed_agent.Messages.{ensure_session, load_message_history, contents, all_objects}
use ahmed_agent.Chat.{
  AgentOutcome, returned, core_error, other_error, Activity, Chatted, setup_failed, rate_limited,
  agent_failed, stored_or_raw, set_up, end_run, run_agent, while_running, chat_message,
}
use ahmed_agent.Chat.Request.{Accepted, RawHistory, listed}
use ahmed_agent.Chat.Frame.{Holds, save_checkpoint_frame, while_running_frame}
use ahmed_agent.Chat.Store.{Told, Unsuccessful, fail_run_frame, store_response_frame}

abbrev Running : Accepted → List Message → Db → Type 0
Running a ms = Holds a.run_id Unsuccessful (λ ms'. ms' ≡ ms)

module _ (h : Hashing) (worker_id : String) (strip model_name : String → String)
    (parse_message_history : RawHistory → Option (Option (List Json))) (a : Accepted)
    (ms : List Message) where
  end_run_frame :
      (F : Db → Type 0) (s : RunState) (outcome : AgentOutcome)
      → Ensures NoError
          (Running a ms)
          (end_run h worker_id strip model_name parse_message_history a s outcome)
          (Told strip a outcome ms)
          F
  unfolding end_run
  end_run_frame F s (returned output new_messages response_bytes) =
      store_response_frame h worker_id strip model_name parse_message_history a
        (returned output new_messages response_bytes) ms F s (strip output) new_messages
        response_bytes refl refl
  end_run_frame F s (core_error provider_status) =
      fail_run_frame h worker_id strip model_name parse_message_history a
        (core_error provider_status) ms (λ ms'. ms' ≡ ms) F s provider_status _
        (λ db p. told (str_eq provider_status "RATE_LIMITED") db p)
    where
      told :
          (b : Bool) (db : Db)
          → Running a ms db
          → Told strip a
              (core_error provider_status)
              ms
              (if b then rate_limited else agent_failed)
              db
      told true db p = p
      told false db p = p
  end_run_frame F s (other_error error_type) =
      fail_run_frame h worker_id strip model_name parse_message_history a (other_error error_type)
        ms (λ ms'. ms' ≡ ms) F s error_type agent_failed (λ db p. p)

  run_agent_frame :
      (F : Db → Type 0) (user_id : String) (activities : List Activity) (outcome : AgentOutcome)
      (s : RunState)
      → Ensures NoError
          (Running a ms)
          (run_agent h worker_id strip model_name parse_message_history a user_id activities outcome
            s)
          (Told strip a outcome ms)
          F
  unfolding run_agent
  run_agent_frame F user_id activities outcome s =
      Ensures-bind _ _ (λ s'. Running a ms) _ _ _ _
        (save_checkpoint_frame h worker_id strip model_name parse_message_history a Unsuccessful
          (λ ms'. ms' ≡ ms) _ s model_running _)
        (λ s'.
          Ensures-bind _ _ (λ u. Running a ms) _ _
            (while_running h worker_id strip model_name parse_message_history a user_id true
              activities)
            _
            (while_running_frame h worker_id strip model_name parse_message_history a Unsuccessful
              (λ ms'. ms' ≡ ms) _ user_id true activities)
            (λ u. end_run_frame F s' outcome))

  abbrev Same : Db → Type 0
  Same db = db.messages ≡ ms

  load_frame : Ensures Handled Same (load_message_history a.session_id 50) (λ js. Same) Same
  unfolding load_message_history
  load_frame =
      Ensures-bind _ _ (λ rows. Same) _ _ _ _
        (Ensures-statements _ _ _ _ _ tt (λ db p. p) (λ now db p. p))
        (λ rows. elim (Bool-cases (all_objects (contents rows))) [
          | inl good ↦ rw good (Ensures-pure _ _ _ _ _ (λ db p. p))
          | inr bad ↦ rw bad (Ensures-raise _ _ _ _ persistence_error tt (λ db p. p))
        ])

  stored_or_raw_frame :
      (raw : RawHistory) (js : List Json)
      → Ensures Handled Same
          (stored_or_raw h worker_id strip model_name parse_message_history a raw js)
          (λ history. Same)
          Same
  unfolding stored_or_raw
  stored_or_raw_frame raw [] = elim (Option-cases (parse_message_history raw)) [
    | inl bad ↦ rw bad (Ensures-raise _ _ _ _ value_error tt (λ db p. p))
    | inr (history, good) ↦ rw good (Ensures-pure _ _ _ _ _ (λ db p. p))
  ]
  stored_or_raw_frame raw (j ∷ js) = elim (Option-cases (parse_message_history (listed (j ∷ js)))) [
    | inl bad ↦ rw bad (Ensures-raise _ _ _ _ value_error tt (λ db p. p))
    | inr (history, good) ↦ rw good (Ensures-pure _ _ _ _ _ (λ db p. p))
  ]

  create_frame :
      Ensures Handled Same
        (create_run a.run_id a.session_id a.message a.provider
          (model_name a.provider)
          (some worker_id)
          120)
        (λ u. Running a ms)
        Same
  unfolding create_run insert_run new_run
  create_frame =
      Ensures-transact _ _ _ _ _ tt (λ db p. p)
        (λ now db u db' p e. elim (Option-cases (select (by_id a.run_id) db.runs)) [
          | inr (r, old) ↦ absurd (cc (rw old at e))
          | inl fresh ↦
              subst (λ (q : Unit {0} × Db). Running a ms q.1) (some-injective _ _ (rw fresh at e))
                (
                  (
                    new_run a.run_id a.session_id a.message a.provider (model_name a.provider)
                        (some worker_id) 120 now,
                    rw ((==_iff a.run_id a.run_id).1 refl) refl,
                    λ e. cc e,
                  ),
                  p,
                )
        ])

  set_up_frame :
      (raw : RawHistory)
      → Ensures Handled Same
          (set_up h worker_id strip model_name parse_message_history a raw)
          (λ s. Running a ms)
          Same
  unfolding set_up ensure_session
  set_up_frame raw =
      Ensures-bind _ _ (λ u. Same) _ _ (ensure_session a.session_id a.scope) _
        (Ensures-statements _ _ _ _ _ tt (λ db p. p) (λ now db p. p))
        (λ u.
          Ensures-bind _ _ (λ js. Same) _ _ (load_message_history a.session_id 50) _ load_frame
            (λ stored.
              Ensures-bind _ _ (λ history. Same) _ _
                (stored_or_raw h worker_id strip model_name parse_message_history a raw stored) _
                (stored_or_raw_frame raw stored)
                (λ history.
                  Ensures-bind _ _ (λ u. Running a ms) _ _
                    (create_run a.run_id a.session_id a.message a.provider (model_name a.provider)
                      (some worker_id) 120)
                    _ create_frame
                    (λ u. Ensures-no_error _ _ _ _ Same _ (
                      save_checkpoint_frame h worker_id strip model_name parse_message_history a
                        Unsuccessful (λ ms'. ms' ≡ ms) Same new context_loaded _)))))

-- The chat route answers every accepted request, whatever the database and the model do, and tells
-- what is stored: a reply is the stripped text of the outcome and not empty, its run is stored as
-- succeeded, and the outcome's messages stand behind those that the session had, numbered on from
-- the highest number. The answer that there is no text is of such a stored run too, with an empty
-- text. After the answers that the model failed, or is limited, the run is stored and not as
-- succeeded, and no message was added; after a failed setup no message was added either; and where
-- the response could not be stored, the run is stored and not as succeeded.
pub chat_Told :
    (h : Hashing) (worker_id : String) (strip model_name : String → String)
    (parse_message_history : RawHistory → Option (Option (List Json))) (a : Accepted)
    (user_id : String) (raw : RawHistory) (activities : List Activity) (outcome : AgentOutcome)
    (w : World)
    → let run =
        chat_message h worker_id strip model_name parse_message_history a user_id raw activities
          outcome w in
      (answer : Chatted) × (run.0 ≡ ok answer) × Told strip a outcome w.db.messages answer run.1.db
unfolding chat_message
chat_Told h worker_id strip model_name parse_message_history a user_id raw activities outcome w =
    elim (chats.ends w refl) [ inl told ↦ told | inr (e, is, never, _) ↦ absurd never ]
  where
    started :
        (o : Option RunState)
        → Ensures NoError
            (Attempted (λ s. Running a w.db.messages) (λ db. db.messages ≡ w.db.messages) o)
            (elim o [
              | none ↦ pure setup_failed
              | some run_state ↦
                  run_agent h worker_id strip model_name parse_message_history a user_id activities
                    outcome run_state
            ])
            (Told strip a outcome w.db.messages)
            (λ db. Unit)
    started none = Ensures-pure _ _ _ _ setup_failed (λ db p. p)
    started (some s) =
        run_agent_frame h worker_id strip model_name parse_message_history a w.db.messages _ user_id
          activities outcome s

    chats :
        Ensures NoError
          (λ db. db.messages ≡ w.db.messages)
          (chat_message h worker_id strip model_name parse_message_history a user_id raw activities
            outcome)
          (Told strip a outcome w.db.messages)
          (λ db. Unit)
    chats =
        Ensures-bind _ _
          (Attempted (λ s. Running a w.db.messages) (λ db. db.messages ≡ w.db.messages)) _ _
          (attempt_either (set_up h worker_id strip model_name parse_message_history a raw)) _
          (Ensures-attempt_either _ _ _ _ _ _
            (set_up_frame h worker_id strip model_name parse_message_history a w.db.messages raw))
          started
