-- ===== src/Resume/Tail.antt =====
-- What is stored when the body of the resume route's `try` returns.
use ahmed_agent.Base.{
  ℕ, ◌≡◌, ◌≢◌, refl, sym, ap, ◌∙◌, false, ◌&&◌, Option, none, some, String, ◌==◌, List,
}
use mathlib.Core.Path.{subst}
use mathlib.Core.Option.{some-injective}
use ahmed_agent.Base.Json.{Json, obj, field, str, end}
use ahmed_agent.Base.Table.{select, update, select-update, select_passes, count}
use ahmed_agent.Schema.{Db, empty, Run, Message, succeeded, resolved}
use ahmed_agent.Exec.{value_error, raise, pure, transact, try_except}
use ahmed_agent.Exec.Returns.{
  Returns, Returns-pure, Returns-raise, Returns-if, Returns-transact, Returns-bind, Returns-try,
}
use ahmed_agent.Audit.{Hashing, append_audit_event}
use ahmed_agent.RunState.{RunStage, value, completed, response_persisted}
use ahmed_agent.Runs.{by_id, finished, finish_run, update_finished, release_orphaned_run}
use ahmed_agent.Events.{
  at_stage, insert_checkpoint, record_recovery_event, invalid_stage, record_run_checkpoint,
}
use ahmed_agent.Messages.{run_message_count}
use ahmed_agent.Resume.{
  Resumed, recovered, recovered_state, response_not_persisted, recovery_claim_failed,
  recovery_failed, is_ready, persist_stage, finish_tail, give_back, persist_tail, complete_tail,
  give_up, resume_claimed,
}

-- The run is stored as completed by somebody who no longer holds it.
pub record IsRecovered (run_id : ℕ) (db : Db) : Type 0 where
  pub row : Run
  pub stored : select (by_id run_id) db.runs ≡ some row
  pub succeeds : row.status ≡ succeeded
  pub completes : row.stage ≡ value completed
  pub resolves : row.recovery_status ≡ resolved
  pub free : (row.worker_id ≡ none) × (row.lease_expires_at ≡ none)

abbrev pub Known : ℕ → Db → Type 0
Known run_id db = (r : Run) × (select (by_id run_id) db.runs ≡ some r)

-- The number of the run's messages.
abbrev pub stored_messages : ℕ → List Message → ℕ
stored_messages run_id ms = count (λ (m : Message). m.run_id == run_id) ms

module _ (run_id : ℕ) where
  row_after :
      (change : Run → Run)
      → ((r : Run) → (change r).run_id ≡ r.run_id)
      → (rs : List Run) (r : Run) → select (by_id run_id) rs ≡ some r
      → select (by_id run_id) (update (by_id run_id) change rs) ≡ some (change r)
  row_after change same rs r known =
      select-update (by_id run_id) (by_id run_id) change (λ x. ap (λ (n : ℕ). n == run_id) (same x))
        rs
      ∙ rw (known, select_passes (by_id run_id) rs r known) refl

  -- From the rows of runs to those that a transaction leaves.
  pub written :
      (Q : List Run → Type 0) {A : Type 0} {a b : A} {db db' : Db}
      → ◌≡◌ {A = Option (A × Db)} (some (a, db)) (some (b, db'))
      → Q db.runs
      → Q db'.runs
  written Q {A} e q = subst Q (ap (λ (p : A × Db). p.1.runs) (some-injective _ _ e)) q

  abbrev pub Finished : Db → Type 0
  Finished db =
      (r : Run) × (select (by_id run_id) db.runs ≡ some r)
      × (r.status ≡ succeeded)
      × (r.recovery_status ≡ resolved)
      × (r.worker_id ≡ none)
      × (r.lease_expires_at ≡ none)

  -- What the answer says about what is stored.
  abbrev pub Said : List Message → Resumed → Db → Type 0
  Said ms a db = (n : ℕ) → a ≡ recovered n → IsRecovered run_id db × (n ≡ stored_messages run_id ms)

  finish_leaves : Returns (Known run_id) (finish_run run_id succeeded none) (λ u db. Finished db)
  unfolding finish_run update_finished finished
  finish_leaves = Returns-transact _ _ _ (λ now db u db' (r, known) e.
      written (λ rs. Finished (record empty { runs = rs })) e
        (
          finished succeeded none now r,
          row_after (finished succeeded none now) (λ x. refl) db.runs r known,
          refl,
          refl,
          refl,
          refl,
        ))

  module _ (h : Hashing) (recovery_worker : String) where
    checkpoint_leaves :
        (session_id : ℕ) (stage : String) (state : Json)
        → Returns
            (Known run_id)
            (record_run_checkpoint h session_id run_id stage state)
            (λ u db. Known run_id db)
    unfolding record_run_checkpoint insert_checkpoint at_stage append_audit_event
    checkpoint_leaves session_id stage state =
        Returns-if _ _ (invalid_stage stage) (raise value_error)
          (transact (insert_checkpoint h session_id run_id stage state))
          (λ bad. Returns-raise _ _ value_error)
          (λ good.
            Returns-transact _ _ (insert_checkpoint h session_id run_id stage state)
              (λ now db u db' (r, known) e.
                written (λ rs. Known run_id (record empty { runs = rs })) e
                  (
                    at_stage stage now r,
                    row_after (at_stage stage now) (λ x. refl) db.runs r known,
                  )))

    completed_leaves :
        (session_id : ℕ) (state : Json)
        → Returns Finished
            (record_run_checkpoint h session_id run_id (value completed) state)
            (λ u db. IsRecovered run_id db)
    unfolding record_run_checkpoint insert_checkpoint at_stage append_audit_event
    completed_leaves session_id state =
        Returns-if _ _ (invalid_stage (value completed)) (raise value_error)
          (transact (insert_checkpoint h session_id run_id (value completed) state))
          (λ bad. Returns-raise _ _ value_error)
          (λ good.
            Returns-transact _ _ (insert_checkpoint h session_id run_id (value completed) state)
              (λ now db u db' (r, known, s, rs, w, l) e.
                recovered_by (at_stage (value completed) now r) db'
                  (written
                    (λ rs. select (by_id run_id) rs ≡ some (at_stage (value completed) now r)) e
                    (row_after (at_stage (value completed) now) (λ x. refl) db.runs r known))
                  s refl rs (w, l)))
      where
        recovered_by :
            (r : Run) (db : Db)
            → select (by_id run_id) db.runs ≡ some r
            → r.status ≡ succeeded
            → r.stage ≡ value completed
            → r.recovery_status ≡ resolved
            → ((r.worker_id ≡ none) × (r.lease_expires_at ≡ none))
            → IsRecovered run_id db
        recovered_by r db st su c re f = record {
          row = r;
          stored = st;
          succeeds = su;
          completes = c;
          resolves = re;
          free = f;
        }

    finish_tail_leaves :
        (session_id n : ℕ)
        → Returns
            (Known run_id)
            (finish_tail h recovery_worker session_id run_id n)
            (λ a db. (a ≡ recovered n) × IsRecovered run_id db)
    unfolding finish_tail
    finish_tail_leaves session_id n = Returns-bind _ _ _ _ _ finish_leaves (λ u.
        Returns-bind _ _ _ _ _ (completed_leaves session_id _)
          (λ v. Returns-pure _ _ _ (λ db p. (refl, p))))

    -- An answer that is not `recovered` says nothing.
    pub other_answer :
        {P : Db → Type 0} (ms : List Message) (a : Resumed)
        → ((n : ℕ) → a ≢ recovered n)
        → Returns P (pure a) (Said ms)
    other_answer ms a differs = Returns-pure _ _ a (λ db p n e. absurd (differs n e))

    persist_tail_leaves :
        (ms : List Message) (session_id n : ℕ) (stage : RunStage)
        → n ≡ stored_messages run_id ms
        → Returns
            (Known run_id)
            (persist_tail h recovery_worker session_id run_id stage n)
            (Said ms)
    unfolding persist_tail persist_stage give_back
    persist_tail_leaves ms session_id n stage counted =
        Returns-if _ _ (is_ready stage && n == 0) (give_back h recovery_worker run_id) _
          (λ gone.
            Returns-bind _ (λ b db. Unit) _ (release_orphaned_run run_id recovery_worker) _
              (record { leaves = λ w p b e. tt })
              (λ b. other_answer ms response_not_persisted (λ n e. absurd (cc e))))
          (λ kept.
            Returns-bind _ (λ u db. Known run_id db) _
              (persist_stage h recovery_worker session_id run_id n stage) _
              (Returns-if _ _ (is_ready stage)
                (record_run_checkpoint h session_id run_id (value response_persisted)
                  (recovered_state n))
                (pure tt) (λ ready. checkpoint_leaves session_id _ _)
                (λ not_ready. Returns-pure _ _ tt (λ db p. p)))
              (λ u. record {
                leaves = λ w p a e m is.
                    let (answer, stored) = (finish_tail_leaves session_id n).leaves w p a e in
                    (stored, recovered_count (sym is ∙ answer) ∙ counted);
              }))
      where
        recovered_count : {m n : ℕ} → recovered m ≡ recovered n → m ≡ n
        recovered_count e = cc e

    complete_tail_leaves :
        (ms : List Message) (session_id : ℕ) (stage : RunStage)
        → Returns
            (λ db. Known run_id db × (db.messages ≡ ms))
            (complete_tail h recovery_worker session_id run_id stage)
            (Said ms)
    unfolding complete_tail run_message_count
    complete_tail_leaves ms session_id stage =
        Returns-bind _ (λ n db. Known run_id db × (n ≡ stored_messages run_id ms)) _
          (run_message_count run_id) _
          (Returns-transact _ _ _ (λ now db n db' (known, kept) e.
            let done = some-injective _ _ e in
            (
              written (λ rs. Known run_id (record empty { runs = rs })) e known,
              sym (ap (λ (p : ℕ × Db). p.0) done) ∙ ap (stored_messages run_id) kept,
            )))
          (λ n. record {
            leaves = λ w (known, counted) a e.
                (persist_tail_leaves ms session_id n stage counted).leaves w known a e;
          })

    give_up_leaves :
        (ms : List Message) (session_id : ℕ)
        → Returns (λ db. Unit) (give_up h recovery_worker session_id run_id) (Said ms)
    unfolding give_up
    give_up_leaves ms session_id =
        Returns-bind _ (λ b db. Unit) _
          (try_except (release_orphaned_run run_id recovery_worker) (pure false)) _
          (record { leaves = λ w p b e. tt })
          (λ b.
            Returns-bind _ (λ u db. Unit) _
              (try_except
                (record_recovery_event h session_id run_id "recovery.failed" "failed"
                  (obj (field "code" (str "RECOVERY_PERSISTENCE_ERROR") end)))
                (pure tt))
              _ (record { leaves = λ w p b e. tt })
              (λ u. other_answer ms recovery_failed (λ n e. absurd (cc e))))

    pub resume_claimed_leaves :
        (ms : List Message) (stage : RunStage) (o : Option Run)
        → Returns
            (λ db. (r : Run) → o ≡ some r → Known run_id db × (db.messages ≡ ms))
            (resume_claimed h recovery_worker run_id stage o)
            (Said ms)
    unfolding resume_claimed
    resume_claimed_leaves ms stage none =
        other_answer ms recovery_claim_failed (λ n e. absurd (cc e))
    resume_claimed_leaves ms stage (some r) =
        Returns-try _ _ (complete_tail h recovery_worker r.session_id run_id stage)
          (give_up h recovery_worker r.session_id run_id)
          (record {
            leaves =
                λ w p a e. (complete_tail_leaves ms r.session_id stage).leaves w (p r refl) a e;
          })
          (give_up_leaves ms r.session_id)
