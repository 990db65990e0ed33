-- ===== src/Resume/Succeed.antt =====
-- What is stored when the resume route answers that it has recovered a run.
use ahmed_agent.Base.{
  ℕ, ◌≡◌, ◌≢◌, refl, sym, ap, ◌∙◌, ◌⊎◌, inl, inr, Option, none, some, String, ◌==◌, List,
  Option-cases, Bool-cases,
}
use mathlib.Core.Option.{some-injective}
use ahmed_agent.Base.Table.{select, update, updated, select-update}
use ahmed_agent.Schema.{Db, empty, Run, Message, RunStatus, running, succeeded, failed, other}
use ahmed_agent.Exec.{World, ok, value_error, raise, pure, transact, try_except}
use ahmed_agent.Exec.Returns.{
  Returns, Returns-pure, Returns-raise, Returns-if, Returns-transact, Returns-bind, Returns-try,
}
use ahmed_agent.Audit.{Hashing}
use ahmed_agent.RunState.{
  RunStage, RecoveryAction, complete_persisted_tail, retry_new_run, manual_review, noop,
  recovery_action, of_value,
}
use ahmed_agent.Runs.{
  by_id, claim_orphaned_run, mark_orphaned_runs, load_run_recovery, update_claimed, claimed,
  claimable,
}
use ahmed_agent.Runs.{invalid_claim, update_orphaned, updated_row}
use ahmed_agent.Leases.Recover.{unclaimable}
use ahmed_agent.Resume.{
  Resumed, recovered, load_failed, not_found, load_recovery_state, resume_decided, resume_loaded,
  run_resume_route, decide, by_stage, by_action,
}
use ahmed_agent.Exec.{◌>>=◌}
use ahmed_agent.Runs.{is_orphaned}
use ahmed_agent.Resume.Tail.{
  IsRecovered, Known, stored_messages, written, Said, other_answer, resume_claimed_leaves,
}

by_action_not_recovered :
    (r : Run) (stage : RunStage) (action : RecoveryAction) (answer : Resumed) (n : ℕ)
    → by_action r stage action ≡ inl answer
    → answer ≢ recovered n
unfolding by_action
by_action_not_recovered r stage complete_persisted_tail answer n e is = absurd (cc e)
by_action_not_recovered r stage retry_new_run answer n e is = absurd (cc (e, is))
by_action_not_recovered r stage manual_review answer n e is = absurd (cc (e, is))
by_action_not_recovered r stage noop answer n e is = absurd (cc (e, is))

by_stage_not_recovered :
    (r : Run) (o : Option RunStage) (answer : Resumed) (n : ℕ)
    → by_stage r o ≡ inl answer
    → answer ≢ recovered n
unfolding by_stage
by_stage_not_recovered r none answer n e is = absurd (cc (e, is))
by_stage_not_recovered r (some stage) answer n e is =
    by_action_not_recovered r stage (recovery_action stage) answer n e is

decide_not_recovered :
    (r : Run) (s : RunStatus) (answer : Resumed) (n : ℕ)
    → decide r s ≡ inl answer
    → answer ≢ recovered n
unfolding decide
decide_not_recovered r succeeded answer n e is = absurd (cc (e, is))
decide_not_recovered r failed answer n e is = absurd (cc (e, is))
decide_not_recovered r (other text) answer n e is =
    by_stage_not_recovered r (of_value r.stage) answer n e is
decide_not_recovered r running answer n e is = elim (Bool-cases (is_orphaned r.recovery_status)) [
  | inl o ↦ by_stage_not_recovered r (of_value r.stage) answer n (rw o at e) is
  | inr o ↦ absurd (cc (rw o at e, is))
]

module _ (run_id : ℕ) where
  claimed-Known :
      (now : ℕ) (change : Run → Run) (same : (r : Run) → (change r).run_id ≡ r.run_id)
      (rs : List Run) (r : Run)
      → updated_row change (select (claimable run_id now) rs) ≡ some r
      → Known run_id (record empty { runs = update (claimable run_id now) change rs })
  claimed-Known now change same rs r e = elim (Option-cases (select (by_id run_id) rs)) [
    | inl missing ↦ absurd (cc (rw (unclaimable run_id now rs missing) at e))
    | inr (x, found) ↦ (
      _,
      select-update (by_id run_id) (claimable run_id now) change
            (λ y. ap (λ (n : ℕ). n == run_id) (same y)) rs
          ∙ ap (updated (claimable run_id now) change) found,
    )
  ]

  claim_leaves :
      (recovery_worker : String) (ms : List Message)
      → Returns
          (λ db. db.messages ≡ ms)
          (claim_orphaned_run run_id recovery_worker 120)
          (λ o db. (r : Run) → o ≡ some r → Known run_id db × (db.messages ≡ ms))
  unfolding claim_orphaned_run update_claimed claimed
  claim_leaves recovery_worker ms =
      Returns-if _ _ (invalid_claim recovery_worker 120) (raise value_error)
        (transact (update_claimed run_id recovery_worker 120))
        (λ bad. Returns-raise _ _ value_error)
        (λ good.
          Returns-transact _ _ (update_claimed run_id recovery_worker 120)
            (λ now db o db' kept e r is.
              let done = some-injective _ _ e in
              let answer = ap (λ (p : Option Run × Db). p.0) done in
              (
                written run_id (λ rs. Known run_id (record empty { runs = rs })) e
                    (claimed-Known now (claimed recovery_worker 120 now) (λ x. refl) db.runs r
                      (answer ∙ is)),
                sym (ap (λ (p : Option Run × Db). p.1.messages) done) ∙ kept,
              )))

  -- Rows of runs may change, messages do not.
  scan_leaves :
      (ms : List Message)
      → Returns (λ db. db.messages ≡ ms) mark_orphaned_runs (λ ids db. db.messages ≡ ms)
  unfolding mark_orphaned_runs update_orphaned
  scan_leaves ms = Returns-transact _ _ update_orphaned (λ now db ids db' kept e.
      sym (ap (λ (p : List ℕ × Db). p.1.messages) (some-injective _ _ e)) ∙ kept)

  load_leaves :
      (ms : List Message)
      → Returns (λ db. db.messages ≡ ms) (load_recovery_state run_id) (λ o db. db.messages ≡ ms)
  unfolding load_recovery_state load_run_recovery
  load_leaves ms =
      Returns-bind _ (λ ids db. db.messages ≡ ms) _ mark_orphaned_runs _ (scan_leaves ms)
        (λ ids. Returns-transact _ _ _ (λ now db o db' kept e.
          sym (ap (λ (p : Option Run × Db). p.1.messages) (some-injective _ _ e)) ∙ kept))

  module _ (h : Hashing) (recovery_worker : String) where
    resume_decided_leaves :
        (ms : List Message) (r : Run) (d : Resumed ⊎ RunStage)
        → decide r r.status ≡ d
        → Returns
            (λ db. db.messages ≡ ms)
            (resume_decided h recovery_worker run_id d)
            (Said run_id ms)
    unfolding resume_decided
    resume_decided_leaves ms r (inr stage) e =
        Returns-bind _ _ _ (claim_orphaned_run run_id recovery_worker 120) _
          (claim_leaves recovery_worker ms)
          (λ o. resume_claimed_leaves run_id h recovery_worker ms stage o)
    resume_decided_leaves ms r (inl answer) e =
        other_answer run_id h recovery_worker ms answer
          (λ n is. decide_not_recovered r r.status answer n e is)

    resume_loaded_leaves :
        (ms : List Message) (o : Option (Option Run))
        → Returns
            (λ db. (x : Option Run) → o ≡ some x → db.messages ≡ ms)
            (resume_loaded h recovery_worker run_id o)
            (Said run_id ms)
    unfolding resume_loaded
    resume_loaded_leaves ms none =
        other_answer run_id h recovery_worker ms load_failed (λ n e. absurd (cc e))
    resume_loaded_leaves ms (some none) =
        other_answer run_id h recovery_worker ms not_found (λ n e. absurd (cc e))
    resume_loaded_leaves ms (some (some r)) = record {
      leaves = λ w p a e.
          (resume_decided_leaves ms r (decide r r.status) refl).leaves w (p (some r) refl) a e;
    }

    route_leaves :
        (ms : List Message)
        → Returns
            (λ db. db.messages ≡ ms)
            (run_resume_route h recovery_worker (some run_id))
            (Said run_id ms)
    unfolding run_resume_route
    route_leaves ms =
        Returns-bind _ (λ o db. (x : Option Run) → o ≡ some x → db.messages ≡ ms) _
          (try_except (do recovery ← load_recovery_state run_id; pure (some recovery)) (pure none))
          _
          (Returns-try _ _ (do recovery ← load_recovery_state run_id; pure (some recovery))
            (pure none)
            (Returns-bind _ (λ o db. db.messages ≡ ms) _ (load_recovery_state run_id) _
              (load_leaves ms) (λ o. Returns-pure _ _ (some o) (λ db kept x e. kept)))
            (Returns-pure _ _ none (λ db u x e. absurd (cc e))))
          (λ o. resume_loaded_leaves ms o)

    -- When the resume route answers that it has recovered a run, the run is stored as succeeded,
    -- resolved, completed and held by nobody, and the number in the answer is the number of the
    -- run's stored messages; whatever failed on the way.
    pub recovered_is_stored :
        (w : World) (n : ℕ)
        → (run_resume_route h recovery_worker (some run_id) w).0 ≡ ok (recovered n)
        → IsRecovered run_id (run_resume_route h recovery_worker (some run_id) w).1.db
          × (n ≡ stored_messages run_id w.db.messages)
    recovered_is_stored w n e = (route_leaves w.db.messages).leaves w refl (recovered n) e n refl
