-- ===== src/Resume/Complete.antt =====
-- When the resume route recovers a run, and when it leaves it alone.
use ahmed_agent.Base.{
  ℕ, ◌≡◌, ◌≢◌, refl, ◌∙◌, inl, inr, true, false, ◌&&◌, some, String, ◌==◌, List, Bool-cases, arith,
}
use ahmed_agent.Base.Table.{select, update, select-update}
use ahmed_agent.Schema.{Db, Run, RunStatus, running, succeeded, failed, other}
use ahmed_agent.Exec.{ok}
use ahmed_agent.Audit.{Hashing, append_audit_event}
use ahmed_agent.RunState.{RunStage, complete_persisted_tail, of_value, recovery_action, value}
use ahmed_agent.Runs.{
  by_id, lost, mark_orphaned, mark_orphaned_runs, update_orphaned, load_run_recovery,
  claim_orphaned_run, update_claimed, finish_run, is_running,
}
use ahmed_agent.Events.{record_run_checkpoint}
use ahmed_agent.Messages.{run_message_count}
use ahmed_agent.Leases.Unique.{Once}
use ahmed_agent.Leases.Recover.{calm, scanned_claimable, valid_claim}
use ahmed_agent.Resume.{
  recovered, is_ready, load_recovery_state, by_action, by_stage, decide, persist_stage, finish_tail,
  persist_tail, complete_tail, resume_claimed, resume_decided, resume_loaded, run_resume_route,
}
use ahmed_agent.Resume.Tail.{stored_messages}

module _ (h : Hashing) (recovery_worker : String) (run_id : ℕ) where
  lost_found :
      (now : ℕ) (rs : List Run) (r : Run)
      → select (by_id run_id) rs ≡ some r
      → lost now r ≡ true
      → select (by_id run_id) (update (lost now) mark_orphaned rs) ≡ some (mark_orphaned r)
  unfolding mark_orphaned
  lost_found now rs r found l =
      select-update (by_id run_id) (lost now) mark_orphaned (λ x. refl) rs ∙ rw (found, l) refl

  lost_runs : (now : ℕ) (r : Run) → lost now r ≡ true → is_running r.status ≡ true
  unfolding lost
  lost_runs now r l = ground arith

  decide_lost :
      (s : RunStatus) (r : Run) (stage : RunStage)
      → is_running s ≡ true
      → of_value r.stage ≡ some stage
      → recovery_action stage ≡ complete_persisted_tail
      → decide (mark_orphaned r) s ≡ inr stage
  unfolding decide by_stage by_action mark_orphaned
  decide_lost running r stage e known tail = rw (known, tail) refl
  decide_lost succeeded r stage e known tail = absurd (cc e)
  decide_lost failed r stage e known tail = absurd (cc e)
  decide_lost (other text) r stage e known tail = absurd (cc e)

  -- From the claim on, with no failure of the database.
  tail_recovers :
      (db : Db) (now session_id : ℕ) (stage : RunStage)
      → (is_ready stage && stored_messages run_id db.messages == 0) ≡ false
      → (complete_tail h recovery_worker session_id run_id stage (calm db now)).0
        ≡ ok (recovered (stored_messages run_id db.messages))
  unfolding complete_tail persist_tail persist_stage finish_tail run_message_count
      record_run_checkpoint finish_run append_audit_event value
  tail_recovers db now session_id stage kept = rw kept (elim (Bool-cases (is_ready stage)) [
    | inl ready ↦ rw ready refl
    | inr not_ready ↦ rw not_ready refl
  ])

  -- A run whose lease has ended after its answer was made is recovered by whoever asks for it, if
  -- no transaction fails: the route answers `recovered` with the number of the run's messages. The
  -- run's stage is one that can be completed, with a message stored if the answer was ready, its
  -- id stands in the table once, and the worker has a name.
  pub lost_run_recovered :
      (db : Db) (now : ℕ) (r : Run) (stage : RunStage)
      → Once run_id db.runs
      → select (by_id run_id) db.runs ≡ some r
      → lost now r ≡ true
      → of_value r.stage ≡ some stage
      → recovery_action stage ≡ complete_persisted_tail
      → (is_ready stage && stored_messages run_id db.messages == 0) ≡ false
      → recovery_worker ≢ ""
      → (run_resume_route h recovery_worker (some run_id) (calm db now)).0
        ≡ ok (recovered (stored_messages run_id db.messages))
  unfolding run_resume_route load_recovery_state mark_orphaned_runs update_orphaned
      load_run_recovery resume_loaded resume_decided claim_orphaned_run update_claimed
      resume_claimed mark_orphaned
  lost_run_recovered db now r stage once found l known tail kept named =
      rw
        (
          lost_found now db.runs r found l,
          decide_lost r.status r stage (lost_runs now r l) known tail,
          valid_claim run_id recovery_worker 120 named (omega arith) (omega arith),
          scanned_claimable run_id recovery_worker 120 now db.runs r once found l,
        )
        (rw (tail_recovers _ now r.session_id stage kept) refl)
