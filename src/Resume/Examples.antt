-- ===== src/Resume/Examples.antt =====
-- The resume route at run 7 of session 2, with one stored message.
use mathlib.Core.Bool.{false≢true}
use ahmed_agent.Base.{
  ◌*◌, ◌<◌, ◌≡◌, ◌≢◌, refl, ◌↔◌, ◌⊎◌, inr, true, false, none, some, String, List, [], ◌∷◌, arith,
  eq_iff,
}
use ahmed_agent.Base.Json.{obj, end}
use ahmed_agent.Schema.{
  Db, Run, RunStatus, Message, running, succeeded, active, orphaned, empty, second,
}
use ahmed_agent.Exec.{World, Outcome, ok}
use ahmed_agent.Audit.{Hashing, append_audit_event}
use ahmed_agent.RunState.{
  RunStage, response_ready, response_persisted, of_value, recovery_action, value,
}
use ahmed_agent.Runs.{
  mark_orphaned_runs, update_orphaned, load_run_recovery, claim_orphaned_run, release_orphaned_run,
  finish_run, lost,
}
use ahmed_agent.Events.{record_run_checkpoint, record_recovery_event}
use ahmed_agent.Messages.{run_message_count}
use ahmed_agent.Leases.Consistent.{IsConsistent}
use ahmed_agent.Leases.Protect.{Holds}
use ahmed_agent.Leases.Recover.{calm}
use ahmed_agent.Resume.{
  load_failed, lease_active, recovered, recovery_failed, safe_to_resume, decide, run_resume_route,
  complete_tail, give_up,
}
use ahmed_agent.Resume.Decide.{safe_to_resume_exact}
use ahmed_agent.Resume.Keep.{resume_reruns_nothing}
use ahmed_agent.Resume.Tail.{IsRecovered, stored_messages}
use ahmed_agent.Resume.Succeed.{recovered_is_stored}
use ahmed_agent.Resume.Complete.{lost_run_recovered}
use ahmed_agent.Resume.Refuse.{held_run_refused}

abbrev plain : Hashing
plain = record { sha256 = λ s. s; canonical_json = λ p. p.event_type }

abbrev run : Run
run = record {
  run_id = 7;
  session_id = 2;
  status = running;
  user_prompt = "hello";
  provider_name = "gemini";
  model_name = "m";
  error_code = none;
  created_at = 0;
  finished_at = none;
  stage = "response_persisted";
  worker_id = some "w1";
  lease_expires_at = some (50 * second);
  lease_version = 1;
  attempt_count = 1;
  last_checkpoint_at = none;
  recovery_status = active;
}

abbrev lost_run : Run
lost_run = record run { worker_id = none; lease_expires_at = none; recovery_status = orphaned }

abbrev message : Message
message = record {
  session_id = 2;
  run_id = 7;
  sequence_number = 1;
  message_json = obj end;
  created_at = 0;
}

abbrev stored : Db
stored = record empty { runs = run ∷ []; messages = message ∷ [] }

abbrev lost_db : Db
lost_db = record empty { runs = lost_run ∷ []; messages = message ∷ [] }

abbrev early : World
early = calm stored (10 * second)

abbrev late : World
late = calm stored (60 * second)

abbrev worker_name : ◌≢◌ {A = String} "w:recovery" ""
worker_name = λ e. false≢true ((eq_iff "w:recovery" "").1 e)

lost_run-IsConsistent : IsConsistent lost_run
lost_run-IsConsistent = ground arith

run-IsConsistent : IsConsistent run
run-IsConsistent = ground arith

safe_to_resume_exact_example : (safe_to_resume lost_run ≡ true) ↔ (
    (lost_run.status ≡ running)
    × ((stage : RunStage) × (decide lost_run lost_run.status ≡ inr stage)))
safe_to_resume_exact_example = safe_to_resume_exact lost_run lost_run-IsConsistent

resume_reruns_nothing_example :
    let db = (run_resume_route plain "w:recovery" (some 7) late).1.db in
    (db.messages ≡ stored.messages)
    × (db.sessions ≡ stored.sessions)
    × (db.tool_events ≡ stored.tool_events)
    × (db.actions ≡ stored.actions)
resume_reruns_nothing_example = resume_reruns_nothing plain "w:recovery" (some 7) late

recovers : (run_resume_route plain "w:recovery" (some 7) late).0 ≡ ok (recovered 1)
unfolding run_resume_route mark_orphaned_runs load_run_recovery claim_orphaned_run complete_tail
    run_message_count finish_run record_run_checkpoint append_audit_event of_value recovery_action
    value
recovers = refl

recovered_is_stored_example :
    IsRecovered 7 (run_resume_route plain "w:recovery" (some 7) late).1.db
    × (1 ≡ stored_messages 7 stored.messages)
recovered_is_stored_example = recovered_is_stored 7 plain "w:recovery" late 1 recovers

run-lost : lost (60 * second) run ≡ true
unfolding lost
run-lost = refl

tail_known : (of_value "response_persisted" ≡ some response_persisted)
unfolding of_value
tail_known = refl

tail_completes : recovery_action response_persisted ≡ ahmed_agent.RunState.complete_persisted_tail
unfolding recovery_action
tail_completes = refl

lost_run_recovered_example :
    (run_resume_route plain "w:recovery" (some 7) late).0
    ≡ ok (recovered (stored_messages 7 stored.messages))
lost_run_recovered_example =
    lost_run_recovered plain "w:recovery" 7 stored (60 * second) run response_persisted
      (λ e. refl, tt) refl run-lost tail_known tail_completes refl worker_name

run_held : Holds 7 "w1" (50 * second) stored
run_held = (
  run,
  refl,
  record { same_run = refl; still_running = refl; still_active = refl; held = refl; until = refl },
)

scan_early : (mark_orphaned_runs early).1.clock < 50 * second
unfolding mark_orphaned_runs update_orphaned
scan_early = omega arith

held_run_refused_example :
    let done = run_resume_route plain "w:recovery" (some 7) early in
    ((done.0 ≡ ok load_failed) ⊎ (done.0 ≡ ok lease_active)) × Holds 7 "w1" (50 * second) done.1.db
held_run_refused_example =
    held_run_refused plain "w:recovery" 7 "w1" (50 * second) early run_held scan_early

abbrev fine : Outcome
fine = record { fails = false; elapsed = 0 }

abbrev broken : Outcome
broken = record { fails = true; elapsed = 0 }

-- The scan, the load, the claim, the count and the finish go through, the last checkpoint fails.
abbrev last_checkpoint_fails : World
last_checkpoint_fails = record late { outcomes = fine ∷ fine ∷ fine ∷ fine ∷ fine ∷ broken ∷ [] }

statuses : List Run → List RunStatus
statuses [] = []
statuses (r ∷ rs) = r.status ∷ statuses rs

-- The route answers `recovery_failed` for a run that it has stored as succeeded.
succeeded_but_failed :
    ((run_resume_route plain "w:recovery" (some 7) last_checkpoint_fails).0 ≡ ok recovery_failed)
    × (statuses (run_resume_route plain "w:recovery" (some 7) last_checkpoint_fails).1.db.runs
        ≡ succeeded ∷ [])
unfolding statuses run_resume_route mark_orphaned_runs load_run_recovery claim_orphaned_run
    complete_tail give_up run_message_count finish_run record_run_checkpoint release_orphaned_run
    record_recovery_event append_audit_event of_value recovery_action value
succeeded_but_failed = (refl, refl)
