-- ===== src/Retention/Examples.antt =====
-- A cleanup of two runs, one of them of a test session, 31 days after they succeeded.
use ahmed_agent.Base.{ℕ, refl, true, false, none, some, String, [], ◌∷◌}
use ahmed_agent.Base.Json.{obj, end}
use ahmed_agent.Schema.{Db, Run, Session, Checkpoint, Message, succeeded, resolved, empty}
use ahmed_agent.Audit.{Hashing, append_audit_event}
use ahmed_agent.Retention.{cleanup, cleanup_event, Deleted, days}
use ahmed_agent.Retention.Exact.{IsAsTold, preview_exact}
use ahmed_agent.Retention.Keep.{IsKept, cleanup-IsKept}

abbrev plain : Hashing
plain = record { sha256 = λ s. s; canonical_json = λ p. p.event_type }

abbrev run : ℕ → ℕ → Run
run run_id session_id = record {
  run_id = run_id;
  session_id = session_id;
  status = succeeded;
  user_prompt = "hello";
  provider_name = "gemini";
  model_name = "m";
  error_code = none;
  created_at = 0;
  finished_at = some 0;
  stage = "completed";
  worker_id = none;
  lease_expires_at = none;
  lease_version = 1;
  attempt_count = 1;
  last_checkpoint_at = none;
  recovery_status = resolved;
}

abbrev session : ℕ → String → Session
session session_id scope = record {
  session_id = session_id;
  scope = scope;
  status = "active";
  created_at = 0;
  updated_at = 0;
}

abbrev checkpoint : ℕ → ℕ → Checkpoint
checkpoint run_id created_at = record {
  checkpoint_id = run_id;
  session_id = 1;
  run_id = run_id;
  stage = "completed";
  state_json = obj end;
  created_at = created_at;
}

abbrev message : ℕ → Message
message run_id = record {
  session_id = 1;
  run_id = run_id;
  sequence_number = 1;
  message_json = obj end;
  created_at = 0;
}

abbrev stored : Db
stored = record empty {
  sessions = session 1 "WEB" ∷ session 2 "probe" ∷ [];
  runs = run 7 1 ∷ run 8 2 ∷ [];
  messages = message 7 ∷ message 8 ∷ [];
  checkpoints = checkpoint 7 0 ∷ checkpoint 8 (days 20) ∷ [];
}

abbrev told : Deleted
told = record {
  deleted_runs = 0;
  deleted_sessions = 0;
  deleted_messages = 0;
  deleted_checkpoints = 1;
  deleted_tool_events = 0;
  deleted_pending_actions = 0;
}

abbrev cleaned : Db
cleaned =
    (append_audit_event plain (cleanup_event false told) (days 31)
      (record stored { checkpoints = checkpoint 8 (days 20) ∷ [] })).1

preview_exact_example : IsAsTold (days 31) stored ((told, 1), cleaned)
unfolding cleanup append_audit_event
preview_exact_example =
    preview_exact plain (days 31) stored cleaned told 1
      (λ id. (λ e. rw (← e) refl, (λ e. refl, tt))) refl

abbrev removed : Deleted
removed = record {
  deleted_runs = 1;
  deleted_sessions = 1;
  deleted_messages = 1;
  deleted_checkpoints = 2;
  deleted_tool_events = 0;
  deleted_pending_actions = 0;
}

abbrev without_tests : Db
without_tests =
    (append_audit_event plain (cleanup_event true removed) (days 31) (record stored {
      sessions = session 1 "WEB" ∷ [];
      runs = run 7 1 ∷ [];
      messages = message 7 ∷ [];
      checkpoints = [];
    })).1

cleanup-IsKept_example : IsKept 7 (run 7 1) stored without_tests
unfolding cleanup append_audit_event
cleanup-IsKept_example =
    cleanup-IsKept plain true 7 (days 31) (run 7 1) stored without_tests (removed, 1)
      (λ e. refl, (λ e. refl, tt)) refl refl refl
