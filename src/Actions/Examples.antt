-- ===== src/Actions/Examples.antt =====
-- Pending actions at concrete inputs: an action that is created twice under one key, approved,
-- and claimed twice.
use ahmed_agent.Base.{◌+◌, ◌*◌, ◌≤◌, ◌≡◌, refl, none, some, List, [], ◌∷◌}
use ahmed_agent.Base.Json.{obj, end}
use ahmed_agent.Schema.{PendingAction, pending, empty, second}
use ahmed_agent.Exec.{World}
use ahmed_agent.Audit.{Hashing, append_audit_event}
use ahmed_agent.Actions.{
  create_pending_action, approve_pending_action, claim_pending_action_execution,
  reject_pending_action,
}
use ahmed_agent.Actions.Calls.{ActionCall, create, approve, claim, after}
use ahmed_agent.Actions.Once.{handed_out, executed_at_most_once}
use ahmed_agent.Actions.Create.{keyed_create_idempotent}

abbrev plain : Hashing
plain = record { sha256 = λ s. s; canonical_json = λ p. p.event_type }

abbrev start : World
start = record { db = empty; clock = 10; outcomes = [] }

abbrev creation : ActionCall
creation = create 1 2 3 "owner" "test_sensitive_action" "HIGH_RISK" (obj end) (some "k")

abbrev calls : List ActionCall
calls = creation ∷ creation ∷ approve 1 "owner" ∷ claim 1 "owner" ∷ claim 1 "owner" ∷ []

handed_out_once : handed_out plain 1 calls start ≡ 1
unfolding handed_out after create_pending_action approve_pending_action
    claim_pending_action_execution append_audit_event
handed_out_once = refl

executed_at_most_once_example : handed_out plain 1 calls start ≤ 1
executed_at_most_once_example = executed_at_most_once plain 1 calls start

abbrev created : World
created = (create_pending_action plain 1 2 3 "owner" "t" "HIGH_RISK" (obj end) (some "k") start).1

abbrev row : PendingAction
row = record {
  action_id = 1;
  session_id = 2;
  run_id = 3;
  user_id = "owner";
  tool_name = "t";
  risk_level = "HIGH_RISK";
  arguments_json = obj end;
  status = pending;
  created_at = 10;
  expires_at = 10 + 900 * second;
  approved_at = none;
  rejected_at = none;
  executed_at = none;
  idempotency_key = some "k";
}

abbrev turned_down : World
turned_down = (reject_pending_action plain 1 "owner" created).1

keyed_create_idempotent_example :
    (row ≡ row)
    × ((create_pending_action plain 9 2 3 "owner" "t" "LOW"
          (obj end)
          (some "k")
          created).1.db.actions
        ≡ created.db.actions)
unfolding create_pending_action append_audit_event
keyed_create_idempotent_example =
    keyed_create_idempotent plain 1 2 3 "owner" "t" "HIGH_RISK" (obj end) (some "k") refl start
      created row row 9 2 "owner" "t" "LOW" (obj end) refl refl refl
