-- ===== src/Approvals/Examples.antt =====
-- The two routes at action 1 of "owner", which waits for approval.
use ahmed_agent.Base.{
  Bool, Option, ℕ, str_eq, ◌+◌, ◌*◌, ◌≡◌, refl, true, none, some, String, [], ◌∷◌,
}
use ahmed_agent.Base.Json.{obj, end}
use ahmed_agent.Schema.{PendingAction, pending, executed, empty, second}
use ahmed_agent.Exec.{World, ok}
use ahmed_agent.Audit.{Hashing, append_audit_event}
use ahmed_agent.Actions.{
  action, approve_pending_action, claim_pending_action_execution, complete_pending_action,
}
use ahmed_agent.Approvals.{
  Routed, unsupported, approved_action, approve_route, reject_route, approve_action, reject_action,
}
use ahmed_agent.Approvals.Tell.{Tells, routes_Tell}
use ahmed_agent.Approvals.Refuse.{IsRefused, foreign_action_untouched}
use ahmed_agent.Auth.{Request, Store}
use ahmed_agent.Auth.Frame.{OnlyAudits}

abbrev plain : Hashing
plain = record { sha256 = λ s. s; canonical_json = λ p. p.event_type }

abbrev row : String → PendingAction
row tool_name = record {
  action_id = 1;
  session_id = 2;
  run_id = 3;
  user_id = "owner";
  tool_name = tool_name;
  risk_level = "HIGH_RISK";
  arguments_json = obj end;
  status = pending;
  created_at = 10;
  expires_at = 10 + 900 * second;
  approved_at = none;
  rejected_at = none;
  executed_at = none;
  idempotency_key = some "k";
}

abbrev waiting : String → World
waiting tool_name = record {
  db = record empty { actions = row tool_name ∷ [] };
  clock = 20;
  outcomes = [];
}

approves :
    (approve_action plain "owner" (some 1) (waiting "test_sensitive_action")).0
    ≡ ok (approved_action (action executed) true true)
unfolding approve_action approve_pending_action claim_pending_action_execution
    complete_pending_action append_audit_event
approves = refl

unsupported_tool : (approve_action plain "owner" (some 1) (waiting "send_mail")).0 ≡ ok unsupported
unfolding approve_action approve_pending_action claim_pending_action_execution
    complete_pending_action append_audit_event
unsupported_tool = refl

routes_Tell_example :
    ((a : Routed) × ((approve_action plain "owner" (some 1) (waiting "send_mail")).0 ≡ ok a)
      × Tells 1 "owner" a (approve_action plain "owner" (some 1) (waiting "send_mail")).1.db)
    × ((a : Routed) × ((reject_action plain "owner" (some 1) (waiting "send_mail")).0 ≡ ok a)
        × Tells 1 "owner" a (reject_action plain "owner" (some 1) (waiting "send_mail")).1.db)
routes_Tell_example = routes_Tell 1 "owner" plain (waiting "send_mail")

-- An action of "guest", and the owner's request with the right token.
abbrev foreign : World
foreign = record {
  db = record empty { actions = record (row "t") { user_id = "guest" } ∷ [] };
  clock = 20;
  outcomes = [];
}

abbrev compare : String → String → Option Bool
compare a b = some (str_eq a b)

abbrev request : Request
request = record {
  host = none;
  scheme = "bearer";
  separator = true;
  token = "secret";
  checked = 5;
  measured = 5;
  recorded = 5;
}

abbrev nobody : Store
nobody key = none

abbrev id_text : ℕ → String
id_text id = "id"

foreign_action_untouched_example :
    (IsRefused (approve_route plain compare "secret" id_text (some 1) request (nobody, foreign)).0
      × OnlyAudits foreign.db
          (approve_route plain compare "secret" id_text (some 1) request (nobody, foreign)).1.1.db)
    × (IsRefused (reject_route plain compare "secret" id_text (some 1) request (nobody, foreign)).0
        × OnlyAudits foreign.db
            (reject_route plain compare "secret" id_text (some 1) request (nobody, foreign)).1.1.db)
foreign_action_untouched_example =
    foreign_action_untouched plain compare "secret" id_text 1 request nobody foreign
      (record (row "t") { user_id = "guest" }) refl refl
