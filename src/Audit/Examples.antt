-- ===== src/Audit/Examples.antt =====
-- The audit chain at concrete inputs. The hash here is the text itself, with the event type for the
-- canonical JSON, so that a hash is short and two payloads can collide.
use ahmed_agent.Base.{◌≡◌, refl, ◌⊎◌, none, some, String, take}
use ahmed_agent.Base.Json.{obj, end}
use ahmed_agent.Schema.{Db, empty}
use ahmed_agent.Audit.{Hashing, NewEvent, append_audit_event, verify_rows}
use ahmed_agent.Audit.Chain.{IsChained, append-IsChained}
use ahmed_agent.Audit.Tamper.{payloads, Collision, newest_hash_fixes_window}

abbrev plain : Hashing
plain = record { sha256 = λ s. s; canonical_json = λ p. p.event_type }

abbrev event : String → String → NewEvent
event event_type status = record {
  session_id = none;
  run_id = some 7;
  action_id = none;
  event_type = event_type;
  tool_name = none;
  status = status;
  safe_metadata = obj end;
}

abbrev one : Db
one = (append_audit_event plain (event "a" "x") 5 empty).1

abbrev two : Db
two = (append_audit_event plain (event "b" "x") 6 one).1

-- The same event types with another status.
abbrev changed : Db
changed = (append_audit_event plain (event "b" "y") 6 one).1

one-IsChained : IsChained plain one.audit
one-IsChained = append-IsChained plain (event "a" "x") 5 empty (tt, tt)

two-IsChained : IsChained plain two.audit
two-IsChained = append-IsChained plain (event "b" "x") 6 one one-IsChained

append-IsChained_example : IsChained plain two.audit
append-IsChained_example = append-IsChained plain (event "b" "x") 6 one one-IsChained

newest_hash_fixes_window_example :
    (payloads (take 2 two.audit) ≡ payloads (take 2 changed.audit)) ⊎ Collision plain
unfolding verify_rows append_audit_event
newest_hash_fixes_window_example =
    newest_hash_fixes_window plain 2 two.audit changed.audit refl refl refl refl
