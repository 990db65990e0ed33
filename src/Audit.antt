-- ===== src/Audit.antt =====
-- `_append_audit_event` and `verify_audit_chain` of persistence_audit.py: a log in which every
-- event carries the hash of the one before it. The advisory lock serialises the writers, so the
-- appends of concurrent transactions are modelled one after another.
-- SHA-256 and the JSON printer are not part of the repository: they are parameters.
pub mod Chain
pub mod Tamper
mod Examples
use Prim.Native.String
use ahmed_agent.Base.{
  ℕ, ◌+◌, Bool, true, false, ◌&&◌, Option, none, some, String, List, [], ◌∷◌, length, take, ◌==◌,
  str_eq, if◌then◌else◌,
}
use ahmed_agent.Base.Json.{Json, or_object}
use ahmed_agent.Schema.{Db, Payload, AuditEvent}
use ahmed_agent.Exec.{Exec, Transaction, transact}
use mathlib.Core.List.{reverse}

-- `hashlib.sha256(text.encode("utf-8")).hexdigest()` and `_canonical_json` of persistence_core.py.
pub record Hashing : Type 0 where
  pub sha256 : String → String
  pub canonical_json : Payload → String

-- `previous_hash or ""`
abbrev pub or_empty : Option String → String
or_empty none = ""
or_empty (some h) = h

-- What the append knows of an event before it reads the head of the chain.
pub record NewEvent : Type 0 where
  pub session_id : Option ℕ
  pub run_id : Option ℕ
  pub action_id : Option ℕ
  pub event_type : String
  pub tool_name : Option String
  pub status : String
  pub safe_metadata : Json

abbrev pub with_previous : NewEvent → Option String → Payload
with_previous e previous_hash = record {
  session_id = e.session_id;
  run_id = e.run_id;
  action_id = e.action_id;
  event_type = e.event_type;
  tool_name = e.tool_name;
  status = e.status;
  safe_metadata = or_object e.safe_metadata;
  previous_hash = previous_hash;
}

-- `SELECT event_hash … ORDER BY event_id DESC LIMIT 1`
abbrev pub head_hash : List AuditEvent → Option String
head_hash [] = none
head_hash (e ∷ _) = some e.event_hash

-- The dictionary that `verify_audit_chain` returns.
pub record Verdict : Type 0 where
  pub verified : Bool
  pub event_count : ℕ
  pub window_limited : Option Bool

-- `row["previous_hash"] != previous_hash`, for two nullable texts.
abbrev pub same_hash : Option String → Option String → Bool
same_hash none none = true
same_hash (some a) (some b) = str_eq a b
same_hash _ _ = false

-- The payload that the verifier hashes: the row's columns after the expected previous hash, with
-- `{}` for metadata that is empty in any way.
abbrev pub linked : Option String → Payload → Payload
linked previous_hash p = record p {
  safe_metadata = or_object p.safe_metadata;
  previous_hash = previous_hash;
}

module _ (h : Hashing) where
  unfoldable pub event_digest : Payload → String
  event_digest p = h.sha256 (String.◌++◌ (or_empty p.previous_hash) (h.canonical_json p))

  unfoldable pub append_audit_event : NewEvent → ℕ → Db → ℕ × Db
  unfolding event_digest
  append_audit_event e now db =
      let payload = with_previous e (head_hash db.audit) in
      (
        db.audit_seq,
        record db {
          audit =
              record {
                event_id = db.audit_seq;
                payload = payload;
                event_hash = event_digest payload;
                created_at = now;
              }
              ∷ db.audit;
          audit_seq = db.audit_seq + 1;
        },
      )

  -- The loop over the window, oldest event first; `false` is `AUDIT_CHAIN_MISMATCH`.
  unfoldable pub verify_from : Option String → List AuditEvent → Bool
  unfolding event_digest
  verify_from previous_hash [] = true
  verify_from previous_hash (row ∷ rows) =
      let rest = verify_from (some row.event_hash) rows in
      if same_hash row.payload.previous_hash previous_hash
        && str_eq row.event_hash (event_digest (linked previous_hash row.payload))
      then rest
      else false

  -- The anchor of the window: the first event's stored previous hash.
  unfoldable pub verify_window : List AuditEvent → Bool
  unfolding verify_from
  verify_window [] = true
  verify_window (row ∷ rows) = verify_from row.payload.previous_hash (row ∷ rows)

  -- The verdict for the newest `limit` events.
  unfoldable pub verify_rows : ℕ → List AuditEvent → Verdict
  unfolding verify_window
  verify_rows limit rows =
      if verify_window rows
      then (record {
        verified = true;
        event_count = length rows;
        window_limited = some (length rows == limit);
      })
      else (record { verified = false; event_count = length rows; window_limited = none })

  unfoldable pub verify_audit_chain : ℕ → Exec Verdict
  unfolding verify_rows
  verify_audit_chain limit =
      transact λ now db. some (verify_rows limit (reverse (take limit db.audit)), db)
