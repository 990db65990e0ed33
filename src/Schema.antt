-- ===== src/Schema.antt =====
-- persistence_core.py: the tables, a record for a row and a list for a table. A UUID is only
-- compared, so it is a number; a timestamp is in microseconds; a text column with the few values
-- that the code writes is an enumeration with `other` for any other text.
use ahmed_agent.Base.{ℕ, Bool, false, Option, String, List, []}
use ahmed_agent.Base.Json.{Json}
use ahmed_agent.Files.{Text, DocumentChunk}

abbrev pub second : ℕ
second = 1000000

pub record Session : Type 0 where
  pub session_id : ℕ
  pub scope : String
  pub status : String
  pub created_at : ℕ
  pub updated_at : ℕ

pub data RunStatus : Type 0 where
  running succeeded failed : RunStatus
  other : String → RunStatus

pub data RecoveryStatus : Type 0 where
  active orphaned resolved : RecoveryStatus

pub record Run : Type 0 where
  pub run_id : ℕ
  pub session_id : ℕ
  pub status : RunStatus
  pub user_prompt : String
  pub provider_name : String
  pub model_name : String
  pub error_code : Option String
  pub created_at : ℕ
  pub finished_at : Option ℕ
  pub stage : String
  pub worker_id : Option String
  pub lease_expires_at : Option ℕ
  pub lease_version : ℕ
  pub attempt_count : ℕ
  pub last_checkpoint_at : Option ℕ
  pub recovery_status : RecoveryStatus

pub record Message : Type 0 where
  pub session_id : ℕ
  pub run_id : ℕ
  pub sequence_number : ℕ
  pub message_json : Json
  pub created_at : ℕ

pub record Checkpoint : Type 0 where
  pub checkpoint_id : ℕ
  pub session_id : ℕ
  pub run_id : ℕ
  pub stage : String
  pub state_json : Json
  pub created_at : ℕ

pub record ToolEvent : Type 0 where
  pub run_id : ℕ
  pub tool_name : String
  pub status : String
  pub duration_ms : Option ℕ
  pub safe_metadata : Json
  pub created_at : ℕ

pub data ActionStatus : Type 0 where
  pending approved rejected expired executing executed : ActionStatus

pub record PendingAction : Type 0 where
  pub action_id : ℕ
  pub session_id : ℕ
  pub run_id : ℕ
  pub user_id : String
  pub tool_name : String
  pub risk_level : String
  pub arguments_json : Json
  pub status : ActionStatus
  pub created_at : ℕ
  pub expires_at : ℕ
  pub approved_at : Option ℕ
  pub rejected_at : Option ℕ
  pub executed_at : Option ℕ
  pub idempotency_key : Option String

-- What the hash of an audit event covers: `payload` of `_append_audit_event`.
pub record Payload : Type 0 where
  pub session_id : Option ℕ
  pub run_id : Option ℕ
  pub action_id : Option ℕ
  pub event_type : String
  pub tool_name : Option String
  pub status : String
  pub safe_metadata : Json
  pub previous_hash : Option String

pub record AuditEvent : Type 0 where
  pub event_id : ℕ
  pub payload : Payload
  pub event_hash : String
  pub created_at : ℕ

pub data Severity : Type 0 where
  healthy warning critical : Severity

-- `status` of runtime_alerts; `recovered` is read and never written.
pub data AlertStatus : Type 0 where
  at : Severity → AlertStatus
  recovered : AlertStatus

-- A value of a metric: the exact quotient of two counts, where the source has the float nearest to
-- it.
pub record Quotient : Type 0 where
  pub part : ℕ
  pub whole : ℕ

pub record Alert : Type 0 where
  pub rule : String
  pub status : AlertStatus
  pub severity : Severity
  pub last_triggered_at : Option ℕ
  pub recovered_at : Option ℕ
  pub suppressed_count : ℕ
  pub last_evidence : Json
  pub last_value : Quotient
  pub sample_size : ℕ
  pub evaluated_at : ℕ

-- A row of documents.
pub record DocumentRow : Type 0 where
  pub document_id : ℕ
  pub filename : Text
  pub mime_type : Option String
  pub file_hash : String
  pub status : String
  pub embedding_model : Option String
  pub embedding_dimension : Option ℕ
  pub embedding_version : Option String
  pub created_at : ℕ
  pub updated_at : ℕ
  pub source_id : Option ℕ
  pub source_sha256 : Option String
  pub original_available : Bool

-- A row of document_chunks: the columns that come from the chunk stand in it.
pub record ChunkRow : Type 0 where
  pub document_id : ℕ
  pub chunk : DocumentChunk
  pub source_id : Option ℕ
  pub source_sha256 : Option String
  pub embedding : Option String

-- A row of original_source_blobs: the bytes, under a key that follows from them.
pub record Blob : Type 0 where
  pub storage_object_key : String
  pub sha256 : String
  pub byte_size : ℕ
  pub content : Text

-- A row of original_sources.
pub record Source : Type 0 where
  pub source_id : ℕ
  pub owner_principal_id : String
  pub source_version : ℕ
  pub original_filename : Text
  pub mime_type : Option String
  pub byte_size : ℕ
  pub sha256 : String
  pub storage_backend : String
  pub storage_object_key : String
  pub created_at : ℕ
  pub original_available : Bool
  pub authorization_scope : String
  pub extraction_status : String

-- The audit events stand newest first, as `ORDER BY event_id DESC` reads them; so do the messages
-- and the checkpoints. `audit_seq` and `checkpoint_seq` are the next values of the two sequences.
pub record Db : Type 0 where
  pub sessions : List Session
  pub runs : List Run
  pub messages : List Message
  pub checkpoints : List Checkpoint
  pub checkpoint_seq : ℕ
  pub tool_events : List ToolEvent
  pub actions : List PendingAction
  pub alerts : List Alert
  pub audit : List AuditEvent
  pub audit_seq : ℕ
  pub documents : List DocumentRow
  pub chunks : List ChunkRow
  pub sources : List Source
  pub blobs : List Blob
  pub has_hash_index : Bool  -- documents_file_hash_key
  pub vector_storage : Bool  -- the column document_chunks.embedding

abbrev pub empty : Db
empty = record {
  sessions = [];
  runs = [];
  messages = [];
  checkpoints = [];
  checkpoint_seq = 1;
  tool_events = [];
  actions = [];
  alerts = [];
  audit = [];
  audit_seq = 1;
  documents = [];
  chunks = [];
  sources = [];
  blobs = [];
  has_hash_index = false;
  vector_storage = false;
}
