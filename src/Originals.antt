-- ===== src/Originals.antt =====
-- persistence_docs.py: the original sources. The bytes of an original are stored once under a key
-- that follows from their hash, however many sources have them. Bytes are numbers; SHA-256 is a
-- parameter.
pub mod View
pub mod Sound
pub mod Keep
pub mod Durable
pub mod Refine
mod Examples
use Prim.Native.String
use ahmed_agent.Base.{
  ℕ, Bool, true, false, Option, none, some, String, List, [], ◌∷◌, length, ◌==◌, str_eq, is_some,
  ltb, if◌then◌else◌,
}
use ahmed_agent.Base.Table.{select, update, delete}
use ahmed_agent.Files.{Text}
use ahmed_agent.Schema.{Db, Blob, Source}
use ahmed_agent.Exec.{Exec, Transaction, raise, pure, transact, value_error, ◌>>=◌}

abbrev pub by_source : ℕ → Source → Bool
by_source source_id s = s.source_id == source_id

abbrev pub by_key : String → Blob → Bool
by_key key b = str_eq b.storage_object_key key

-- A source whose original is stored under the key.
abbrev pub refers_to : String → Source → Bool
refers_to key s = str_eq s.storage_object_key key

abbrev pub is_empty_text : String → Bool
is_empty_text s = str_eq s ""

-- The arguments of `create_original_source`.
pub record NewSource : Type 0 where
  pub source_id : ℕ
  pub owner_principal_id : String
  pub original_filename : Text
  pub mime_type : Option String
  pub bytes : Text
  pub authorization_scope : String

abbrev pub is_no_bytes : Text → Bool
is_no_bytes [] = true
is_no_bytes (b ∷ bs) = false

module _ (sha256 : Text → String) where
  abbrev pub storage_object_key : Text → String
  storage_object_key bytes = String.◌++◌ "original-source/" (sha256 bytes)

  abbrev pub new_blob : Text → Blob
  new_blob bytes = record {
    storage_object_key = storage_object_key bytes;
    sha256 = sha256 bytes;
    byte_size = length bytes;
    content = bytes;
  }

  abbrev pub new_source : NewSource → ℕ → Source
  new_source n now = record {
    source_id = n.source_id;
    owner_principal_id = n.owner_principal_id;
    source_version = 1;
    original_filename = n.original_filename;
    mime_type = n.mime_type;
    byte_size = length n.bytes;
    sha256 = sha256 n.bytes;
    storage_backend = "postgres_bytea";
    storage_object_key = storage_object_key n.bytes;
    created_at = now;
    original_available = true;
    authorization_scope = n.authorization_scope;
    extraction_status = "pending";
  }

  -- `ON CONFLICT (storage_object_key) DO NOTHING`
  unfoldable pub insert_blob : Text → List Blob → List Blob
  insert_blob bytes blobs =
      if is_some (select (by_key (storage_object_key bytes)) blobs)
      then blobs
      else new_blob bytes ∷ blobs

  -- The two INSERTs; the primary key refuses a source id that is there.
  unfoldable pub insert_source : NewSource → Transaction Source
  unfolding insert_blob
  insert_source n now db =
      if is_some (select (by_source n.source_id) db.sources)
      then none
      else some (
        new_source n now,
        record db { blobs = insert_blob n.bytes db.blobs; sources = new_source n now ∷ db.sources },
      )

  unfoldable pub create_original_source : NewSource → Exec Source
  unfolding insert_source
  create_original_source n =
      if is_empty_text n.owner_principal_id
      then raise value_error
      else if is_no_bytes n.bytes
      then raise value_error
      else transact (insert_source n)

-- What `read_authorized_original_source` returns; the columns of the source stand in the row.
pub data Reading : Type 0 where
  not_found : Reading
  denied : Reading
  not_available : Source → Reading
  authorized : Source → Option Blob → Reading

abbrev pub read_blob : Source → Exec Reading
read_blob s =
    transact λ now db. some (authorized s (select (by_key s.storage_object_key) db.blobs), db)

-- `not owner_principal_id or row["owner_principal_id"] != owner_principal_id`
abbrev pub owns : Option String → Source → Bool
owns none s = false
owns (some principal) s =
    if is_empty_text principal then false else str_eq s.owner_principal_id principal

abbrev pub read_row : Option String → Option Source → Exec Reading
read_row owner none = pure not_found
read_row owner (some s) =
    if owns owner s
    then if s.original_available then read_blob s else pure (not_available s)
    else pure denied

unfoldable pub read_authorized_original_source : ℕ → Option String → Exec Reading
read_authorized_original_source source_id owner = do
  row ← transact λ now db. some (select (by_source source_id) db.sources, db)
  read_row owner row

unfoldable pub update_original_source_extraction_status : ℕ → String → Exec (Unit {0})
update_original_source_extraction_status source_id status =
    if is_empty_text status
    then raise value_error
    else if ltb 64 (String.count status)
    then raise value_error
    else transact λ now db. some (
      tt,
      record db {
        sources =
            update (by_source source_id) (λ s. record s { extraction_status = status }) db.sources;
      },
    )

-- The DELETE of the blob of a source that is gone, `NOT EXISTS` another source of it.
unfoldable pub delete_blob : Option Source → Db → Db
delete_blob none db = db
delete_blob (some s) db =
    if is_some (select (refers_to s.storage_object_key) db.sources)
    then db
    else record db { blobs = delete (by_key s.storage_object_key) db.blobs }

unfoldable pub delete_source : ℕ → Db → Db
unfolding delete_blob
delete_source source_id db =
    delete_blob (select (by_source source_id) db.sources)
      (record db { sources = delete (by_source source_id) db.sources })

unfoldable pub delete_original_source : ℕ → Exec (Unit {0})
unfolding delete_source
delete_original_source source_id = transact λ now db. some (tt, delete_source source_id db)
