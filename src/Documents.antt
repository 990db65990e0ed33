-- ===== src/Documents.antt =====
-- persistence_docs.py: the documents and their chunks.
pub mod Consistent
pub mod Hashes
mod Examples
use ahmed_agent.Base.{
  ℕ, Bool, true, false, ◌&&◌, Option, none, some, String, List, [], ◌∷◌, ◌++◌, map, ◌==◌, str_eq,
  is_some, if◌then◌else◌,
}
use ahmed_agent.Base.Table.{select, update, delete, count}
use ahmed_agent.Files.{Text, DocumentChunk}
use ahmed_agent.Schema.{Db, DocumentRow, ChunkRow}
use ahmed_agent.Exec.{Exec, Transaction, raise, pure, transact, value_error}

abbrev pub by_hash : String → DocumentRow → Bool
by_hash file_hash d = str_eq d.file_hash file_hash

abbrev pub by_document : ℕ → DocumentRow → Bool
by_document document_id d = d.document_id == document_id

abbrev pub chunk_of : ℕ → ChunkRow → Bool
chunk_of document_id c = c.document_id == document_id

-- What `find_document_by_hash` returns of a document.
pub record Found : Type 0 where
  pub document_id : ℕ
  pub filename : Text
  pub status : String
  pub chunk_count : ℕ

abbrev pub found_of : List ChunkRow → Option DocumentRow → Option Found
found_of chunks none = none
found_of chunks (some d) = some (record {
  document_id = d.document_id;
  filename = d.filename;
  status = d.status;
  chunk_count = count (chunk_of d.document_id) chunks;
})

unfoldable pub find_document_by_hash : String → Exec (Option Found)
find_document_by_hash file_hash =
    transact λ now db. some (found_of db.chunks (select (by_hash file_hash) db.documents), db)

-- `source_id = ANY(…)`
abbrev pub is_one_of : List ℕ → Option ℕ → Bool
is_one_of ids none = false
is_one_of [] (some id) = false
is_one_of (x ∷ xs) (some id) = if id == x then true else is_one_of xs (some id)

-- `ON DELETE CASCADE`: the chunks of documents that are gone go too.
abbrev pub is_orphan : List DocumentRow → ChunkRow → Bool
is_orphan documents c =
    if is_some (select (by_document c.document_id) documents) then false else true

unfoldable pub delete_documents : List ℕ → Transaction ℕ
delete_documents ids now db =
    let documents = delete (λ (d : DocumentRow). is_one_of ids d.source_id) db.documents in
    let chunks = delete (λ (c : ChunkRow). is_one_of ids c.source_id) db.chunks in
    some (
      count (λ (d : DocumentRow). is_one_of ids d.source_id) db.documents,
      record db { documents = documents; chunks = delete (is_orphan documents) chunks },
    )

-- The ids are parsed; `none` where one of them is no UUID.
unfoldable pub delete_documents_for_source_ids : Option (List ℕ) → Exec ℕ
unfolding delete_documents
delete_documents_for_source_ids none = raise value_error
delete_documents_for_source_ids (some []) = pure 0
delete_documents_for_source_ids (some (id ∷ ids)) = transact (delete_documents (id ∷ ids))

-- The arguments of `store_document`.
pub record NewDocument : Type 0 where
  pub document_id : ℕ
  pub filename : Text
  pub mime_type : Option String
  pub file_hash : String
  pub status : String
  pub chunks : List DocumentChunk
  pub source_id : Option ℕ
  pub source_sha256 : Option String

abbrev pub new_row : NewDocument → ℕ → DocumentRow
new_row n now = record {
  document_id = n.document_id;
  filename = n.filename;
  mime_type = n.mime_type;
  file_hash = n.file_hash;
  status = n.status;
  embedding_model = none;
  embedding_dimension = none;
  embedding_version = none;
  created_at = now;
  updated_at = now;
  source_id = n.source_id;
  source_sha256 = n.source_sha256;
  original_available = is_some n.source_id;
}

abbrev pub new_chunk : NewDocument → DocumentChunk → ChunkRow
new_chunk n c = record {
  document_id = n.document_id;
  chunk = c;
  source_id = n.source_id;
  source_sha256 = n.source_sha256;
  embedding = none;
}

-- `ON CONFLICT (file_hash) DO NOTHING` where the index is there; the primary key refuses a document
-- id that is there.
unfoldable pub insert_document : NewDocument → Transaction Bool
insert_document n now db =
    if db.has_hash_index && is_some (select (by_hash n.file_hash) db.documents)
    then some (false, db)
    else if is_some (select (by_document n.document_id) db.documents)
    then none
    else some (
      true,
      record db {
        documents = new_row n now ∷ db.documents;
        chunks = db.chunks ++ map (new_chunk n) n.chunks;
      },
    )

unfoldable pub store_document : NewDocument → Exec Bool
unfolding insert_document
store_document n = transact (insert_document n)

-- The model, the dimension and the version of embeddings.
pub record Embedding : Type 0 where
  pub embedding_model : Option String
  pub embedding_dimension : Option ℕ
  pub embedding_version : Option String

abbrev pub set_embedding : String → Embedding → ℕ → DocumentRow → DocumentRow
set_embedding status e now d = record d {
  status = status;
  embedding_model = e.embedding_model;
  embedding_dimension = e.embedding_dimension;
  embedding_version = e.embedding_version;
  updated_at = now;
}

unfoldable pub update_document_embedding_status : ℕ → String → Embedding → Exec (Unit {0})
update_document_embedding_status document_id status e = transact λ now db. some (
  tt,
  record db {
    documents = update (by_document document_id) (set_embedding status e now) db.documents;
  },
)

abbrev pub has_index : ℕ → ℕ → ChunkRow → Bool
has_index document_id chunk_index c =
    c.document_id == document_id && (c.chunk.chunk_index == chunk_index)

unfoldable pub set_vectors : ℕ → List (ℕ × String) → List ChunkRow → List ChunkRow
set_vectors document_id [] chunks = chunks
set_vectors document_id ((chunk_index, vector) ∷ more) chunks =
    set_vectors document_id more (
      update (has_index document_id chunk_index) (λ c. record c { embedding = some vector }) chunks)

-- Without the column the UPDATE of the chunks cannot be prepared.
unfoldable pub store_vectors : ℕ → List (ℕ × String) → Embedding → Transaction (Unit {0})
unfolding set_vectors
store_vectors document_id vectors e now db =
    if db.vector_storage
    then some (
      tt,
      record db {
        documents = update (by_document document_id) (set_embedding "ready" e now) db.documents;
        chunks = set_vectors document_id vectors db.chunks;
      },
    )
    else none

unfoldable pub store_document_embeddings : ℕ → List (ℕ × String) → Embedding → Exec (Unit {0})
unfolding store_vectors
store_document_embeddings document_id vectors e = transact (store_vectors document_id vectors e)
