-- ===== src/Ingest.antt =====
-- my_files.py: ingest_document, from the bytes of an upload to the stored document, and the route
-- files_upload of server.py. What a document id prints to, and what the embedding model makes of
-- the chunks, are parameters.
pub mod Ends
pub mod Frame
pub mod Tell
pub mod Sound
pub mod Batch
pub mod Route
mod Examples
use ahmed_agent.Base.{
  ℕ, Bool, true, false, Option, none, some, String, List, [], ◌∷◌, map, length, ltb, ◌==◌, not,
  ◌||◌, if◌then◌else◌,
}
use ahmed_agent.Files.{Text, ExtractedPage, DocumentChunk, Origin, build_chunks}
use ahmed_agent.Files.Content.{
  Formats, Processed, accepted, refused, broken, sanitize_filename, is_empty_name,
  validate_file_content, extract_document,
}
use ahmed_agent.Schema.{Db}
use ahmed_agent.Exec.{
  Exec, World, ok, raise, pure, persistence_error, other_error, try_except, ◌>>=◌, ◌>>◌,
}
use ahmed_agent.Documents.{
  Found, find_document_by_hash, NewDocument, store_document, Embedding,
  update_document_embedding_status, store_document_embeddings,
}
use ahmed_agent.Originals.{
  NewSource, create_original_source, delete_original_source,
  update_original_source_extraction_status,
}

-- How the embedding of the chunks ends: with an `EmbeddingError`, with another error, or with a
-- literal for each vector, `none` where the vector is not valid.
pub data Embedded : Type 0 where
  embedding_error : String → Embedded
  unexpected_error : Embedded
  embedded : List (Option String) → ℕ → String → Embedded

pub record Library : Type 0 where
  pub formats : Formats
  pub sha256 : Text → String
  pub uuid_text : ℕ → String
  pub chunk_size : ℕ
  pub chunk_overlap : ℕ
  pub embed : List Text → Embedded
  pub default_model : String
  pub embedding_version : String

pub record Upload : Type 0 where
  pub document_id : ℕ
  pub filename : Text
  pub mime_type : Option String
  pub bytes : Text
  pub owner_principal_id : String
  pub source_id : ℕ  -- the `uuid4` of the call

-- The answer; of the metrics only `embedding_status`.
pub record Ingested : Type 0 where
  pub duplicate : Bool
  pub document_id : ℕ
  pub filename : Option Text
  pub status : String
  pub chunk_count : ℕ
  pub source_id : Option ℕ
  pub original_available : Bool
  pub embedding_status : Option String

module _ (l : Library) (u : Upload) where
  abbrev pub file_hash : String
  file_hash = l.sha256 u.bytes

  abbrev pub name : Text
  name = sanitize_filename u.filename

  abbrev pub not_stored : Option Text → String → Ingested
  not_stored filename status = record {
    duplicate = false;
    document_id = u.document_id;
    filename = filename;
    status = status;
    chunk_count = 0;
    source_id = none;
    original_available = false;
    embedding_status = none;
  }

  abbrev pub stored : String → ℕ → Option String → Ingested
  stored status chunk_count embedding_status = record {
    duplicate = false;
    document_id = u.document_id;
    filename = some name;
    status = status;
    chunk_count = chunk_count;
    source_id = some u.source_id;
    original_available = true;
    embedding_status = embedding_status;
  }

  abbrev pub duplicate_ingest_result : Found → Ingested
  duplicate_ingest_result existing = record {
    duplicate = true;
    document_id = existing.document_id;
    filename = some existing.filename;
    status = "duplicate";
    chunk_count = existing.chunk_count;
    source_id = none;
    original_available = true;
    embedding_status = none;
  }

  abbrev pub new_source : NewSource
  new_source = record {
    source_id = u.source_id;
    owner_principal_id = u.owner_principal_id;
    original_filename = name;
    mime_type = u.mime_type;
    bytes = u.bytes;
    authorization_scope = "MY_FILES_OWNER";
  }

  abbrev pub new_document : String → List DocumentChunk → NewDocument
  new_document status chunks = record {
    document_id = u.document_id;
    filename = name;
    mime_type = u.mime_type;
    file_hash = file_hash;
    status = status;
    chunks = chunks;
    source_id = some u.source_id;
    source_sha256 = some file_hash;
  }

  abbrev pub origin : Origin
  origin = record {
    document_id = l.uuid_text u.document_id;
    filename = name;
    mime_type = u.mime_type;
    file_hash = file_hash;
    source_type = "upload";
    source_id = some (l.uuid_text u.source_id);
  }

  -- The texts of the chunks; without fuel there would be none, but no chunk size is 0.
  abbrev pub chunks_or_none : Option (List DocumentChunk) → List DocumentChunk
  chunks_or_none none = []
  chunks_or_none (some chunks) = chunks

  abbrev pub searchable : List DocumentChunk → Processed (List DocumentChunk)
  searchable [] = refused "empty"
  searchable (c ∷ cs) = accepted (c ∷ cs)

  abbrev pub chunked : Processed (List ExtractedPage) → Processed (List DocumentChunk)
  chunked (refused status) = refused status
  chunked broken = broken
  chunked (accepted pages) =
      searchable
        (chunks_or_none (build_chunks l.formats.is_space l.chunk_size l.chunk_overlap origin pages))

  -- `store_document`, and the original is deleted where that raises.
  unfoldable pub store_or_delete : String → List DocumentChunk → Exec Bool
  store_or_delete status chunks =
      try_except (store_document (new_document status chunks))
        (delete_original_source u.source_id >> raise persistence_error)

  abbrev pub winner_result : Option Found → Exec Ingested
  winner_result none = raise persistence_error
  winner_result (some winner) = pure (duplicate_ingest_result winner)

  -- Another upload of the same bytes was stored in between.
  unfoldable pub lost_race : Exec Ingested
  lost_race = do
    delete_original_source u.source_id
    winner ← find_document_by_hash file_hash
    winner_result winner

  abbrev pub set_source_status_after_commit : String → Exec (Unit {0})
  set_source_status_after_commit status =
      try_except (update_original_source_extraction_status u.source_id status) (pure tt)

  abbrev pub no_embedding : Embedding
  no_embedding = record {
    embedding_model = some l.default_model;
    embedding_dimension = none;
    embedding_version = some l.embedding_version;
  }

  unfoldable pub embedding_failed : ℕ → String → Exec Ingested
  embedding_failed chunk_count embedding_status = do
    update_document_embedding_status u.document_id "embedding_failed" no_embedding
    update_original_source_extraction_status u.source_id "embedding_failed"
    pure (stored "embedding_failed" chunk_count (some embedding_status))

  -- The rows of the vectors, or `none` where one of them is not valid.
  abbrev pub with_row : ℕ → String → Option (List (ℕ × String)) → Option (List (ℕ × String))
  with_row i vector none = none
  with_row i vector (some rows) = some ((i, vector) ∷ rows)

  unfoldable pub embedding_rows :
      List DocumentChunk → List (Option String) → Option (List (ℕ × String))
  embedding_rows (c ∷ cs) (some vector ∷ vs) = with_row c.chunk_index vector (embedding_rows cs vs)
  embedding_rows (c ∷ cs) (none ∷ vs) = none
  embedding_rows _ _ = some []

  abbrev pub model_embedding : ℕ → String → Embedding
  model_embedding dimension model = record {
    embedding_model = some model;
    embedding_dimension = some dimension;
    embedding_version = some l.embedding_version;
  }

  abbrev pub store_rows : ℕ → Embedding → Option (List (ℕ × String)) → Exec Ingested
  store_rows chunk_count e none = embedding_failed chunk_count "ERROR"
  store_rows chunk_count e (some rows) = do
    store_document_embeddings u.document_id rows e
    update_original_source_extraction_status u.source_id "ready"
    pure (stored "ready" chunk_count none)

  unfoldable pub with_embedding : List DocumentChunk → Embedded → Exec Ingested
  unfolding embedding_failed embedding_rows
  with_embedding chunks (embedding_error status) = embedding_failed (length chunks) status
  with_embedding chunks unexpected_error = embedding_failed (length chunks) "ERROR"
  with_embedding chunks (embedded vectors dimension model) =
      if not (length vectors == length chunks) || dimension == 0
      then embedding_failed (length chunks) "ERROR"
      else store_rows (length chunks) (model_embedding dimension model)
          (embedding_rows chunks vectors)

  -- Whether the column is there was found out at the start, so this is no transaction.
  abbrev pub vector_storage_available : Exec Bool
  vector_storage_available w = (ok w.db.vector_storage, w)

  abbrev pub contents : List DocumentChunk → List Text
  contents = map (λ (c : DocumentChunk). c.content)

  abbrev pub embed_or_skip : List DocumentChunk → Bool → Exec Ingested
  embed_or_skip chunks false =
      pure (stored "VECTOR_UNAVAILABLE" (length chunks) (some "VECTOR_UNAVAILABLE"))
  embed_or_skip chunks true = with_embedding chunks (l.embed (contents chunks))

  unfoldable pub embed_stored : List DocumentChunk → Exec Ingested
  unfolding with_embedding
  embed_stored chunks = do
    set_source_status_after_commit "fts_ready"
    available ← vector_storage_available
    embed_or_skip chunks available

  unfoldable pub refuse_stored : String → Exec Ingested
  refuse_stored status = do set_source_status_after_commit status; pure (stored status 0 none)

  abbrev pub store_processed : Processed (List DocumentChunk) → Exec Ingested
  store_processed broken = raise other_error
  store_processed (refused status) = do
    inserted ← store_or_delete status []
    if inserted then refuse_stored status else lost_race
  store_processed (accepted chunks) = do
    inserted ← store_or_delete "fts_ready" chunks
    if inserted then embed_stored chunks else lost_race

  abbrev pub ingest_new : Option Found → Exec Ingested
  ingest_new (some existing) = pure (duplicate_ingest_result existing)
  ingest_new none = do
    create_original_source l.sha256 new_source
    store_processed (chunked (extract_document l.formats name u.bytes))

  abbrev pub ingest_valid : Processed (Unit {0}) → Exec Ingested
  ingest_valid broken = raise other_error
  ingest_valid (refused status) = pure (not_stored (some name) status)
  ingest_valid (accepted _) = do existing ← find_document_by_hash file_hash; ingest_new existing

  unfoldable pub ingest_document : Exec Ingested
  unfolding refuse_stored embed_stored lost_race store_or_delete
  ingest_document =
      if is_empty_name name
      then pure (not_stored none "invalid_filename")
      else ingest_valid (validate_file_content l.formats name u.bytes)
