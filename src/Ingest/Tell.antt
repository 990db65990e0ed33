-- ===== src/Ingest/Tell.antt =====
-- What the answer of an upload tells of the documents and the originals.
use mathlib.Core.Option.{some-injective}
use ahmed_agent.Base.{
  ℕ, ◌≡◌, ◌≢◌, ◌⊎◌, inl, inr, refl, sym, ap, Bool, true, false, Option, none, some, String, List,
  [], ◌∷◌, ◌==◌, not, ◌||◌, length, if◌then◌else◌,
}
use ahmed_agent.Base.Table.{select}
use ahmed_agent.Files.{DocumentChunk, ExtractedPage}
use ahmed_agent.Files.Content.{
  Processed, accepted, refused, broken, is_empty_name, validate_file_content, extract_document,
}
use ahmed_agent.Schema.{Db, DocumentRow, ChunkRow}
use ahmed_agent.Exec.{Error, Exec, World, ok, err, persistence_error, other_error}
use ahmed_agent.Exec.Ensures.{
  Raised, Ensures-pure, Ensures-raise, Ensures-bind, Ensures-transact, Ensures-weaken,
}
use ahmed_agent.Documents.{by_hash, Found, found_of, find_document_by_hash, Embedding}
use ahmed_agent.Originals.{
  create_original_source, delete_original_source, insert_source, is_empty_text, is_no_bytes,
}
use ahmed_agent.Originals.View.{IsSound}
use ahmed_agent.Originals.Durable.{inserted-Created}
use ahmed_agent.Ingest.{
  Library, Upload, Ingested, Embedded, embedding_error, unexpected_error, embedded, file_hash, name,
  duplicate_ingest_result, new_source, winner_result, lost_race, set_source_status_after_commit,
  no_embedding, model_embedding, embedding_failed, embedding_rows, store_rows, with_embedding,
  embed_or_skip, embed_stored, refuse_stored, store_processed, ingest_new, ingest_valid,
  ingest_document, vector_storage_available, chunked, searchable,
}
use ahmed_agent.Ingest.Frame.{
  Crashes, HasOriginal, IsThere, set_status-IsThere, set_embedding-IsThere, store_vectors-IsThere,
  Inserted, store_or_delete-Inserted,
}
use ahmed_agent.Ingest.Ends.{Ends, Ends-statements, Ends-if, Ends-try}

module _ (l : Library) (u : Upload) where
  -- The answer is of the upload's own document, which is stored with its original. The status in the
  -- answer is the one of the document, or tells that there are no vectors.
  abbrev pub TellsStored : Ingested → Db → Type 0
  TellsStored a db =
      (a.duplicate ≡ false)
      × (a.document_id ≡ u.document_id)
      × (a.source_id ≡ some u.source_id)
      × (IsThere l u a.status db ⊎ ((a.status ≡ "VECTOR_UNAVAILABLE") × IsThere l u "fts_ready" db))

  -- The answer is of a document with the same bytes that is stored.
  abbrev pub TellsDuplicate : Ingested → Db → Type 0
  TellsDuplicate a db =
      (a.duplicate ≡ true)
      × ((d : DocumentRow) × (select (by_hash (file_hash l u)) db.documents ≡ some d)
          × (d.document_id ≡ a.document_id))

  -- The answer is a refusal, and nothing was written.
  abbrev pub TellsRefused : Db → Ingested → Db → Type 0
  TellsRefused before a db = (a.duplicate ≡ false) × (a.original_available ≡ false) × (db ≡ before)

  abbrev pub Tells : Db → Ingested → Db → Type 0
  Tells before a db = TellsStored a db ⊎ TellsDuplicate a db ⊎ TellsRefused before a db

  -- What a lookup by the hash has found.
  abbrev Looked : Db → Option Found → Db → Type 0
  Looked before o db =
      (db ≡ before) × (o ≡ found_of db.chunks (select (by_hash (file_hash l u)) db.documents))

  find-Looked :
      (before : Db)
      → Ends
          (Crashes l u)
          (λ db. db ≡ before)
          (find_document_by_hash (file_hash l u))
          (Looked before)
  unfolding find_document_by_hash
  find-Looked before =
      Ends-statements (Crashes l u) (λ db. db ≡ before) (Looked before) _ (λ now db p. (p, refl))

  duplicate_of :
      (o : Option DocumentRow) (chunks : List ChunkRow) (f : Found)
      → some f ≡ found_of chunks o
      → (d : DocumentRow) × (o ≡ some d) × (d.document_id ≡ f.document_id)
  duplicate_of none chunks f e = absurd (cc e)
  duplicate_of (some d) chunks f e =
      (d, refl, sym (ap (λ (x : Found). x.document_id) (some-injective _ _ e)))

  hash_hit-TellsDuplicate :
      (before : Db) (f : Found) (db : Db)
      → Looked before (some f) db
      → TellsDuplicate (duplicate_ingest_result l u f) db
  hash_hit-TellsDuplicate before f db p = (refl, duplicate_of _ db.chunks f p.1)

  winner-Tells :
      (before now_before : Db) (o : Option Found)
      → Ends (Crashes l u) (Looked now_before o) (winner_result l u o) (Tells before)
  winner-Tells before now_before none =
      Ensures-raise (Raised (Crashes l u)) _ (Tells before) (λ db. Unit) persistence_error tt
        (λ db p. tt)
  winner-Tells before now_before (some f) =
      Ensures-pure (Raised (Crashes l u)) _ (Tells before) (λ db. Unit)
        (duplicate_ingest_result l u f)
        (λ db p. inr (inl (hash_hit-TellsDuplicate now_before f db p)))

  lost_race-Tells : (before : Db) → Ends (Crashes l u) (λ db. Unit) (lost_race l u) (Tells before)
  unfolding lost_race delete_original_source
  lost_race-Tells before =
      Ensures-bind (Raised (Crashes l u)) (λ db. Unit) (λ r db. Unit) (Tells before) (λ db. Unit) _
        _ (Ends-statements (Crashes l u) (λ db. Unit) (λ r db. Unit) _ (λ now db p. tt))
        (λ r. record {
          ends = λ w p.
              (Ensures-bind (Raised (Crashes l u)) (λ db. db ≡ w.db) (Looked w.db) (Tells before)
                  (λ db. Unit) _ _ (find-Looked w.db) (winner-Tells before w.db)).ends
                w refl;
        })

  module _ (before : Db) where
    embedding_failed-Tells :
        (status text : String) (n : ℕ)
        → Ends (Crashes l u) (IsThere l u status) (embedding_failed l u n text) (Tells before)
    unfolding embedding_failed
    embedding_failed-Tells status text n =
        Ensures-bind (Raised (Crashes l u)) (IsThere l u status)
          (λ r. IsThere l u "embedding_failed") (Tells before) (λ db. Unit) _ _
          (set_embedding-IsThere l u status "embedding_failed" (no_embedding l u))
          (λ r.
            Ensures-bind (Raised (Crashes l u)) (IsThere l u "embedding_failed")
              (λ r. IsThere l u "embedding_failed") (Tells before) (λ db. Unit) _ _
              (set_status-IsThere l u "embedding_failed" (λ db. Unit) (λ db p. tt)
                "embedding_failed")
              (λ r.
                Ensures-pure (Raised (Crashes l u)) _ (Tells before) (λ db. Unit) _
                  (λ db p. inl (refl, refl, refl, inl p))))

    store_rows-Tells :
        (status : String) (n : ℕ) (e : Embedding) (rows : Option (List (ℕ × String)))
        → Ends (Crashes l u) (IsThere l u status) (store_rows l u n e rows) (Tells before)
    store_rows-Tells status n e none = embedding_failed-Tells status "ERROR" n
    store_rows-Tells status n e (some rows) =
        Ensures-bind (Raised (Crashes l u)) (IsThere l u status) (λ r. IsThere l u "ready")
          (Tells before) (λ db. Unit) _ _ (store_vectors-IsThere l u status rows e)
          (λ r.
            Ensures-bind (Raised (Crashes l u)) (IsThere l u "ready") (λ r. IsThere l u "ready")
              (Tells before) (λ db. Unit) _ _
              (set_status-IsThere l u "ready" (λ db. Unit) (λ db p. tt) "ready")
              (λ r.
                Ensures-pure (Raised (Crashes l u)) _ (Tells before) (λ db. Unit) _
                  (λ db p. inl (refl, refl, refl, inl p))))

    with_embedding-Tells :
        (status : String) (chunks : List DocumentChunk) (e : Embedded)
        → Ends (Crashes l u) (IsThere l u status) (with_embedding l u chunks e) (Tells before)
    unfolding with_embedding
    with_embedding-Tells status chunks (embedding_error text) =
        embedding_failed-Tells status text (length chunks)
    with_embedding-Tells status chunks unexpected_error =
        embedding_failed-Tells status "ERROR" (length chunks)
    with_embedding-Tells status chunks (embedded vectors dimension model) =
        Ends-if (Crashes l u) (IsThere l u status) (Tells before)
          (not (length vectors == length chunks) || dimension == 0) _ _
          (λ e. embedding_failed-Tells status "ERROR" (length chunks))
          (λ e.
            store_rows-Tells status (length chunks) (model_embedding l u dimension model)
              (embedding_rows l u chunks vectors))

    after_commit-IsThere :
        (status text : String)
        → Ends
            (Crashes l u)
            (IsThere l u status)
            (set_source_status_after_commit l u text)
            (λ r. IsThere l u status)
    after_commit-IsThere status text =
        Ends-try (Crashes l u) (IsThere l u status) (λ r. IsThere l u status) (IsThere l u status) _
          _ (set_status-IsThere l u status (IsThere l u status) (λ db p. p) text)
          (Ensures-pure (Raised (Crashes l u)) _ (λ r. IsThere l u status) (λ db. Unit) tt
            (λ db p. p))

    embed_or_skip-Tells :
        (chunks : List DocumentChunk) (available : Bool)
        → Ends
            (Crashes l u)
            (IsThere l u "fts_ready")
            (embed_or_skip l u chunks available)
            (Tells before)
    embed_or_skip-Tells chunks false =
        Ensures-pure (Raised (Crashes l u)) _ (Tells before) (λ db. Unit) _
          (λ db p. inl (refl, refl, refl, inr (refl, p)))
    embed_or_skip-Tells chunks true = with_embedding-Tells "fts_ready" chunks _

    embed_stored-Tells :
        (chunks : List DocumentChunk)
        → Ends (Crashes l u) (IsThere l u "fts_ready") (embed_stored l u chunks) (Tells before)
    unfolding embed_stored
    embed_stored-Tells chunks =
        Ensures-bind (Raised (Crashes l u)) (IsThere l u "fts_ready") (λ r. IsThere l u "fts_ready")
          (Tells before) (λ db. Unit) _ _ (after_commit-IsThere "fts_ready" "fts_ready")
          (λ r.
            Ensures-bind (Raised (Crashes l u)) (IsThere l u "fts_ready")
              (λ b. IsThere l u "fts_ready") (Tells before) (λ db. Unit)
              (vector_storage_available l u) (embed_or_skip l u chunks)
              (record { ends = λ w p. inl (w.db.vector_storage, refl, p) })
              (embed_or_skip-Tells chunks))

    refuse_stored-Tells :
        (status : String)
        → Ends (Crashes l u) (IsThere l u status) (refuse_stored l u status) (Tells before)
    unfolding refuse_stored
    refuse_stored-Tells status =
        Ensures-bind (Raised (Crashes l u)) (IsThere l u status) (λ r. IsThere l u status)
          (Tells before) (λ db. Unit) _ _ (after_commit-IsThere status status)
          (λ r.
            Ensures-pure (Raised (Crashes l u)) _ (Tells before) (λ db. Unit) _
              (λ db p. inl (refl, refl, refl, inl p)))

    -- What follows on the INSERT of the document.
    go_on-Tells :
        (status : String) (m : Exec Ingested) (inserted : Bool)
        → Ends (Crashes l u) (IsThere l u status) m (Tells before)
        → Ends
            (Crashes l u)
            (Inserted l u status inserted)
            (if inserted then m else lost_race l u)
            (Tells before)
    go_on-Tells status m true h = h
    go_on-Tells status m false h = lost_race-Tells before

    store_processed-Tells :
        (p : Processed (List DocumentChunk))
        → (p ≡ broken → Crashes l u)
        → Ends (Crashes l u) (HasOriginal l u) (store_processed l u p) (Tells before)
    store_processed-Tells broken crashes =
        Ensures-raise (Raised (Crashes l u)) (HasOriginal l u) (Tells before) (λ db. Unit)
          other_error (crashes refl) (λ db p. tt)
    store_processed-Tells (refused status) crashes =
        Ensures-bind (Raised (Crashes l u)) (HasOriginal l u) (Inserted l u status) (Tells before)
          (λ db. Unit) _ _ (store_or_delete-Inserted l u status [])
          (λ inserted. go_on-Tells status _ inserted (refuse_stored-Tells status))
    store_processed-Tells (accepted chunks) crashes =
        Ensures-bind (Raised (Crashes l u)) (HasOriginal l u) (Inserted l u "fts_ready")
          (Tells before) (λ db. Unit) _ _ (store_or_delete-Inserted l u "fts_ready" chunks)
          (λ inserted. go_on-Tells "fts_ready" _ inserted (embed_stored-Tells chunks))

    searchable_whole : (chunks : List DocumentChunk) → searchable l u chunks ≢ broken
    searchable_whole [] e = cc e
    searchable_whole (c ∷ cs) e = cc e

    -- The chunking itself raises nothing.
    chunked-broken : (p : Processed (List ExtractedPage)) → chunked l u p ≡ broken → p ≡ broken
    chunked-broken (refused status) e = absurd (cc e)
    chunked-broken broken e = refl
    chunked-broken (accepted pages) e = absurd (searchable_whole _ e)

    created-HasOriginal :
        IsSound l.sha256 before
        → Ends
            (Crashes l u)
            (λ db. db ≡ before)
            (create_original_source l.sha256 (new_source l u))
            (λ s. HasOriginal l u)
    unfolding create_original_source
    created-HasOriginal sound =
        Ends-if (Crashes l u) (λ db. db ≡ before) (λ s. HasOriginal l u)
          (is_empty_text u.owner_principal_id) _ _
          (λ e.
            Ensures-raise (Raised (Crashes l u)) _ (λ s. HasOriginal l u) (λ db. Unit) _ tt
              (λ db p. tt))
          (λ named.
            Ends-if (Crashes l u) (λ db. db ≡ before) (λ s. HasOriginal l u) (is_no_bytes u.bytes) _
              _
              (λ e.
                Ensures-raise (Raised (Crashes l u)) _ (λ s. HasOriginal l u) (λ db. Unit) _ tt
                  (λ db p. tt))
              (λ e.
                Ensures-transact (Raised (Crashes l u)) (λ db. db ≡ before) (λ s. HasOriginal l u)
                  (λ db. Unit) (insert_source l.sha256 (new_source l u)) tt (λ db p. tt)
                  (λ now db s db' p ran.
                    (inserted-Created l.sha256 (new_source l u) now db s db' named (rw p sound)
                      ran).1)))

    ingest_new-Tells :
        IsSound l.sha256 before
        → (o : Option Found)
        → Ends (Crashes l u) (Looked before o) (ingest_new l u o) (Tells before)
    ingest_new-Tells sound (some f) =
        Ensures-pure (Raised (Crashes l u)) _ (Tells before) (λ db. Unit)
          (duplicate_ingest_result l u f)
          (λ db p. inr (inl (hash_hit-TellsDuplicate before f db p)))
    ingest_new-Tells sound none =
        Ensures-bind (Raised (Crashes l u)) (Looked before none) (λ s. HasOriginal l u)
          (Tells before) (λ db. Unit) _ _
          (Ensures-weaken (Raised (Crashes l u)) (λ db. db ≡ before) (λ s. HasOriginal l u)
            (λ db. Unit) (Looked before none) _ (λ db p. p.0) (created-HasOriginal sound))
          (λ s.
            store_processed-Tells (chunked l u (extract_document l.formats (name l u) u.bytes))
              (λ e. inr (chunked-broken _ e)))

    ingest_valid-Tells :
        IsSound l.sha256 before
        → (p : Processed (Unit {0})) → (p ≡ broken → Crashes l u)
        → Ends (Crashes l u) (λ db. db ≡ before) (ingest_valid l u p) (Tells before)
    ingest_valid-Tells sound broken crashes =
        Ensures-raise (Raised (Crashes l u)) _ (Tells before) (λ db. Unit) other_error
          (crashes refl) (λ db p. tt)
    ingest_valid-Tells sound (refused status) crashes =
        Ensures-pure (Raised (Crashes l u)) _ (Tells before) (λ db. Unit) _
          (λ db p. inr (inr (refl, refl, p)))
    ingest_valid-Tells sound (accepted _) crashes =
        Ensures-bind (Raised (Crashes l u)) (λ db. db ≡ before) (Looked before) (Tells before)
          (λ db. Unit) _ _ (find-Looked before) (ingest_new-Tells sound)

    ingest_document-Tells :
        IsSound l.sha256 before
        → Ends (Crashes l u) (λ db. db ≡ before) (ingest_document l u) (Tells before)
    unfolding ingest_document
    ingest_document-Tells sound =
        Ends-if (Crashes l u) (λ db. db ≡ before) (Tells before) (is_empty_name (name l u)) _ _
          (λ e.
            Ensures-pure (Raised (Crashes l u)) _ (Tells before) (λ db. Unit) _
              (λ db p. inr (inr (refl, refl, p))))
          (λ e.
            ingest_valid-Tells sound (validate_file_content l.formats (name l u) u.bytes)
              (λ e'. inl e'))

-- An upload is answered, or raises `PersistenceError`, `ValueError` or, where a parser of the file
-- raises what is not caught, that exception; and whatever failed on the way, the answer tells what is
-- stored. An answer with a source is of the upload's document: it is
-- stored with the hash of the bytes and in the status of the answer, except that a document without
-- vectors stands as `fts_ready`; and its original is stored with the owner and the bytes, or two
-- different contents have the same key. A duplicate is answered with a stored document that has the
-- hash. Any other answer is of a file that was not stored, with nothing written. The tables of
-- originals are sound before.
pub ingest_Tells :
    (l : Library) (u : Upload) (w : World)
    → IsSound l.sha256 w.db
    → ((a : Ingested) × ((ingest_document l u w).0 ≡ ok a)
        × Tells l u w.db a (ingest_document l u w).1.db)
      ⊎ ((e : Error) × ((ingest_document l u w).0 ≡ err e) × Raised (Crashes l u) e)
ingest_Tells l u w sound = elim ((ingest_document-Tells l u w.db sound).ends w refl) [
  | inl done ↦ inl done
  | inr (e, raised, handled, _) ↦ inr (e, raised, handled)
]
