-- ===== src/Ingest/Sound.antt =====
-- An upload leaves the tables of the originals sound.
use mathlib.Core.Path.{subst}
use mathlib.Core.Option.{some-injective}
use ahmed_agent.Base.{
  ℕ, ◌≡◌, ◌&&◌, ◌||◌, ◌==◌, not, ◌++◌, map, length, Bool, true, false, Option, none, some, String,
  List, [], ◌∷◌, is_some, if◌then◌else◌,
}
use ahmed_agent.Base.Table.{select, update}
use ahmed_agent.Files.{DocumentChunk}
use ahmed_agent.Files.Content.{
  Processed, accepted, refused, broken, is_empty_name, validate_file_content,
}
use ahmed_agent.Schema.{Db}
use ahmed_agent.Exec.{Exec, persistence_error}
use ahmed_agent.Exec.Preserves.{
  Preserves, Preserves-transact, Preserves-bind, Preserves-pure, Preserves-raise, Preserves-if,
  Preserves-try,
}
use ahmed_agent.Documents.{
  by_hash, by_document, Found, find_document_by_hash, NewDocument, new_row, new_chunk,
  insert_document, store_document, Embedding, set_embedding, update_document_embedding_status,
  set_vectors, store_vectors, store_document_embeddings,
}
use ahmed_agent.Originals.{
  create_original_source, delete_original_source, update_original_source_extraction_status,
}
use ahmed_agent.Originals.View.{IsSound}
use ahmed_agent.Originals.Keep.{create, remove, set_status, after}
use ahmed_agent.Originals.Refine.{after-refines}
use ahmed_agent.Ingest.{
  Library, Upload, Embedded, embedding_error, unexpected_error, embedded, file_hash, name,
  new_source, new_document, store_or_delete, winner_result, lost_race, no_embedding,
  embedding_failed, store_rows, with_embedding, embed_or_skip, embed_stored, refuse_stored,
  store_processed, ingest_new, ingest_valid, ingest_document, vector_storage_available, contents,
  set_source_status_after_commit,
}

module _ (l : Library) (u : Upload) where
  abbrev Keeps : {A : Type 0} → Exec A → Type 0
  Keeps m = Preserves (IsSound l.sha256) m

  create-Keeps : Keeps (create_original_source l.sha256 (new_source l u))
  unfolding after
  create-Keeps = record { after = λ w s. (after-refines l.sha256 (create (new_source l u)) w s).0 }

  delete-Keeps : (id : ℕ) → Keeps (delete_original_source id)
  unfolding after
  delete-Keeps id = record { after = λ w s. (after-refines l.sha256 (remove id) w s).0 }

  set_status-Keeps :
      (id : ℕ) (status : String) → Keeps (update_original_source_extraction_status id status)
  unfolding after
  set_status-Keeps id status = record {
    after = λ w s. (after-refines l.sha256 (set_status id status) w s).0;
  }

  find-Keeps : (hash : String) → Keeps (find_document_by_hash hash)
  unfolding find_document_by_hash
  find-Keeps hash = Preserves-transact _ _ (λ now db a db' s e.
      subst (λ (q : Option Found × Db). IsSound l.sha256 q.1) (some-injective _ _ e) s)

  store-Keeps : (n : NewDocument) → Keeps (store_document n)
  unfolding store_document insert_document
  store-Keeps n = Preserves-transact _ _ (λ now db b db' s e.
      inserted now db b db' s
        (db.has_hash_index && is_some (select (by_hash n.file_hash) db.documents))
        (is_some (select (by_document n.document_id) db.documents)) e)
    where
      inserted :
          (now : ℕ) (db : Db) (b : Bool) (db' : Db)
          → IsSound l.sha256 db
          → (conflict taken : Bool)
          → ◌≡◌ {A = Option (Bool × Db)}
              (if conflict
                then some (false, db)
                else if taken
                then none
                else some (
                  true,
                  record db {
                    documents = new_row n now ∷ db.documents;
                    chunks = db.chunks ++ map (new_chunk n) n.chunks;
                  },
                ))
              (some (b, db'))
          → IsSound l.sha256 db'
      inserted now db b db' s true taken e =
          subst (λ (q : Bool × Db). IsSound l.sha256 q.1) (some-injective _ _ e) s
      inserted now db b db' s false true e = absurd (cc e)
      inserted now db b db' s false false e =
          subst (λ (q : Bool × Db). IsSound l.sha256 q.1) (some-injective _ _ e)
            (record { linked = s.linked; hashed = s.hashed })

  set_embedding-Keeps :
      (id : ℕ) (status : String) (e : Embedding)
      → Keeps (update_document_embedding_status id status e)
  unfolding update_document_embedding_status
  set_embedding-Keeps id status e = Preserves-transact _ _ (λ now db a db' s ran.
      subst (λ (q : Unit {0} × Db). IsSound l.sha256 q.1) (some-injective _ _ ran)
        (record { linked = s.linked; hashed = s.hashed }))

  vectors-Keeps :
      (id : ℕ) (vectors : List (ℕ × String)) (e : Embedding)
      → Keeps (store_document_embeddings id vectors e)
  unfolding store_document_embeddings store_vectors
  vectors-Keeps id vectors e =
      Preserves-transact _ _ (λ now db a db' s ran. stored now db a db' s db.vector_storage ran)
    where
      stored :
          (now : ℕ) (db : Db) (a : Unit {0}) (db' : Db)
          → IsSound l.sha256 db
          → (b : Bool)
          → ◌≡◌ {A = Option (Unit {0} × Db)}
              (if b
                then some (
                  tt,
                  record db {
                    documents = update (by_document id) (set_embedding "ready" e now) db.documents;
                    chunks = set_vectors id vectors db.chunks;
                  },
                )
                else none)
              (some (a, db'))
          → IsSound l.sha256 db'
      stored now db a db' s false ran = absurd (cc ran)
      stored now db a db' s true ran =
          subst (λ (q : Unit {0} × Db). IsSound l.sha256 q.1) (some-injective _ _ ran)
            (record { linked = s.linked; hashed = s.hashed })

  store_or_delete-Keeps :
      (status : String) (chunks : List DocumentChunk) → Keeps (store_or_delete l u status chunks)
  unfolding store_or_delete
  store_or_delete-Keeps status chunks =
      Preserves-try _ _ _ (store-Keeps (new_document l u status chunks))
        (Preserves-bind _ _ _ (delete-Keeps u.source_id) (λ a. Preserves-raise _ persistence_error))

  winner-Keeps : (o : Option Found) → Keeps (winner_result l u o)
  winner-Keeps none = Preserves-raise _ _
  winner-Keeps (some f) = Preserves-pure _ _

  lost_race-Keeps : Keeps (lost_race l u)
  unfolding lost_race
  lost_race-Keeps =
      Preserves-bind _ _ _ (delete-Keeps u.source_id)
        (λ a. Preserves-bind _ _ _ (find-Keeps (file_hash l u)) winner-Keeps)

  embedding_failed-Keeps : (n : ℕ) (status : String) → Keeps (embedding_failed l u n status)
  unfolding embedding_failed
  embedding_failed-Keeps n status =
      Preserves-bind _ _ _ (set_embedding-Keeps u.document_id "embedding_failed" (no_embedding l u))
        (λ a.
          Preserves-bind _ _ _ (set_status-Keeps u.source_id "embedding_failed")
            (λ b. Preserves-pure _ _))

  store_rows-Keeps :
      (n : ℕ) (e : Embedding) (rows : Option (List (ℕ × String))) → Keeps (store_rows l u n e rows)
  store_rows-Keeps n e none = embedding_failed-Keeps n "ERROR"
  store_rows-Keeps n e (some rows) =
      Preserves-bind _ _ _ (vectors-Keeps u.document_id rows e)
        (λ a. Preserves-bind _ _ _ (set_status-Keeps u.source_id "ready") (λ b. Preserves-pure _ _))

  with_embedding-Keeps :
      (chunks : List DocumentChunk) (e : Embedded) → Keeps (with_embedding l u chunks e)
  unfolding with_embedding
  with_embedding-Keeps chunks (embedding_error status) =
      embedding_failed-Keeps (length chunks) status
  with_embedding-Keeps chunks unexpected_error = embedding_failed-Keeps (length chunks) "ERROR"
  with_embedding-Keeps chunks (embedded vectors dimension model) =
      Preserves-if _ (not (length vectors == length chunks) || dimension == 0) _ _
        (embedding_failed-Keeps (length chunks) "ERROR") (store_rows-Keeps (length chunks) _ _)

  embed_or_skip-Keeps :
      (chunks : List DocumentChunk) (b : Bool) → Keeps (embed_or_skip l u chunks b)
  embed_or_skip-Keeps chunks false = Preserves-pure _ _
  embed_or_skip-Keeps chunks true = with_embedding-Keeps chunks (l.embed (contents l u chunks))

  after_commit-Keeps : (status : String) → Keeps (set_source_status_after_commit l u status)
  after_commit-Keeps status =
      Preserves-try _ _ _ (set_status-Keeps u.source_id status) (Preserves-pure _ tt)

  embed_stored-Keeps : (chunks : List DocumentChunk) → Keeps (embed_stored l u chunks)
  unfolding embed_stored
  embed_stored-Keeps chunks = Preserves-bind _ _ _ (after_commit-Keeps "fts_ready") (λ a.
      Preserves-bind _ (vector_storage_available l u) _ (record { after = λ w s. s })
        (embed_or_skip-Keeps chunks))

  refuse_stored-Keeps : (status : String) → Keeps (refuse_stored l u status)
  unfolding refuse_stored
  refuse_stored-Keeps status =
      Preserves-bind _ _ _ (after_commit-Keeps status) (λ a. Preserves-pure _ _)

  store_processed-Keeps : (p : Processed (List DocumentChunk)) → Keeps (store_processed l u p)
  store_processed-Keeps broken = Preserves-raise _ _
  store_processed-Keeps (refused status) =
      Preserves-bind _ _ _ (store_or_delete-Keeps status [])
        (λ inserted. Preserves-if _ inserted _ _ (refuse_stored-Keeps status) lost_race-Keeps)
  store_processed-Keeps (accepted chunks) =
      Preserves-bind _ _ _ (store_or_delete-Keeps "fts_ready" chunks)
        (λ inserted. Preserves-if _ inserted _ _ (embed_stored-Keeps chunks) lost_race-Keeps)

  ingest_new-Keeps : (o : Option Found) → Keeps (ingest_new l u o)
  ingest_new-Keeps (some existing) = Preserves-pure _ _
  ingest_new-Keeps none = Preserves-bind _ _ _ create-Keeps (λ a. store_processed-Keeps _)

  ingest_valid-Keeps : (p : Processed (Unit {0})) → Keeps (ingest_valid l u p)
  ingest_valid-Keeps broken = Preserves-raise _ _
  ingest_valid-Keeps (refused status) = Preserves-pure _ _
  ingest_valid-Keeps (accepted _) =
      Preserves-bind _ _ _ (find-Keeps (file_hash l u)) ingest_new-Keeps

  pub ingest_document-IsSound : Preserves (IsSound l.sha256) (ingest_document l u)
  unfolding ingest_document
  ingest_document-IsSound =
      Preserves-if _ (is_empty_name (name l u)) _ _ (Preserves-pure _ _)
        (ingest_valid-Keeps (validate_file_content l.formats (name l u) u.bytes))
