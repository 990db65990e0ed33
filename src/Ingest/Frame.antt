-- ===== src/Ingest/Frame.antt =====
-- What the steps of an upload leave of its document and its original.
use mathlib.Core.Path.{subst}
use mathlib.Core.Option.{some-injective}
use Prim.Native.String
use ahmed_agent.Base.{
  ℕ, ◌≡◌, ◌⊎◌, inl, inr, refl, ◌∙◌, ap, Bool, true, false, Option, none, some, String, List, ◌∷◌,
  ==_iff, ltb, is_some, ◌&&◌, ◌++◌, map, if◌then◌else◌,
}
use ahmed_agent.Base.Table.{select, update, select-update, select_passes}
use ahmed_agent.Files.{DocumentChunk}
use ahmed_agent.Schema.{Db, DocumentRow, ChunkRow}
use ahmed_agent.Exec.{persistence_error}
use ahmed_agent.Exec.Ensures.{
  Ensures, Raised, Ensures-raise, Ensures-bind, Ensures-statements, Ensures-transact,
}
use ahmed_agent.Documents.{
  by_hash, by_document, NewDocument, new_row, insert_document, store_document, Embedding,
  set_embedding, update_document_embedding_status, store_vectors, store_document_embeddings,
  new_chunk, set_vectors,
}
use ahmed_agent.Originals.{
  update_original_source_extraction_status, delete_original_source, is_empty_text,
}
use ahmed_agent.Originals.Sound.{with_status}
use ahmed_agent.Originals.View.{Collision, given}
use ahmed_agent.Originals.Keep.{IsStored, status_keeps}
use ahmed_agent.Files.Content.{broken, validate_file_content, extract_document}
use ahmed_agent.Ingest.{name, Library, Upload, file_hash, new_source, new_document, store_or_delete}
use ahmed_agent.Ingest.Ends.{Ends, Ends-statements, Ends-guarded, Ends-try}

module _ (l : Library) (u : Upload) where
  -- A parser raises what the source does not catch, while the content is validated or extracted.
  abbrev pub Crashes : Type 0
  Crashes =
      (validate_file_content l.formats (name l u) u.bytes ≡ broken)
      ⊎ (extract_document l.formats (name l u) u.bytes ≡ broken)

  -- The original of the upload is stored, or two different contents have the same key.
  abbrev pub HasOriginal : Db → Type 0
  HasOriginal db =
      IsStored l.sha256 u.source_id (given l.sha256 (new_source l u)) db ⊎ Collision l.sha256

  abbrev pub HasDocument : String → Db → Type 0
  HasDocument status db =
      (d : DocumentRow) × (select (by_document u.document_id) db.documents ≡ some d)
      × (d.file_hash ≡ file_hash l u)
      × (d.source_id ≡ some u.source_id)
      × (d.status ≡ status)

  abbrev pub IsThere : String → Db → Type 0
  IsThere status db = HasDocument status db × HasOriginal db

  -- The tables of documents and chunks do not matter for it.
  pub documents-HasOriginal :
      (ds : List DocumentRow) (cs : List ChunkRow) (db : Db)
      → HasOriginal db
      → HasOriginal (record db { documents = ds; chunks = cs })
  documents-HasOriginal ds cs db (inr collision) = inr collision
  documents-HasOriginal ds cs db (inl o) = inl (record {
    sound = record { linked = o.sound.linked; hashed = o.sound.hashed };
    stored = o.stored;
  })

  status_kept :
      (status text : String) (db : Db)
      → IsThere status db
      → IsThere status (with_status u.source_id text db)
  status_kept status text db (document, inr collision) = (document, inr collision)
  status_kept status text db (document, inl original) =
      (document, inl (status_keeps l.sha256 u.source_id _ u.source_id text db original))

  module _ (status : String) (F : Db → Type 0) (frame : (db : Db) → IsThere status db → F db) where
    pub set_status-IsThere :
        (text : String)
        → Ensures
            (Raised Crashes)
            (IsThere status)
            (update_original_source_extraction_status u.source_id text)
            (λ r. IsThere status)
            F
    unfolding update_original_source_extraction_status
    set_status-IsThere text =
        Ends-guarded Crashes (IsThere status) (λ r. IsThere status) F (is_empty_text text) _ frame
          (Ends-guarded Crashes (IsThere status) (λ r. IsThere status) F
            (ltb 64 (String.count text)) _ frame
            (Ensures-statements (Raised Crashes) (IsThere status) (λ r. IsThere status) F
              (λ now db. (tt, with_status u.source_id text db)) tt frame
              (λ now db p. status_kept status text db p)))

  -- A change of the row of the document that keeps what it is of.
  set_embedding-HasDocument :
      (status text : String) (e : Embedding) (now : ℕ) (db : Db)
      → HasDocument status db
      → (d : DocumentRow) × (select
            (by_document u.document_id)
            (update (by_document u.document_id) (set_embedding text e now) db.documents)
          ≡ some d)
        × (d.file_hash ≡ file_hash l u)
        × (d.source_id ≡ some u.source_id)
        × (d.status ≡ text)
  set_embedding-HasDocument status text e now db (d, found, hash, source, is) = (
    set_embedding text e now d,
    select-update (by_document u.document_id) (by_document u.document_id) (set_embedding text e now)
          (λ r. refl) db.documents
        ∙ rw found (
            ap some (
              hit (by_document u.document_id d)
                (select_passes (by_document u.document_id) db.documents d found))),
    hash,
    source,
    refl,
  )
    where
      hit :
          (b : Bool)
          → b ≡ true
          → (if b then set_embedding text e now d else d) ≡ set_embedding text e now d
      hit true h = refl
      hit false h = absurd (cc h)

  pub set_embedding-IsThere :
      (status text : String) (e : Embedding)
      → Ends Crashes
          (IsThere status)
          (update_document_embedding_status u.document_id text e)
          (λ r. IsThere text)
  unfolding update_document_embedding_status
  set_embedding-IsThere status text e =
      Ends-statements Crashes (IsThere status) (λ r. IsThere text)
        (λ now db. (
          tt,
          record db {
            documents = update (by_document u.document_id) (set_embedding text e now) db.documents;
          },
        ))
        (λ now db p. (
          set_embedding-HasDocument status text e now db p.0,
          documents-HasOriginal _ db.chunks db p.1,
        ))

  pub store_vectors-IsThere :
      (status : String) (rows : List (ℕ × String)) (e : Embedding)
      → Ends Crashes
          (IsThere status)
          (store_document_embeddings u.document_id rows e)
          (λ r. IsThere "ready")
  unfolding store_document_embeddings store_vectors
  store_vectors-IsThere status rows e =
      Ensures-transact (Raised Crashes) (IsThere status) (λ r. IsThere "ready") (λ db. Unit)
        (store_vectors u.document_id rows e) tt (λ db p. tt)
        (λ now db r db' p ran. stored now db r db' p db.vector_storage ran)
    where
      stored :
          (now : ℕ) (db : Db) (r : Unit {0}) (db' : Db)
          → IsThere status db
          → (b : Bool)
          → ◌≡◌ {A = Option (Unit {0} × Db)}
              (if b
                then some (
                  tt,
                  record db {
                    documents =
                        update
                          (by_document u.document_id)
                          (set_embedding "ready" e now)
                          db.documents;
                    chunks = set_vectors u.document_id rows db.chunks;
                  },
                )
                else none)
              (some (r, db'))
          → IsThere "ready" db'
      stored now db r db' p false ran = absurd (cc ran)
      stored now db r db' p true ran =
          subst (λ (q : Unit {0} × Db). IsThere "ready" q.1) (some-injective _ _ ran)
            (
              set_embedding-HasDocument status "ready" e now db p.0,
              documents-HasOriginal _ _ db p.1,
            )

  -- The document and its chunks, where they were stored.
  abbrev pub Inserted : String → Bool → Db → Type 0
  Inserted status true db = IsThere status db
  Inserted status false db = Unit

  insert_document-Inserted :
      (status : String) (chunks : List DocumentChunk) (now : ℕ) (db : Db) (b : Bool) (db' : Db)
      → HasOriginal db
      → insert_document (new_document l u status chunks) now db ≡ some (b, db')
      → Inserted status b db'
  unfolding insert_document
  insert_document-Inserted status chunks now db b db' original ran =
      inserted (db.has_hash_index && is_some (select (by_hash (file_hash l u)) db.documents))
        (is_some (select (by_document u.document_id) db.documents)) ran
    where
      n : NewDocument
      n = new_document l u status chunks

      rest : Db
      rest = record db {
        documents = new_row n now ∷ db.documents;
        chunks = db.chunks ++ map (new_chunk n) chunks;
      }

      there : IsThere status rest
      there = (
        (new_row n now, rw ((==_iff u.document_id u.document_id).1 refl) refl, refl, refl, refl),
        documents-HasOriginal _ _ db original,
      )

      inserted :
          (conflict taken : Bool)
          → ◌≡◌ {A = Option (Bool × Db)}
              (if conflict then some (false, db) else if taken then none else some (true, rest))
              (some (b, db'))
          → Inserted status b db'
      inserted true taken e =
          subst (λ (q : Bool × Db). Inserted status q.0 q.1) (some-injective _ _ e) tt
      inserted false true e = absurd (cc e)
      inserted false false e =
          subst (λ (q : Bool × Db). Inserted status q.0 q.1) (some-injective _ _ e) there

  pub store_or_delete-Inserted :
      (status : String) (chunks : List DocumentChunk)
      → Ends Crashes HasOriginal (store_or_delete l u status chunks) (Inserted status)
  unfolding store_or_delete store_document delete_original_source
  store_or_delete-Inserted status chunks =
      Ends-try Crashes HasOriginal (Inserted status) (λ db. Unit) _ _
        (Ensures-transact (Raised Crashes) HasOriginal (Inserted status) (λ db. Unit)
          (insert_document (new_document l u status chunks)) tt (λ db p. tt)
          (λ now db b db' p ran. insert_document-Inserted status chunks now db b db' p ran))
        (Ensures-bind (Raised Crashes) (λ db. Unit) (λ r db. Unit) (Inserted status) (λ db. Unit) _
          _ (Ends-statements Crashes (λ db. Unit) (λ r db. Unit) _ (λ now db p. tt))
          (λ r.
            Ensures-raise (Raised Crashes) (λ db. Unit) (Inserted status) (λ db. Unit)
              persistence_error tt (λ db p. tt)))
