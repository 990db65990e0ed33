-- ===== src/Documents/Consistent.antt =====
-- What the statements on documents keep: one document for each content, and no chunk without a
-- document.
use mathlib.Core.Path.{subst}
use mathlib.Core.Option.{some-injective}
use ahmed_agent.Base.{
  ℕ, ◌≡◌, ◌≤◌, refl, Bool, true, false, Option, none, some, String, List, [], ◌∷◌, ◌++◌, map, ◌==◌,
  ==_iff, str_eq, eq_iff, is_some, arith, if◌then◌else◌, Bool-cases, inl, inr,
}
use ahmed_agent.Base.Table.{
  select, update, updated, delete, count, count-delete, count-update, count_none, select-update,
  select-delete_passes,
}
use ahmed_agent.Files.{DocumentChunk}
use ahmed_agent.Schema.{Db, DocumentRow, ChunkRow}
use ahmed_agent.Documents.{
  by_hash, by_document, chunk_of, NewDocument, new_row, new_chunk, Embedding, set_embedding,
  set_vectors, is_one_of, is_orphan, delete_documents, has_index,
}

-- The unique index is there, each content has at most one document, and each chunk has its document.
pub record IsConsistent (db : Db) : Type 0 where
  pub indexed : db.has_hash_index ≡ true
  pub unique : (file_hash : String) → count (by_hash file_hash) db.documents ≤ 1
  pub linked :
      (document_id : ℕ)
      → is_some (select (chunk_of document_id) db.chunks) ≡ true
      → is_some (select (by_document document_id) db.documents) ≡ true

-- An UPDATE of the documents keeps ids and hashes.
pub changed-IsConsistent :
    (id : ℕ) (status : String) (e : Embedding) (now : ℕ) (db : Db)
    → IsConsistent db
    → IsConsistent (record db {
      documents = update (by_document id) (set_embedding status e now) db.documents;
    })
changed-IsConsistent id status e now db c = record {
  indexed = c.indexed;
  unique = λ file_hash. omega (
    arith,
    c.unique file_hash,
    count-update (by_hash file_hash) (by_document id) (set_embedding status e now) (λ r. refl)
        db.documents,
  );
  linked = λ x found.
      rw
        (select-update (by_document x) (by_document id) (set_embedding status e now) (λ r. refl)
          db.documents)
        (still (select (by_document x) db.documents) (c.linked x found));
}
  where
    still :
        (o : Option DocumentRow)
        → is_some o ≡ true
        → is_some (updated (by_document id) (set_embedding status e now) o) ≡ true
    still none h = h
    still (some d) h = refl

-- The chunks that are found after vectors were stored were there before.
set_vectors-found :
    (id x : ℕ) (vectors : List (ℕ × String)) (cs : List ChunkRow)
    → is_some (select (chunk_of x) (set_vectors id vectors cs)) ≡ true
    → is_some (select (chunk_of x) cs) ≡ true
unfolding set_vectors
set_vectors-found id x [] cs h = h
set_vectors-found id x ((i, v) ∷ vs) cs h = was (select (chunk_of x) cs) (
    rw
      (select-update (chunk_of x) (has_index id i) (λ c. record c { embedding = some v })
        (λ c. refl) cs)
      at (set_vectors-found id x vs _ h))
  where
    was :
        (o : Option ChunkRow)
        → is_some (updated (has_index id i) (λ c. record c { embedding = some v }) o) ≡ true
        → is_some o ≡ true
    was none h = h
    was (some c) h = refl

pub vectors-IsConsistent :
    (id : ℕ) (vectors : List (ℕ × String)) (db : Db)
    → IsConsistent db
    → IsConsistent (record db { chunks = set_vectors id vectors db.chunks })
vectors-IsConsistent id vectors db c = record {
  indexed = c.indexed;
  unique = c.unique;
  linked = λ x found. c.linked x (set_vectors-found id x vectors db.chunks found);
}

-- What is found in two tables put together is found in one of them.
found_chunk :
    (n : NewDocument) (x : ℕ) (cs : List ChunkRow) (more : List DocumentChunk)
    → is_some (select (chunk_of x) (cs ++ map (new_chunk n) more)) ≡ true
    → (n.document_id == x) ≡ false
    → is_some (select (chunk_of x) cs) ≡ true
found_chunk n x [] [] h differ = h
found_chunk n x [] (c ∷ more) h differ = found_chunk n x [] more (rw differ at h) differ
found_chunk n x (c ∷ cs) more h differ = ground (arith, found_chunk n x cs more)

pub inserted-IsConsistent :
    (n : NewDocument) (now : ℕ) (db : Db)
    → IsConsistent db
    → is_some (select (by_hash n.file_hash) db.documents) ≡ false
    → IsConsistent (record db {
      documents = new_row n now ∷ db.documents;
      chunks = db.chunks ++ map (new_chunk n) n.chunks;
    })
inserted-IsConsistent n now db c fresh = record {
  indexed = c.indexed;
  unique = λ file_hash. elim (Bool-cases (str_eq n.file_hash file_hash)) [
    | inl same ↦ rw same (
        omega (
          arith,
          count_none (by_hash file_hash) db.documents (
              subst (λ h. is_some (select (by_hash h) db.documents) ≡ false)
                ((eq_iff n.file_hash file_hash).0 same) fresh),
        ))
    | inr differ ↦ rw differ (omega (arith, c.unique file_hash))
  ];
  linked = λ x found. elim (Bool-cases (n.document_id == x)) [
    | inl same ↦ rw same refl
    | inr differ ↦ rw differ (c.linked x (found_chunk n x db.chunks n.chunks found differ))
  ];
}

not_orphan :
    (ds : List DocumentRow) (k : ChunkRow) (x : ℕ)
    → chunk_of x k ≡ true
    → is_orphan ds k ≡ false
    → is_some (select (by_document x) ds) ≡ true
not_orphan ds k x of there =
    subst (λ y. is_some (select (by_document y) ds) ≡ true) ((==_iff k.document_id x).0 of)
      (flipped (is_some (select (by_document k.document_id) ds)) there)
  where
    flipped : (b : Bool) → (if b then false else true) ≡ false → b ≡ true
    flipped true h = refl
    flipped false h = absurd (cc h)

pub deleted-IsConsistent :
    (ids : List ℕ) (now : ℕ) (db db' : Db) (n : ℕ)
    → IsConsistent db
    → delete_documents ids now db ≡ some (n, db')
    → IsConsistent db'
unfolding delete_documents
deleted-IsConsistent ids now db db' n c e =
    let kept = delete (λ (d : DocumentRow). is_one_of ids d.source_id) db.documents in
    let left = delete (λ (k : ChunkRow). is_one_of ids k.source_id) db.chunks in
    subst (λ (q : ℕ × Db). IsConsistent q.1) (some-injective _ _ e)
      (record {
        indexed = c.indexed;
        unique = λ file_hash. omega (
          arith,
          c.unique file_hash,
          count-delete (by_hash file_hash) (λ (d : DocumentRow). is_one_of ids d.source_id)
              db.documents,
        );
        linked = λ x found.
            let (k, of, there, _) = select-delete_passes (chunk_of x) (is_orphan kept) left found in
            not_orphan kept k x of there;
      })
