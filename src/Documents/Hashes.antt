-- ===== src/Documents/Hashes.antt =====
-- Calls on documents by any clients: one document for each content, and no chunk without a document.
use mathlib.Core.Path.{subst}
use mathlib.Core.Option.{some-injective}
use ahmed_agent.Base.{
  ℕ, ◌≡◌, refl, Bool, true, false, ◌&&◌, Option, none, some, String, List, [], ◌∷◌, ◌++◌, map,
  is_some, if◌then◌else◌,
}
use ahmed_agent.Base.Table.{select, update}
use ahmed_agent.Schema.{Db}
use ahmed_agent.Exec.{World}
use ahmed_agent.Exec.Preserves.{Preserves, Preserves-transact, Preserves-pure, Preserves-raise}
use ahmed_agent.Documents.{
  by_hash, by_document, NewDocument, new_row, new_chunk, insert_document, store_document, Embedding,
  set_embedding, update_document_embedding_status, set_vectors, store_vectors,
  store_document_embeddings, delete_documents_for_source_ids, find_document_by_hash, Found,
}
use ahmed_agent.Documents.Consistent.{
  IsConsistent, changed-IsConsistent, vectors-IsConsistent, inserted-IsConsistent,
  deleted-IsConsistent,
}

pub data DocumentCall : Type 0 where
  find : String → DocumentCall
  store : NewDocument → DocumentCall
  set_status : ℕ → String → Embedding → DocumentCall
  store_embeddings : ℕ → List (ℕ × String) → Embedding → DocumentCall
  delete_for : Option (List ℕ) → DocumentCall

-- The world after a call, whether it returned or raised.
unfoldable pub after : DocumentCall → World → World
after (find file_hash) w = (find_document_by_hash file_hash w).1
after (store n) w = (store_document n w).1
after (set_status document_id status e) w =
    (update_document_embedding_status document_id status e w).1
after (store_embeddings document_id vectors e) w =
    (store_document_embeddings document_id vectors e w).1
after (delete_for ids) w = (delete_documents_for_source_ids ids w).1

unfoldable pub serve : List DocumentCall → World → World
unfolding after
serve [] w = w
serve (c ∷ cs) w = serve cs (after c w)

find-IsConsistent : (file_hash : String) → Preserves IsConsistent (find_document_by_hash file_hash)
unfolding find_document_by_hash
find-IsConsistent file_hash = Preserves-transact _ _ (λ now db a db' c e.
    subst (λ (q : Option Found × Db). IsConsistent q.1) (some-injective _ _ e) c)

store-IsConsistent : (n : NewDocument) → Preserves IsConsistent (store_document n)
unfolding store_document insert_document
store-IsConsistent n = Preserves-transact _ _ (λ now db b db' c e.
    inserted now db b db' c db.has_hash_index c.indexed
      (is_some (select (by_hash n.file_hash) db.documents)) refl
      (is_some (select (by_document n.document_id) db.documents)) e)
  where
    inserted :
        (now : ℕ) (db : Db) (b : Bool) (db' : Db)
        → IsConsistent db
        → (indexed : Bool) → indexed ≡ true
        → (conflict : Bool) → is_some (select (by_hash n.file_hash) db.documents) ≡ conflict
        → (taken : Bool)
        → ◌≡◌ {A = Option (Bool × Db)}
            (if indexed && conflict
              then some (false, db)
              else if taken
              then none
              else some (
                true,
                record db {
                  documents = new_row n now ∷ db.documents;
                  chunks = db.chunks ++ map (new_chunk n) n.chunks;
                },
              ))
            (some (b, db'))
        → IsConsistent db'
    inserted now db b db' c false not_so conflict is taken e = absurd (cc not_so)
    inserted now db b db' c true so true is taken e =
        subst (λ (q : Bool × Db). IsConsistent q.1) (some-injective _ _ e) c
    inserted now db b db' c true so false is true e = absurd (cc e)
    inserted now db b db' c true so false is false e =
        subst (λ (q : Bool × Db). IsConsistent q.1) (some-injective _ _ e)
          (inserted-IsConsistent n now db c is)

set_status-IsConsistent :
    (id : ℕ) (status : String) (e : Embedding)
    → Preserves IsConsistent (update_document_embedding_status id status e)
unfolding update_document_embedding_status
set_status-IsConsistent id status e = Preserves-transact _ _ (λ now db a db' c ran.
    subst (λ (q : Unit {0} × Db). IsConsistent q.1) (some-injective _ _ ran)
      (changed-IsConsistent id status e now db c))

store_embeddings-IsConsistent :
    (id : ℕ) (vectors : List (ℕ × String)) (e : Embedding)
    → Preserves IsConsistent (store_document_embeddings id vectors e)
unfolding store_document_embeddings store_vectors
store_embeddings-IsConsistent id vectors e =
    Preserves-transact _ _ (λ now db a db' c ran. stored now db a db' c db.vector_storage ran)
  where
    stored :
        (now : ℕ) (db : Db) (a : Unit {0}) (db' : Db)
        → IsConsistent db
        → (b : Bool)
        → ◌≡◌ {A = Option (Unit {0} × Db)}
            (if b
              then some (
                tt,
                record db {
                  documents = update (by_document id) (set_embedding "ready" e now) db.documents;
                  chunks = set_vectors id vectors db.chunks;
                },
              )
              else none)
            (some (a, db'))
        → IsConsistent db'
    stored now db a db' c false ran = absurd (cc ran)
    stored now db a db' c true ran =
        subst (λ (q : Unit {0} × Db). IsConsistent q.1) (some-injective _ _ ran)
          (vectors-IsConsistent id vectors _ (changed-IsConsistent id "ready" e now db c))

delete_for-IsConsistent :
    (ids : Option (List ℕ)) → Preserves IsConsistent (delete_documents_for_source_ids ids)
unfolding delete_documents_for_source_ids
delete_for-IsConsistent none = Preserves-raise _ _
delete_for-IsConsistent (some []) = Preserves-pure _ _
delete_for-IsConsistent (some (id ∷ ids)) =
    Preserves-transact _ _ (λ now db n db' c e. deleted-IsConsistent (id ∷ ids) now db db' n c e)

after-IsConsistent :
    (c : DocumentCall) (w : World) → IsConsistent w.db → IsConsistent (after c w).db
unfolding after
after-IsConsistent (find file_hash) w h = (find-IsConsistent file_hash).after w h
after-IsConsistent (store n) w h = (store-IsConsistent n).after w h
after-IsConsistent (set_status id status e) w h = (set_status-IsConsistent id status e).after w h
after-IsConsistent (store_embeddings id vectors e) w h =
    (store_embeddings-IsConsistent id vectors e).after w h
after-IsConsistent (delete_for ids) w h = (delete_for-IsConsistent ids).after w h

-- Whatever calls on documents are made, in any order and with any failures of the database: where
-- the unique index is there, each content has at most one document afterwards and each chunk its
-- document, if that holds before.
pub serve-IsConsistent :
    (cs : List DocumentCall) (w : World) → IsConsistent w.db → IsConsistent (serve cs w).db
unfolding serve
serve-IsConsistent [] w h = h
serve-IsConsistent (c ∷ cs) w h = serve-IsConsistent cs (after c w) (after-IsConsistent c w h)
