-- ===== src/Documents/Examples.antt =====
-- One content is stored twice.
use ahmed_agent.Base.{ℕ, ◌≡◌, refl, true, false, none, some, List, [], ◌∷◌, arith}
use ahmed_agent.Files.{codes}
use ahmed_agent.Schema.{empty}
use ahmed_agent.Exec.{World, ok}
use ahmed_agent.Documents.{NewDocument, store_document}
use ahmed_agent.Documents.Hashes.{DocumentCall, store, find, delete_for, serve, serve-IsConsistent}
use ahmed_agent.Documents.Consistent.{IsConsistent}

abbrev document : ℕ → NewDocument
document document_id = record {
  document_id = document_id;
  filename = codes "a.txt";
  mime_type = none;
  file_hash = "a";
  status = "fts_ready";
  chunks = [];
  source_id = some 9;
  source_sha256 = some "a";
}

abbrev start : World
start = record { db = record empty { has_hash_index = true }; clock = 10; outcomes = [] }

start-IsConsistent : IsConsistent start.db
start-IsConsistent = record {
  indexed = refl;
  unique = λ file_hash. omega arith;
  linked = λ document_id h. absurd (cc h);
}

-- The second upload of the same bytes is told that it was not stored.
second_is_duplicate :
    (store_document (document 2) (store_document (document 1) start).1).0 ≡ ok false
unfolding store_document
second_is_duplicate = refl

abbrev calls : List DocumentCall
calls = store (document 1) ∷ store (document 2) ∷ find "a" ∷ delete_for (some (9 ∷ [])) ∷ []

serve-IsConsistent_example : IsConsistent (serve calls start).db
serve-IsConsistent_example = serve-IsConsistent calls start start-IsConsistent
