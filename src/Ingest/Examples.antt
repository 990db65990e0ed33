-- ===== src/Ingest/Examples.antt =====
-- Uploads of small text files to a database without the column of vectors.
use ahmed_agent.Base.{
  ◌≡◌, ◌⊎◌, refl, true, false, none, some, String, List, [], ◌∷◌, ◌==◌, list_eq, if◌then◌else◌, map,
}
use ahmed_agent.Files.{Text, codes, build_chunks, strip, chunk_content}
use ahmed_agent.Files.Content.{
  Formats, not_parsed, unreadable, validate_file_content, extract_document,
}
use ahmed_agent.Schema.{DocumentRow, empty}
use ahmed_agent.Exec.{World, Outcome, Error, ok, err, value_error}
use ahmed_agent.Documents.{find_document_by_hash, store_document, store_document_embeddings}
use ahmed_agent.Originals.{create_original_source, update_original_source_extraction_status}
use ahmed_agent.Originals.View.{IsSound}
use ahmed_agent.Ingest.{Library, Upload, Ingested, unexpected_error, embedded, ingest_document}
use ahmed_agent.Ingest.Tell.{Tells, ingest_Tells}
use ahmed_agent.Exec.Ensures.{Raised}
use ahmed_agent.Ingest.Frame.{Crashes}
use ahmed_agent.Ingest.Route.{files_upload, not_saved}

abbrev formats : Formats
formats = record {
  is_space = λ c. c == b' ';
  lower = λ text. text;
  splitlines = λ text. text ∷ [];
  decode = λ bytes. some bytes;
  zip_entries = λ bytes. not_parsed;
  read_pdf = λ bytes. unreadable;
  read_docx = λ bytes. not_parsed;
}

abbrev library : Library
library = record {
  formats = formats;
  sha256 = λ bytes. if list_eq bytes (codes "hi") then "a" else "b";
  uuid_text = λ id. "id";
  chunk_size = 1200;
  chunk_overlap = 200;
  embed = λ texts. unexpected_error;
  default_model = "model";
  embedding_version = "1";
}

abbrev upload : Text → Upload
upload bytes = record {
  document_id = 1;
  filename = codes "a.txt";
  mime_type = none;
  bytes = bytes;
  owner_principal_id = "owner";
  source_id = 2;
}

abbrev start : World
start = record { db = empty; clock = 10; outcomes = [] }

empty-IsSound : IsSound library.sha256 start.db
empty-IsSound = record { linked = λ key h. absurd (cc h); hashed = λ key b h. absurd (cc h) }

ingest_Tells_example :
    ((a : Ingested) × ((ingest_document library (upload (codes "hi")) start).0 ≡ ok a)
      × Tells library
          (upload (codes "hi"))
          start.db
          a
          (ingest_document library (upload (codes "hi")) start).1.db)
    ⊎ ((e : Error) × ((ingest_document library (upload (codes "hi")) start).0 ≡ err e)
        × Raised (Crashes library (upload (codes "hi"))) e)
ingest_Tells_example = ingest_Tells library (upload (codes "hi")) start empty-IsSound

abbrev two_uploads : List Upload
two_uploads = upload (codes "hi") ∷ upload (codes "ho") ∷ []

-- A text file without a byte passes the check of its content, and the upload ends in a `ValueError`
-- that the route does not handle.
empty_file_raises : (files_upload library 100 (upload [] ∷ []) start).0 ≡ err value_error
unfolding files_upload ingest_document validate_file_content extract_document find_document_by_hash
    create_original_source list_eq
empty_file_raises = refl

-- The column of vectors is there, and the model makes a vector for the one chunk.
abbrev embedding_library : Library
embedding_library = record library { embed = λ texts. embedded (some "[1]" ∷ []) 1 "model" }

abbrev works : Outcome
works = record { fails = false; elapsed = 0 }

abbrev breaks : Outcome
breaks = record { fails = true; elapsed = 0 }

-- Only the last transaction fails, the one that sets the status of the original.
abbrev failing_last : World
failing_last = record {
  db = record empty { vector_storage = true };
  clock = 10;
  outcomes = works ∷ works ∷ works ∷ works ∷ works ∷ breaks ∷ [];
}

abbrev statuses : List DocumentRow → List String
statuses = map (λ (d : DocumentRow). d.status)

-- The route answers that the file was not saved, of a document that is stored and ready.
saved_but_refused :
    ((files_upload embedding_library 100 (upload (codes "hi") ∷ []) failing_last).0 ≡ ok not_saved)
    × (statuses
          (files_upload embedding_library 100
            (upload (codes "hi") ∷ [])
            failing_last).1.db.documents
        ≡ "ready" ∷ [])
unfolding files_upload ingest_document validate_file_content extract_document find_document_by_hash
    create_original_source list_eq store_document store_document_embeddings
    update_original_source_extraction_status build_chunks strip chunk_content
saved_but_refused = (refl, refl)
