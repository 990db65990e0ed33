-- ===== src/Ingest/Route.antt =====
-- server.py: files_upload, from the parsed form on. The ids of `uuid4` come with the uploads.
use ahmed_agent.Base.{
  ℕ, Bool, true, false, ◌&&◌, ◌||◌, not, Option, none, some, String, List, [], ◌∷◌, length, ltb,
  list_eq, str_eq, if◌then◌else◌,
}
use ahmed_agent.Files.{Text, codes}
use ahmed_agent.Files.Content.{
  Formats, sanitize_filename, is_empty_name, extension_for, is_text_extension,
}
use ahmed_agent.Exec.{Exec, pure, attempt, ◌>>=◌}
use ahmed_agent.Ingest.{Library, Upload, Ingested, ingest_document}

-- The answers, with the results of the files where the body holds them.
pub data Uploaded : Type 0 where
  no_file : Uploaded
  unsafe_filename : Uploaded
  unsupported_type : Uploaded
  too_large : Uploaded
  not_saved : Uploaded
  answered : ℕ → List Ingested → Uploaded

module _ (f : Formats) (max_upload_bytes : ℕ) where
  abbrev pub is_supported : Text → Bool
  is_supported extension =
      is_text_extension extension
      || list_eq extension (codes ".pdf")
      || list_eq extension (codes ".docx")

  -- The loop that reads the files, up to the first that is refused.
  unfoldable pub prepare : List Upload → Option Uploaded
  prepare [] = none
  prepare (u ∷ us) =
      let rest = prepare us in
      let filename = sanitize_filename u.filename in
      if is_empty_name filename || not (list_eq filename u.filename)
      then some unsafe_filename
      else if not (is_supported (extension_for f filename))
      then some unsupported_type
      else if ltb max_upload_bytes (length u.bytes)
      then some too_large
      else rest

abbrev pub has_status : String → List Ingested → Bool
has_status status [] = false
has_status status (a ∷ as') = str_eq a.status status || has_status status as'

abbrev pub any_duplicate : List Ingested → Bool
any_duplicate [] = false
any_duplicate (a ∷ as') = a.duplicate || any_duplicate as'

abbrev pub is_degraded : String → Bool
is_degraded status = str_eq status "embedding_failed" || str_eq status "VECTOR_UNAVAILABLE"

abbrev pub any_degraded : List Ingested → Bool
any_degraded [] = false
any_degraded (a ∷ as') = is_degraded a.status || any_degraded as'

abbrev pub all_known : List Ingested → Bool
all_known [] = true
all_known (a ∷ as') = (str_eq a.status "ready" || is_degraded a.status) && all_known as'

unfoldable pub upload_response_status_code : List Ingested → ℕ
upload_response_status_code results =
    if not (all_known results) then 422 else if any_degraded results then 202 else 201

unfoldable pub upload_answer : List Ingested → Uploaded
unfolding upload_response_status_code
upload_answer results =
    if has_status "invalid_file_content" results
    then answered 415 results
    else if any_duplicate results
    then answered 409 results
    else answered (upload_response_status_code results) results

module _ (l : Library) where
  -- The loop that stores the files, one after the other.
  unfoldable pub ingest_all : List Upload → Exec (List Ingested)
  ingest_all [] = pure []
  ingest_all (u ∷ us) = do
    result ← ingest_document l u
    results ← ingest_all us
    pure (result ∷ results)

  abbrev pub or_not_saved : Option (List Ingested) → Exec Uploaded
  or_not_saved none = pure not_saved
  or_not_saved (some results) = pure (upload_answer results)

  abbrev pub upload_prepared : List Upload → Option Uploaded → Exec Uploaded
  upload_prepared us (some refused) = pure refused
  upload_prepared us none = do results ← attempt (ingest_all us); or_not_saved results

  unfoldable pub files_upload : ℕ → List Upload → Exec Uploaded
  unfolding prepare ingest_all upload_answer
  files_upload max_upload_bytes [] = pure no_file
  files_upload max_upload_bytes (u ∷ us) =
      upload_prepared (u ∷ us) (prepare l.formats max_upload_bytes (u ∷ us))
