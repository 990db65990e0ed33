-- ===== src/Files/Content.antt =====
-- my_files.py: the names and the contents of uploaded files, and the text that is taken from them.
-- What Python and the parsers make of bytes is a parameter.
use mathlib.Core.List.{reverse}
use ahmed_agent.Base.{
  ℕ, suc, ◌+◌, ◌*◌, Bool, true, false, ◌||◌, ◌&&◌, not, Option, none, some, String, List, [], ◌∷◌,
  ◌++◌, map, length, ltb, ◌==◌, list_eq, if◌then◌else◌,
}
use ahmed_agent.Files.{Text, ExtractedPage, codes, strip, lstrip, drop}

-- An entry of a ZIP archive.
pub record Entry : Type 0 where
  pub filename : Text
  pub file_size : ℕ

-- What a parser makes of a file: an exception that the source turns into a refusal, one that it does
-- not catch, or a result.
pub data Parsed {ℓ} (A : Type ℓ) : Type ℓ where
  not_parsed : Parsed A
  parser_raises : Parsed A
  parsed : A → Parsed A

-- What the PDF reader makes of a file; the text layer of a page is `none` where it raises. The reading
-- of the pages may raise after some of them, or before the first one, as `is_encrypted` may.
pub data Pdf : Type 0 where
  unreadable : Pdf
  encrypted : Pdf
  pages : List (Option Text) → Bool → Pdf

-- `decode` is UTF-8 with an optional mark; `zip_entries` opens the archive, which `zipfile` refuses
-- with one of the exceptions that are caught or with another, such as NotImplementedError.
pub record Formats : Type 0 where
  pub is_space : ℕ → Bool
  pub lower : Text → Text
  pub splitlines : Text → List Text
  pub decode : Text → Option Text
  pub zip_entries : Text → Parsed (List Entry)
  pub read_pdf : Text → Pdf
  pub read_docx : Text → Parsed (List Text)

-- A result, the status of a `FileProcessingError`, or another exception.
pub data Processed {ℓ} (A : Type ℓ) : Type ℓ where
  accepted : A → Processed A
  refused : String → Processed A
  broken : Processed A

abbrev pub max_docx_zip_entries : ℕ
max_docx_zip_entries = 1000

abbrev pub max_docx_uncompressed_bytes : ℕ
max_docx_uncompressed_bytes = 50 * 1024 * 1024

abbrev pub replace_backslash : ℕ → ℕ
replace_backslash c = if c == 92 then b'/' else c

-- What stands behind the last slash, `rsplit("/", 1)[-1]`, with what stands before it in `part`.
unfoldable pub last_part : Text → Text → Text
last_part part [] = part
last_part part (c ∷ cs) = last_part (if c == b'/' then [] else part ++ (c ∷ [])) cs

-- The position of the last dot, `rfind(".")`.
unfoldable pub last_dot : ℕ → Option ℕ → Text → Option ℕ
last_dot i found [] = found
last_dot i found (c ∷ cs) = last_dot (suc i) (if c == b'.' then some i else found) cs

-- A dot in front is the name of a hidden file and starts no extension.
abbrev pub from_dot : Text → Option ℕ → Text
from_dot name none = []
from_dot name (some i) = if ltb 0 i then drop i name else []

abbrev pub is_in_text : ℕ → Text → Bool
is_in_text c [] = false
is_in_text c (x ∷ xs) = x == c || is_in_text c xs

-- `_normalize_text` joins the lines again.
abbrev pub join_lines : List Text → Text
join_lines [] = []
join_lines (l ∷ []) = l
join_lines (l ∷ m ∷ ls) = l ++ (10 ∷ join_lines (m ∷ ls))

abbrev pub without_null : Text → Text
without_null [] = []
without_null (c ∷ cs) = if c == 0 then without_null cs else c ∷ without_null cs

-- The loop over a ZIP archive: the names seen so far and the bytes unpacked, or the refusal.
pub record Archive : Type 0 where
  pub names : List Text
  pub uncompressed_bytes : ℕ

abbrev pub is_member : Text → List Text → Bool
is_member name [] = false
is_member name (n ∷ ns) = list_eq n name || is_member name ns

-- `any(part == ".." for part in name.split("/"))`, with the part read so far.
unfoldable pub has_parent_part : Text → Text → Bool
has_parent_part part [] = list_eq part (codes "..")
has_parent_part part (c ∷ cs) =
    if c == b'/' && list_eq part (codes "..")
    then true
    else has_parent_part (if c == b'/' then [] else part ++ (c ∷ [])) cs

abbrev pub starts_with_slash : Text → Bool
starts_with_slash [] = false
starts_with_slash (c ∷ cs) = c == b'/'

abbrev pub is_empty_name : Text → Bool
is_empty_name [] = true
is_empty_name (c ∷ cs) = false

unfoldable pub is_unsafe_entry : Text → List Text → Bool
unfolding has_parent_part
is_unsafe_entry name names =
    is_empty_name name || starts_with_slash name || has_parent_part [] name || is_member name names

unfoldable pub read_entries : List Entry → Archive → Processed Archive
unfolding is_unsafe_entry
read_entries [] a = accepted a
read_entries (e ∷ es) a =
    let name = map replace_backslash e.filename in
    let size = a.uncompressed_bytes + e.file_size in
    let rest = read_entries es (record { names = name ∷ a.names; uncompressed_bytes = size }) in
    if is_unsafe_entry name a.names
    then refused "invalid_file_content"
    else if ltb max_docx_uncompressed_bytes size
    then refused "invalid_file_content"
    else rest

abbrev pub has_required : Processed Archive → Processed (Unit {0})
has_required (refused status) = refused status
has_required broken = broken
has_required (accepted a) =
    if is_member (codes "[Content_Types].xml") a.names
      && is_member (codes "word/document.xml") a.names
    then accepted tt
    else refused "invalid_file_content"

unfoldable pub validate_docx_archive : Parsed (List Entry) → Processed (Unit {0})
unfolding read_entries
validate_docx_archive not_parsed = refused "invalid_file_content"
validate_docx_archive parser_raises = broken
validate_docx_archive (parsed entries) =
    if ltb max_docx_zip_entries (length entries)
    then refused "invalid_file_content"
    else has_required (read_entries entries (record { names = []; uncompressed_bytes = 0 }))

-- A control character that is no line end and no tab.
abbrev pub is_control : ℕ → Bool
is_control c = ltb c 32 && not (c == 10 || c == 13 || c == 9)

abbrev pub has_control : Text → Bool
has_control [] = false
has_control (c ∷ cs) = is_control c || has_control cs

abbrev pub validate_text_payload : Option Text → Processed (Unit {0})
validate_text_payload none = refused "invalid_file_content"
validate_text_payload (some text) =
    if has_control text then refused "invalid_file_content" else accepted tt

abbrev pub starts_with : Text → Text → Bool
starts_with [] bytes = true
starts_with (p ∷ ps) [] = false
starts_with (p ∷ ps) (b ∷ bs) = p == b && starts_with ps bs

-- `sanitize_filename` of a text.
unfoldable pub sanitize_filename : Text → Text
unfolding last_part
sanitize_filename value =
    let filename = last_part [] (map replace_backslash value) in
    if is_empty_name filename
      || list_eq filename (codes ".")
      || list_eq filename (codes "..")
      || is_in_text 0 filename
      || ltb 255 (length filename)
    then []
    else filename

abbrev pub is_text_extension : Text → Bool
is_text_extension e = list_eq e (codes ".txt") || list_eq e (codes ".md")

-- The pages of a PDF that have text, numbered from 1.
abbrev pub add_page : ℕ → Text → Processed (List ExtractedPage) → Processed (List ExtractedPage)
add_page n text (refused status) = refused status
add_page n text broken = broken
add_page n [] (accepted rest) = accepted rest
add_page n (c ∷ cs) (accepted rest) =
    accepted (record { page_number = some n; content = c ∷ cs } ∷ rest)

abbrev pub any_pages : Processed (List ExtractedPage) → Processed (List ExtractedPage)
any_pages (accepted []) = refused "unsupported_ocr_required"
any_pages r = r

module _ (f : Formats) where
  -- `rstrip` of a line.
  abbrev pub rstrip : Text → Text
  rstrip line = reverse (lstrip f.is_space (reverse line))

  unfoldable pub extension_for : Text → Text
  unfolding last_part last_dot
  extension_for filename =
      let name = last_part [] (map replace_backslash filename) in
      f.lower (from_dot name (last_dot 0 none name))

  unfoldable pub normalize_text : Text → Text
  unfolding strip lstrip
  normalize_text text =
      strip f.is_space (join_lines (map rstrip (f.splitlines (without_null text))))

  unfoldable pub validate_file_content : Text → Text → Processed (Unit {0})
  unfolding sanitize_filename extension_for validate_docx_archive
  validate_file_content filename bytes =
      let extension = extension_for filename in
      if not (list_eq (sanitize_filename filename) filename)
      then refused "invalid_filename"
      else if is_text_extension extension
      then validate_text_payload (f.decode bytes)
      else if list_eq extension (codes ".pdf")
      then if starts_with (codes "%PDF-") bytes then accepted tt else refused "invalid_file_content"
      else if list_eq extension (codes ".docx")
      then validate_docx_archive (f.zip_entries bytes)
      else refused "unsupported_extension"

  abbrev pub one_page : Option Text → Processed (List ExtractedPage)
  one_page none = refused "invalid_file_content"
  one_page (some text) =
      accepted (record { page_number = none; content = normalize_text text } ∷ [])

  unfoldable pub extract_pages : ℕ → List (Option Text) → Bool → Processed (List ExtractedPage)
  unfolding normalize_text
  extract_pages n [] raises = if raises then broken else accepted []
  extract_pages n (none ∷ ps) raises = refused "invalid_pdf"
  extract_pages n (some text ∷ ps) raises =
      add_page n (normalize_text text) (extract_pages (suc n) ps raises)

  unfoldable pub extract_pdf : Pdf → Processed (List ExtractedPage)
  unfolding extract_pages
  extract_pdf unreadable = refused "invalid_pdf"
  extract_pdf encrypted = refused "unsupported_encryption"
  extract_pdf (pages ps raises) = any_pages (extract_pages 1 ps raises)

  abbrev pub extract_docx : Parsed (List Text) → Processed (List ExtractedPage)
  extract_docx not_parsed = refused "invalid_docx"
  extract_docx parser_raises = broken
  extract_docx (parsed paragraphs) =
      accepted
        (record { page_number = none; content = normalize_text (join_lines paragraphs) } ∷ [])

  abbrev pub extract_valid : Text → Text → Processed (Unit {0}) → Processed (List ExtractedPage)
  extract_valid extension bytes (refused status) = refused status
  extract_valid extension bytes broken = broken
  extract_valid extension bytes (accepted _) =
      if is_text_extension extension
      then one_page (f.decode bytes)
      else if list_eq extension (codes ".pdf")
      then extract_pdf (f.read_pdf bytes)
      else if list_eq extension (codes ".docx")
      then extract_docx (f.read_docx bytes)
      else refused "unsupported_extension"

  unfoldable pub extract_document : Text → Text → Processed (List ExtractedPage)
  unfolding extension_for validate_file_content normalize_text extract_pdf
  extract_document filename bytes =
      extract_valid (extension_for filename) bytes (validate_file_content filename bytes)
