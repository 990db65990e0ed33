-- ===== src/Sources.antt =====
-- source_of_truth.py: the sections of an original source that are shown as evidence, with the
-- redaction of their lines by evidence_core.py.
pub mod Longest
mod Examples
use ahmed_agent.Base.{
  ℕ, ◌+◌, Bool, true, false, Option, none, some, String, List, [], ◌∷◌, ◌++◌, take, length, ltb,
  leb, if◌then◌else◌,
}
use ahmed_agent.Files.{Text, codes, strip, ExtractedPage}

-- What the source uses of Python's library. A substitution takes its replacement for a match: for
-- an assignment by its name and the whole match, for an access to the environment by its prefix,
-- its quote and its name.
pub record Library : Type 0 where
  pub is_space : ℕ → Bool
  pub splitlines : Text → List Text
  pub encoded_size : Text → ℕ
  pub is_secret_name : Text → Bool
  pub sub_assignments : (Text → Text → Text) → Text → Text
  pub sub_env_accesses : (Text → Text → Text → Text) → Text → Text

abbrev pub max_excerpt_bytes : ℕ
max_excerpt_bytes = 6000

abbrev pub max_evidence_items : ℕ
max_evidence_items = 24

pub record Section : Type 0 where
  pub page_number : Option ℕ
  pub line_start : ℕ
  pub line_end : ℕ
  pub content : Text

-- The two loops: still going on, with the sections and the bytes used so far, or returned.
pub data Scan : Type 0 where
  going : List Section → ℕ → Scan
  returned : List Section → Scan

module _ (library : Library) where
  abbrev pub replace_assignment : Text → Text → Text
  replace_assignment name whole_match =
      if library.is_secret_name name then name ++ codes "=[REDACTED]" else whole_match

  abbrev pub replace_env_access : Text → Text → Text → Text
  replace_env_access prefix quote name = prefix ++ (quote ++ (name ++ (quote ++ codes ")")))

  unfoldable pub redact_source_line : Text → Text
  unfolding strip
  redact_source_line line = take 360 (
      strip library.is_space (
        library.sub_env_accesses replace_env_access
          (library.sub_assignments replace_assignment line)))

  -- The body of the inner loop, for a line that is not blank once it is redacted.
  unfoldable pub collect : Option ℕ → ℕ → Text → List Section → ℕ → Scan
  collect page_number line_number redacted sections used_bytes =
      let encoded_size = library.encoded_size redacted in
      let more =
        sections
        ++ (record {
          page_number = page_number;
          line_start = line_number;
          line_end = line_number;
          content = redacted;
        }
            ∷ []) in
      if ltb max_excerpt_bytes (used_bytes + encoded_size)
      then returned sections
      else if leb max_evidence_items (length more)
      then returned more
      else going more (used_bytes + encoded_size)

  unfoldable pub collect_redacted : Option ℕ → ℕ → Text → List Section → ℕ → Scan
  unfolding collect
  collect_redacted page_number line_number [] sections used_bytes = going sections used_bytes
  collect_redacted page_number line_number (c ∷ cs) sections used_bytes =
      collect page_number line_number (c ∷ cs) sections used_bytes

  unfoldable pub take_line : Option ℕ → ℕ → Text → Scan → Scan
  unfolding redact_source_line collect_redacted
  take_line page_number line_number line (returned sections) = returned sections
  take_line page_number line_number line (going sections used_bytes) =
      collect_redacted page_number line_number (redact_source_line line) sections used_bytes

  -- `enumerate(lines, start=1)`
  unfoldable pub take_lines : Option ℕ → ℕ → List Text → Scan → Scan
  unfolding take_line
  take_lines page_number line_number [] scan = scan
  take_lines page_number line_number (line ∷ lines) scan =
      take_lines page_number (line_number + 1) lines (take_line page_number line_number line scan)

  -- `page.content.splitlines() or [page.content]`
  abbrev pub or_whole : List Text → Text → List Text
  or_whole [] content = content ∷ []
  or_whole (line ∷ lines) content = line ∷ lines

  unfoldable pub take_pages : List ExtractedPage → Scan → Scan
  unfolding take_lines
  take_pages [] scan = scan
  take_pages (page ∷ pages) scan =
      take_pages pages (
        take_lines page.page_number 1 (or_whole (library.splitlines page.content) page.content)
          scan)

  abbrev pub scanned : Scan → List Section
  scanned (going sections used_bytes) = sections
  scanned (returned sections) = sections

  unfoldable pub bounded_extracted_sections : List ExtractedPage → List Section
  unfolding take_pages
  bounded_extracted_sections pages = scanned (take_pages pages (going [] 0))
