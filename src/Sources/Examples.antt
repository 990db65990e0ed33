-- ===== src/Sources/Examples.antt =====
-- A page of three lines, one of which is blank and one of which sets a secret.
use ahmed_agent.Base.{
  ℕ, ◌≤◌, ◌≡◌, refl, ◌⊎◌, Bool, false, some, List, [], ◌∷◌, ◌++◌, length, ◌==◌, if◌then◌else◌,
}
use ahmed_agent.Files.{Text, codes, ExtractedPage, strip}
use ahmed_agent.Sources.{
  Library, max_excerpt_bytes, max_evidence_items, Section, bounded_extracted_sections,
  redact_source_line, take_pages, take_lines, take_line, collect_redacted, collect,
}
use ahmed_agent.Sources.Longest.{all_sections, bytes, IsFull, sections_longest}

abbrev put_in_front : ℕ → List Text → List Text
put_in_front c [] = (c ∷ []) ∷ []
put_in_front c (line ∷ lines) = (c ∷ line) ∷ lines

-- A line ends at a semicolon.
abbrev split_at_semicolons : Text → List Text
split_at_semicolons [] = []
split_at_semicolons (c ∷ cs) =
    let rest = split_at_semicolons cs in if c == b';' then [] ∷ rest else put_in_front c rest

-- The names that start with a `k` are secret.
abbrev starts_with_k : Text → Bool
starts_with_k [] = false
starts_with_k (c ∷ cs) = c == b'k'

-- Every line is an assignment, to the name of its first character.
abbrev replace_lines : (Text → Text → Text) → Text → Text
replace_lines replace [] = []
replace_lines replace (c ∷ cs) = replace (c ∷ []) (c ∷ cs)

abbrev library : Library
library = record {
  is_space = λ c. c == b' ';
  splitlines = split_at_semicolons;
  encoded_size = length;
  is_secret_name = starts_with_k;
  sub_assignments = replace_lines;
  sub_env_accesses = λ replace line. line;
}

abbrev pages : List ExtractedPage
pages = record { page_number = some 4; content = codes "a=1;;k=2" } ∷ []

secret_line_redacted :
    bounded_extracted_sections library pages
    ≡ record { page_number = some 4; line_start = 1; line_end = 1; content = codes "a=1" }
      ∷ record {
        page_number = some 4;
        line_start = 3;
        line_end = 3;
        content = codes "k=[REDACTED]";
      }
      ∷ []
unfolding bounded_extracted_sections take_pages take_lines take_line collect_redacted collect
    redact_source_line strip
secret_line_redacted = refl

sections_longest_example :
    (rest : List Section) × (all_sections library pages
      ≡ bounded_extracted_sections library pages ++ rest)
    × (bytes library (bounded_extracted_sections library pages) ≤ max_excerpt_bytes)
    × (length (bounded_extracted_sections library pages) ≤ max_evidence_items)
    × ((rest ≡ []) ⊎ IsFull library (bounded_extracted_sections library pages) rest)
sections_longest_example = sections_longest library pages
