-- ===== src/Files/Examples.antt =====
-- Texts of a few words, in chunks of eight characters.
use ahmed_agent.Base.{ℕ, ◌<◌, ◌≡◌, refl, Bool, none, some, List, [], ◌∷◌, length, arith, ◌==◌}
use ahmed_agent.Files.{
  codes, Window, chunk_content, cut_out, strip, Origin, ExtractedPage, rfind_space,
}
use ahmed_agent.Files.Cover.{Covers, IsIn, chunk_content_total}

abbrev is_blank : ℕ → Bool
is_blank c = c == b' '

-- A cut at a space, with an overlap of two characters.
cut_at_space :
    chunk_content is_blank 8 2 (codes "alpha beta gamma")
    ≡ some (codes "alpha" ∷ codes "ha beta" ∷ codes "ta gamma" ∷ [])
unfolding chunk_content rfind_space strip
cut_at_space = refl

chunk_content_total_example :
    (ws : List Window) × (chunk_content is_blank 8 2 (codes "alpha beta")
      ≡ some (cut_out is_blank (codes "alpha beta") ws))
    × Covers (length (codes "alpha beta")) 8 0 ws
    × ((i : ℕ) → i < length (codes "alpha beta") → IsIn i ws)
chunk_content_total_example = chunk_content_total is_blank 8 2 (codes "alpha beta") (omega arith)

abbrev origin : Origin
origin = record {
  document_id = "d";
  filename = codes "f.txt";
  mime_type = none;
  file_hash = "h";
  source_type = "text";
  source_id = none;
}

abbrev pages : List ExtractedPage
pages =
    record { page_number = some 1; content = codes "alpha beta" }
    ∷ record { page_number = some 2; content = codes "gamma" }
    ∷ []
