-- ===== src/Files/Index.antt =====
-- The chunks of a document are numbered from 0 on.
use ahmed_agent.Base.{
  ℕ, suc, ◌+◌, ◌<◌, ◌≡◌, refl, Bool, Option, some, List, [], ◌∷◌, ◌++◌, length, arith,
}
use ahmed_agent.Files.{
  Text, Origin, ExtractedPage, DocumentChunk, append_chunks, build_from, build_chunks, cut_out,
}
use ahmed_agent.Files.Cover.{chunk_content_total}

-- The numbers of the chunks are `n`, `n + 1`, and so on.
abbrev pub NumberedFrom : ℕ → List DocumentChunk → Type 0
NumberedFrom n [] = Unit
NumberedFrom n (c ∷ cs) = (c.chunk_index ≡ n) × NumberedFrom (suc n) cs

NumberedFrom-append :
    (n : ℕ) (cs : List DocumentChunk) (c : DocumentChunk)
    → NumberedFrom n cs
    → c.chunk_index ≡ n + length cs
    → NumberedFrom n (cs ++ (c ∷ []))
NumberedFrom-append n [] c h e = (omega (arith, e), tt)
NumberedFrom-append n (d ∷ cs) c (first, rest) e =
    (first, NumberedFrom-append (suc n) cs c rest (omega (arith, e)))

append_chunks-NumberedFrom :
    (origin : Origin) (page_number : Option ℕ) (contents : List Text) (chunks : List DocumentChunk)
    → NumberedFrom 0 chunks
    → NumberedFrom 0 (append_chunks origin page_number contents chunks)
unfolding append_chunks
append_chunks-NumberedFrom origin page_number [] chunks h = h
append_chunks-NumberedFrom origin page_number (content ∷ rest) chunks h =
    append_chunks-NumberedFrom origin page_number rest _
      (NumberedFrom-append 0 chunks _ h (omega arith))

module _ (is_space : ℕ → Bool) (size overlap : ℕ) (origin : Origin) (positive : 0 < size) where
  build_numbered :
      (pages : List ExtractedPage) (chunks : List DocumentChunk)
      → NumberedFrom 0 chunks
      → (built : List DocumentChunk) × (build_from is_space size overlap origin pages chunks
          ≡ some built)
        × NumberedFrom 0 built
  unfolding build_from
  build_numbered [] chunks h = (chunks, refl, h)
  build_numbered (p ∷ ps) chunks h =
      let (ws, total, covers, inside) =
        chunk_content_total is_space size overlap p.content positive in
      rw (build_from, total)
        (build_numbered ps _ (
          append_chunks-NumberedFrom origin p.page_number (cut_out is_space p.content ws) chunks h))

  -- The chunks of a document are built for every list of pages, and are numbered from 0 on without
  -- a gap across the pages. The size of a chunk is not 0.
  pub build_chunks-NumberedFrom :
      (pages : List ExtractedPage)
      → (built : List DocumentChunk) × (build_chunks is_space size overlap origin pages
          ≡ some built)
        × NumberedFrom 0 built
  unfolding build_chunks
  build_chunks-NumberedFrom pages = build_numbered pages [] tt
