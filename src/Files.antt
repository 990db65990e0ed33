-- ===== src/Files.antt =====
-- my_files.py: how a document is cut into chunks. A text is the list of its code points; what
-- `str.strip` takes for white space is the test `is_space`.
pub mod Cover
pub mod Index
pub mod Content
mod Examples
use Prim.Native.Char.{code}
use Prim.Native.String
use mathlib.Core.List.{reverse}
use ahmed_agent.Base.{
  ℕ, zero, suc, ◌+◌, ◌-◌, ◌/◌, Bool, true, false, Option, none, some, String, List, [], ◌∷◌, ◌++◌,
  map, length, take, min, max, ltb, leb, ◌==◌, if◌then◌else◌,
}

abbrev pub Text : Type 0
Text = List ℕ

-- The text of a literal.
abbrev pub codes : String → Text
codes String.[] = []
codes (String.◌∷◌ c s) = code c ∷ codes s

abbrev pub drop : ℕ → Text → Text
drop zero cs = cs
drop (suc n) [] = []
drop (suc n) (c ∷ cs) = drop n cs

-- `content[start:end]`, for `start <= end`.
abbrev pub slice : Text → ℕ → ℕ → Text
slice content start end = take (end - start) (drop start content)

abbrev pub is_blank : Text → Bool
is_blank [] = false
is_blank (c ∷ _) = c == b' '

-- `content.rfind(" ", start, start + n)`; `none` is -1.
unfoldable pub rfind_space : Text → ℕ → ℕ → Option ℕ
rfind_space content start zero = none
rfind_space content start (suc n) =
    let rest = rfind_space content start n in
    if is_blank (drop (start + n) content) then some (start + n) else rest

-- Where a chunk that does not reach the end of the content is cut.
abbrev pub cut : ℕ → ℕ → ℕ → Option ℕ → ℕ
cut size start end none = end
cut size start end (some boundary) = if ltb (start + size / 2) boundary then boundary else end

-- The end of the chunk that starts at `start`.
unfoldable pub chunk_end : Text → ℕ → ℕ → ℕ
unfolding rfind_space
chunk_end content size start =
    let end = min (length content) (start + size) in
    if ltb end (length content)
    then cut size start end (rfind_space content start (end - start))
    else end

module _ (is_space : ℕ → Bool) where
  unfoldable pub lstrip : Text → Text
  lstrip [] = []
  lstrip (c ∷ cs) = let rest = lstrip cs in if is_space c then rest else c ∷ cs

  -- `str.strip`
  unfoldable pub strip : Text → Text
  unfolding lstrip
  strip cs = reverse (lstrip (reverse (lstrip cs)))

-- `start:end` of a chunk.
pub record Window : Type 0 where
  pub start : ℕ
  pub end : ℕ

abbrev pub also {ℓ} : {A : Type ℓ} → A → Option (List A) → Option (List A)
also a none = none
also a (some rest) = some (a ∷ rest)

-- The loop of `_chunk_content`; `none` where the fuel runs out.
unfoldable pub windows : ℕ → Text → ℕ → ℕ → ℕ → Option (List Window)
unfolding chunk_end
windows zero content size overlap start = none
windows (suc fuel) content size overlap start =
    let end = chunk_end content size start in
    let rest = windows fuel content size overlap (max (end - overlap) (start + 1)) in
    if ltb start (length content)
    then if leb (length content) end
      then some (record { start = start; end = end } ∷ [])
      else also (record { start = start; end = end }) rest
    else some []

-- `if chunk: chunks.append(chunk)`
abbrev pub kept : List Text → List Text
kept [] = []
kept ([] ∷ cs) = kept cs
kept ((c ∷ rest) ∷ cs) = (c ∷ rest) ∷ kept cs

module _ (is_space : ℕ → Bool) where
  abbrev pub cut_out : Text → List Window → List Text
  cut_out content ws = kept (map (λ (w : Window). strip is_space (slice content w.start w.end)) ws)

  abbrev pub cut_all : Text → Option (List Window) → Option (List Text)
  cut_all content none = none
  cut_all content (some ws) = some (cut_out content ws)

  unfoldable pub chunk_content : ℕ → ℕ → Text → Option (List Text)
  unfolding windows
  chunk_content size overlap [] = some []
  chunk_content size overlap (c ∷ cs) =
      cut_all (c ∷ cs) (windows (suc (length (c ∷ cs))) (c ∷ cs) size overlap 0)

pub record ExtractedPage : Type 0 where
  pub page_number : Option ℕ
  pub content : Text

-- The arguments of `build_chunks` that it puts into the metadata of each chunk.
pub record Origin : Type 0 where
  pub document_id : String
  pub filename : Text
  pub mime_type : Option String
  pub file_hash : String
  pub source_type : String
  pub source_id : Option String

pub record DocumentChunk : Type 0 where
  pub chunk_index : ℕ
  pub page_number : Option ℕ
  pub content : Text
  pub metadata : Origin × Option ℕ

-- `chunk_index=len(chunks)`: the chunks of a page are put behind those that are there.
unfoldable pub append_chunks :
    Origin → Option ℕ → List Text → List DocumentChunk → List DocumentChunk
append_chunks origin page_number [] chunks = chunks
append_chunks origin page_number (content ∷ rest) chunks = append_chunks origin page_number rest (
    chunks
    ++ (record {
      chunk_index = length chunks;
      page_number = page_number;
      content = content;
      metadata = (origin, page_number);
    }
        ∷ []))

module _ (is_space : ℕ → Bool) (size overlap : ℕ) (origin : Origin) where
  unfoldable pub build_from : List ExtractedPage → List DocumentChunk → Option (List DocumentChunk)
  unfolding append_chunks chunk_content
  build_from [] chunks = some chunks
  build_from (p ∷ ps) chunks = elim (chunk_content is_space size overlap p.content) [
    | none ↦ none
    | some contents ↦ build_from ps (append_chunks origin p.page_number contents chunks)
  ]

  -- `none` only where the loop of a page ran out of fuel.
  unfoldable pub build_chunks : List ExtractedPage → Option (List DocumentChunk)
  unfolding build_from
  build_chunks pages = build_from pages []
