-- ===== src/Sources/Longest.antt =====
-- The sections that are shown are those of the source's lines, in their order, up to a bound.
use mathlib.Core.List.{append_assoc, append-nil}
use ahmed_agent.Base.{
  ℕ, ◌+◌, ◌≤◌, ◌<◌, ◌≡◌, refl, sym, ap, ◌∙◌, ◌⊎◌, inl, inr, false, Option, List, [], ◌∷◌, ◌++◌,
  length, length-append, ltb, leb, ltb→lt, leb→le, arith, Bool-cases,
}
use ahmed_agent.Files.{Text, ExtractedPage}
use ahmed_agent.Sources.{
  Library, max_excerpt_bytes, max_evidence_items, Section, Scan, going, returned,
  redact_source_line, collect, collect_redacted, take_line, take_lines, or_whole, take_pages,
  scanned, bounded_extracted_sections,
}

ltb→ge : (a b : ℕ) → ltb a b ≡ false → b ≤ a
ltb→ge a b h = ground arith

leb→lt : (a b : ℕ) → leb a b ≡ false → b < a
leb→lt a b h = ground arith

module _ (library : Library) where
  -- The section of a redacted line, none where nothing is left of it.
  abbrev pub section_of : Option ℕ → ℕ → Text → List Section
  section_of page_number n [] = []
  section_of page_number n (c ∷ cs) =
      record { page_number = page_number; line_start = n; line_end = n; content = c ∷ cs } ∷ []

  abbrev pub sections_of : Option ℕ → ℕ → List Text → List Section
  sections_of page_number n [] = []
  sections_of page_number n (line ∷ lines) =
      section_of page_number n (redact_source_line library line)
      ++ sections_of page_number (n + 1) lines

  -- All sections of a source.
  abbrev pub all_sections : List ExtractedPage → List Section
  all_sections [] = []
  all_sections (page ∷ pages) =
      sections_of page.page_number 1
        (or_whole library (library.splitlines page.content) page.content)
      ++ all_sections pages

  abbrev pub bytes : List Section → ℕ
  bytes [] = 0
  bytes (s ∷ ss) = library.encoded_size s.content + bytes ss

  -- No section more: there are as many as allowed, or the next one has too many bytes.
  abbrev pub IsFull : List Section → List Section → Type 0
  IsFull shown rest =
      (length shown ≡ max_evidence_items)
      ⊎ ((next : Section) × (others : List Section) × (rest ≡ next ∷ others)
          × max_excerpt_bytes < bytes shown + library.encoded_size next.content)

  Follows : Scan → List Section → Type 0
  Follows (going shown used) seen =
      (seen ≡ shown)
      × (used ≡ bytes shown)
      × (used ≤ max_excerpt_bytes)
      × length shown < max_evidence_items
  Follows (returned shown) seen =
      (rest : List Section) × (seen ≡ shown ++ rest)
      × (bytes shown ≤ max_excerpt_bytes)
      × (length shown ≤ max_evidence_items)
      × IsFull shown rest

  bytes-append : (xs ys : List Section) → bytes (xs ++ ys) ≡ bytes xs + bytes ys
  bytes-append [] ys = omega arith
  bytes-append (x ∷ xs) ys = omega (arith, bytes-append xs ys)

  collect-Follows :
      (page_number : Option ℕ) (n : ℕ) (c : ℕ) (cs : Text) (shown : List Section) (used : ℕ)
      → used ≡ bytes shown
      → used ≤ max_excerpt_bytes
      → length shown < max_evidence_items
      → Follows
          (collect library page_number n (c ∷ cs) shown used)
          (shown ++ section_of page_number n (c ∷ cs))
  unfolding collect Follows
  collect-Follows page_number n c cs shown used uses fits few =
      let next : List Section = section_of page_number n (c ∷ cs) in
      let size = library.encoded_size (c ∷ cs) in
      let sum = bytes-append shown next in
      let count = length-append shown next in
      elim (Bool-cases (ltb max_excerpt_bytes (used + size))) [
        | inl big ↦ rw big (
          next,
          refl,
          omega (arith, uses, fits),
          omega (arith, few),
          inr (_, [], refl, omega (arith, ltb→lt _ _ big, uses)),
        )
        | inr small ↦
            let within = ltb→ge _ _ small in
            rw small (elim (Bool-cases (leb max_evidence_items (length (shown ++ next)))) [
              | inl many ↦
                  let full = leb→le _ _ many in
                  rw many (
                    [],
                    sym (append-nil (shown ++ next)),
                    omega (arith, sum, uses, within),
                    omega (arith, count, few),
                    inl (omega (arith, count, few, full)),
                  )
              | inr more ↦ rw more (refl, omega (arith, sum, uses), within, leb→lt _ _ more)
            ])
      ]

  collect_redacted-Follows :
      (page_number : Option ℕ) (n : ℕ) (redacted : Text) (shown : List Section) (used : ℕ)
      → used ≡ bytes shown
      → used ≤ max_excerpt_bytes
      → length shown < max_evidence_items
      → Follows
          (collect_redacted library page_number n redacted shown used)
          (shown ++ section_of page_number n redacted)
  unfolding collect_redacted Follows
  collect_redacted-Follows page_number n [] shown used uses fits few =
      (append-nil shown, uses, fits, few)
  collect_redacted-Follows page_number n (c ∷ cs) shown used uses fits few =
      collect-Follows page_number n c cs shown used uses fits few

  returned-Follows :
      (shown seen more : List Section)
      → Follows (returned shown) seen
      → Follows (returned shown) (seen ++ more)
  unfolding Follows
  returned-Follows shown seen more (rest, splits, fits, few, inl full) = (
    rest ++ more,
    ap (λ ss. ss ++ more) splits ∙ append_assoc shown rest more,
    fits,
    few,
    inl full,
  )
  returned-Follows shown seen more (rest, splits, fits, few, inr (next, others, is, big)) = (
    rest ++ more,
    ap (λ ss. ss ++ more) splits ∙ append_assoc shown rest more,
    fits,
    few,
    inr (next, others ++ more, ap (λ ss. ss ++ more) is, big),
  )

  line-Follows :
      (page_number : Option ℕ) (n : ℕ) (line : Text) (scan : Scan) (seen : List Section)
      → Follows scan seen
      → Follows
          (take_line library page_number n line scan)
          (seen ++ section_of page_number n (redact_source_line library line))
  unfolding take_line Follows
  line-Follows page_number n line (returned shown) seen follows =
      returned-Follows shown seen (section_of page_number n (redact_source_line library line))
        follows
  line-Follows page_number n line (going shown used) seen (is, uses, fits, few) = rw is (
      collect_redacted-Follows page_number n (redact_source_line library line) shown used uses fits
        few)

  lines-Follows :
      (page_number : Option ℕ) (n : ℕ) (lines : List Text) (scan : Scan) (seen : List Section)
      → Follows scan seen
      → Follows
          (take_lines library page_number n lines scan)
          (seen ++ sections_of page_number n lines)
  unfolding take_lines
  lines-Follows page_number n [] scan seen follows = rw (append-nil seen) follows
  lines-Follows page_number n (line ∷ lines) scan seen follows =
      rw
        (sym (
          append_assoc seen (section_of page_number n (redact_source_line library line))
            (sections_of page_number (n + 1) lines)))
        (lines-Follows page_number (n + 1) lines _ _
          (line-Follows page_number n line scan seen follows))

  pages-Follows :
      (pages : List ExtractedPage) (scan : Scan) (seen : List Section)
      → Follows scan seen
      → Follows (take_pages library pages scan) (seen ++ all_sections pages)
  unfolding take_pages
  pages-Follows [] scan seen follows = rw (append-nil seen) follows
  pages-Follows (page ∷ pages) scan seen follows =
      rw
        (sym (
          append_assoc seen
            (sections_of page.page_number 1
              (or_whole library (library.splitlines page.content) page.content))
            (all_sections pages)))
        (pages-Follows pages _ _ (lines-Follows page.page_number 1 _ scan seen follows))

  scanned-IsLongest :
      (scan : Scan) (all : List Section)
      → Follows scan all
      → (rest : List Section) × (all ≡ scanned library scan ++ rest)
        × (bytes (scanned library scan) ≤ max_excerpt_bytes)
        × (length (scanned library scan) ≤ max_evidence_items)
        × ((rest ≡ []) ⊎ IsFull (scanned library scan) rest)
  unfolding Follows
  scanned-IsLongest (going shown used) all (is, uses, fits, few) =
      ([], is ∙ sym (append-nil shown), omega (arith, uses, fits), omega (arith, few), inl refl)
  scanned-IsLongest (returned shown) all (rest, splits, fits, few, full) =
      (rest, splits, fits, few, inr full)

  -- The sections that are shown are the first sections of the source, in its order and with its line
  -- numbers, at most 24 of them and at most 6000 bytes together; and if sections are left out, there
  -- are 24 already or the first one left out would exceed the bytes.
  pub sections_longest :
      (pages : List ExtractedPage)
      → (rest : List Section) × (all_sections pages
          ≡ bounded_extracted_sections library pages ++ rest)
        × (bytes (bounded_extracted_sections library pages) ≤ max_excerpt_bytes)
        × (length (bounded_extracted_sections library pages) ≤ max_evidence_items)
        × ((rest ≡ []) ⊎ IsFull (bounded_extracted_sections library pages) rest)
  unfolding bounded_extracted_sections Follows
  sections_longest pages =
      scanned-IsLongest (take_pages library pages (going [] 0)) (all_sections pages)
        (pages-Follows pages (going [] 0) [] (refl, refl, omega arith, omega arith))
