-- ===== src/Files/Cover.antt =====
-- The chunks of a text cover it: the loop ends, and no character is left out.
use ahmed_agent.Base.{
  ℕ, zero, suc, ◌+◌, ◌-◌, ◌≤◌, ◌<◌, ◌≡◌, refl, ◌⊎◌, inl, inr, Bool, some, List, [], ◌∷◌, length,
  min, max, ltb, leb, arith, Bool-cases, Option-cases, lt→ltb, ltb→lt,
}
use ahmed_agent.Files.{Text, rfind_space, cut, chunk_end, Window, windows, chunk_content, cut_out}

-- The windows cover the text from `start` to its end `n`, each by 1 to `size` characters, and each
-- of the others starts behind the start of the one before it and not behind its end.
abbrev pub Covers : ℕ → ℕ → ℕ → List Window → Type 0
Covers n size start [] = n ≤ start
Covers n size start (w ∷ ws) =
    (w.start ≡ start)
    × (w.start < w.end)
    × (w.end ≤ w.start + size)
    × (w.end ≤ n)
    × (((w.end ≡ n) × (ws ≡ []))
        ⊎ ((next : ℕ) × (w.start < next) × (next ≤ w.end) × (next < n) × Covers n size next ws))

rfind_bounds :
    (content : Text) (start n b : ℕ)
    → rfind_space content start n ≡ some b
    → (start ≤ b) × (b < start + n)
unfolding rfind_space
rfind_bounds content start zero b e = absurd (cc e)
rfind_bounds content start (suc n) b e = ground (arith, rfind_bounds content start n b)

cut_bounds :
    (content : Text) (size start end n : ℕ)
    → start < end
    → end ≡ start + n
    → (start < cut size start end (rfind_space content start n))
      × (cut size start end (rfind_space content start n) ≤ end)
cut_bounds content size start end n inside is = elim (Option-cases (rfind_space content start n)) [
  | inl missing ↦ rw missing (omega arith, omega arith)
  | inr (b, found) ↦
      let (low, high) = rfind_bounds content start n b found in rw found (ground arith)
]

chunk_end_bounds :
    (content : Text) (size start : ℕ)
    → 0 < size
    → start < length content
    → (start < chunk_end content size start)
      × (chunk_end content size start ≤ start + size)
      × (chunk_end content size start ≤ length content)
unfolding chunk_end
chunk_end_bounds content size start positive inside =
    let end = min (length content) (start + size) in
    let (low, high) = cut_bounds content size start end (end - start) (omega arith) (omega arith) in
    elim (Bool-cases (ltb end (length content))) [
      | inl more ↦ rw more (low, omega (arith, high), omega (arith, high))
      | inr last ↦ rw last (omega arith, omega arith, omega arith)
    ]

-- The loop with enough fuel.
windows_cover :
    (fuel : ℕ) (content : Text) (size overlap start : ℕ)
    → 0 < size
    → start < length content
    → length content ≤ start + fuel
    → (ws : List Window) × (windows fuel content size overlap start ≡ some ws)
      × Covers (length content) size start ws
unfolding windows
windows_cover zero content size overlap start positive inside enough = absurd (omega arith)
windows_cover (suc fuel) content size overlap start positive inside enough =
    let end = chunk_end content size start in
    let (low, high, within) = chunk_end_bounds content size start positive inside in
    let first : Window = record { start = start; end = end } in
    elim (Bool-cases (leb (length content) end)) [
      | inl done ↦ (
        first ∷ [],
        rw (lt→ltb start (length content) inside, done) refl,
        (refl, low, high, within, inl (ground arith, refl)),
      )
      | inr more ↦
          let next = max (end - overlap) (start + 1) in
          let room : end < length content = ground arith in
          let (ws, runs, covers) =
            windows_cover fuel content size overlap next positive (omega arith) (omega arith) in
          (
            first ∷ ws,
            rw (lt→ltb start (length content) inside, more, runs) refl,
            (refl, low, high, within, inr (next, omega arith, omega arith, omega arith, covers)),
          )
    ]

-- The position lies in one of the windows.
abbrev pub IsIn : ℕ → List Window → Type 0
IsIn i [] = i < 0
IsIn i (w ∷ ws) = ((w.start ≤ i) × (i < w.end)) ⊎ IsIn i ws

covered :
    (n size start i : ℕ) (ws : List Window) → Covers n size start ws → start ≤ i → i < n → IsIn i ws
covered n size start i [] c low high = absurd (omega arith)
covered n size start i (w ∷ ws) (is, some_, short, within, rest) low high =
    elim (Bool-cases (ltb i w.end)) [
      | inl here ↦ inl (omega (arith, is), ltb→lt i w.end here)
      | inr later ↦ inr (elim rest [
        | inl (last, none_) ↦ absurd (ground arith)
        | inr (next, after, before, inside, c) ↦ covered n size next i ws c (ground arith) high
      ])
    ]

-- The loop of a text ends for every chunk size but 0 and every overlap, and gives the chunks of a
-- list of windows that covers the text: each window has 1 to `size` characters, each but the first
-- starts behind the start of the one before and not behind its end, the last one ends where the
-- text does, and every position of the text lies in a window.
pub chunk_content_total :
    (is_space : ℕ → Bool) (size overlap : ℕ) (content : Text)
    → 0 < size
    → (ws : List Window) × (chunk_content is_space size overlap content
        ≡ some (cut_out is_space content ws))
      × Covers (length content) size 0 ws
      × ((i : ℕ) → i < length content → IsIn i ws)
unfolding chunk_content
chunk_content_total is_space size overlap [] positive =
    ([], refl, omega arith, λ i inside. absurd (omega arith))
chunk_content_total is_space size overlap (c ∷ cs) positive =
    let (ws, runs, covers) =
      windows_cover (suc (length (c ∷ cs))) (c ∷ cs) size overlap 0 positive (omega arith)
        (omega arith) in
    (
      ws,
      rw runs refl,
      covers,
      λ i inside. covered (length (c ∷ cs)) size 0 i ws covers (omega arith) inside,
    )
