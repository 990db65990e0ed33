-- ===== src/Search/Distinct.antt =====
-- The merged results are of different URLs.
use mathlib.Core.Option.{some-injective}
use ahmed_agent.Base.{
  ℕ, zero, suc, ◌+◌, ◌≤◌, ◌≡◌, ◌≢◌, refl, sym, ap, ◌∙◌, inl, inr, Bool, true, false, Option, none,
  some, String, List, [], ◌∷◌, ◌++◌, length, length-take, take, str_eq, eq_iff, arith, All,
  All-append, if◌then◌else◌, Bool-cases,
}
use ahmed_agent.Search.{
  NormalizedSearchResult, Groups, lookup, append_at, place_new, place_found, group_results, greater,
  greatest, Fused, fuse, insert_fused, sort_fused, no_groups, merge_results,
}

-- The dictionary says of each result of the groups in which of them it is, counted from `k`.
abbrev IsIndexed : List (String × ℕ) → ℕ → List (List NormalizedSearchResult) → Type 0
IsIndexed m k [] = Unit
IsIndexed m k (g ∷ gs) =
    All (λ (r : NormalizedSearchResult). lookup r.canonical_url m ≡ some k) g
    × IsIndexed m (k + 1) gs

append_at-IsIndexed :
    (m : List (String × ℕ)) (i k : ℕ) (r : NormalizedSearchResult)
    (gs : List (List NormalizedSearchResult))
    → lookup r.canonical_url m ≡ some (k + i)
    → IsIndexed m k gs
    → IsIndexed m k (append_at i r gs)
append_at-IsIndexed m i k r [] found h = tt
append_at-IsIndexed m zero k r (g ∷ gs) found (h, hs) =
    (All-append _ g (r ∷ []) h (found ∙ ap some (omega arith), tt), hs)
append_at-IsIndexed m (suc i) k r (g ∷ gs) found (h, hs) =
    (h, append_at-IsIndexed m i (k + 1) r gs (found ∙ ap some (omega arith)) hs)

-- A new key does not hide the others.
lookup_kept :
    (m : List (String × ℕ)) (url url' : String) (i k : ℕ)
    → lookup url m ≡ none
    → lookup url' m ≡ some k
    → lookup url' ((url, i) ∷ m) ≡ some k
lookup_kept m url url' i k missing found = elim (Bool-cases (str_eq url url')) [
  | inr other ↦ rw other found
  | inl same ↦
      absurd (cc (sym missing ∙ ap (λ (u : String). lookup u m) ((eq_iff url url').0 same) ∙ found))
]

group_kept :
    (m : List (String × ℕ)) (url : String) (i k : ℕ) (g : List NormalizedSearchResult)
    → lookup url m ≡ none
    → All (λ (r : NormalizedSearchResult). lookup r.canonical_url m ≡ some k) g
    → All (λ (r : NormalizedSearchResult). lookup r.canonical_url ((url, i) ∷ m) ≡ some k) g
group_kept m url i k [] missing h = tt
group_kept m url i k (r ∷ rs) missing (h, hs) =
    (lookup_kept m url r.canonical_url i k missing h, group_kept m url i k rs missing hs)

groups_kept :
    (m : List (String × ℕ)) (url : String) (i k : ℕ) (gs : List (List NormalizedSearchResult))
    → lookup url m ≡ none
    → IsIndexed m k gs
    → IsIndexed ((url, i) ∷ m) k gs
groups_kept m url i k [] missing h = tt
groups_kept m url i k (g ∷ gs) missing (h, hs) =
    (group_kept m url i k g missing h, groups_kept m url i (k + 1) gs missing hs)

new_key : (m : List (String × ℕ)) (url : String) (i : ℕ) → lookup url ((url, i) ∷ m) ≡ some i
new_key m url i = rw ((eq_iff url url).1 refl) refl

append-IsIndexed :
    (m : List (String × ℕ)) (k : ℕ) (r : NormalizedSearchResult)
    (gs : List (List NormalizedSearchResult))
    → lookup r.canonical_url m ≡ some (k + length gs)
    → IsIndexed m k gs
    → IsIndexed m k (gs ++ ((r ∷ []) ∷ []))
append-IsIndexed m k r [] found h = ((found ∙ ap some (omega arith), tt), tt)
append-IsIndexed m k r (g ∷ gs) found (h, hs) =
    (h, append-IsIndexed m (k + 1) r gs (found ∙ ap some (omega arith)) hs)

module _ (similar : String → String → Bool) where
  place_new-IsIndexed :
      (o : Option ℕ) (r : NormalizedSearchResult) (g : Groups)
      → lookup r.canonical_url g.by_url ≡ none
      → IsIndexed g.by_url 0 g.groups
      → IsIndexed (place_new similar o r g).by_url 0 (place_new similar o r g).groups
  unfolding place_new
  place_new-IsIndexed none r g missing h =
      append-IsIndexed ((r.canonical_url, length g.groups) ∷ g.by_url) 0 r g.groups
        (new_key g.by_url r.canonical_url (length g.groups) ∙ ap some (omega arith))
        (groups_kept g.by_url r.canonical_url (length g.groups) 0 g.groups missing h)
  place_new-IsIndexed (some i) r g missing h =
      append_at-IsIndexed ((r.canonical_url, i) ∷ g.by_url) i 0 r g.groups
        (new_key g.by_url r.canonical_url i ∙ ap some (omega arith))
        (groups_kept g.by_url r.canonical_url i 0 g.groups missing h)

  place_found-IsIndexed :
      (o : Option ℕ) (r : NormalizedSearchResult) (g : Groups)
      → lookup r.canonical_url g.by_url ≡ o
      → IsIndexed g.by_url 0 g.groups
      → IsIndexed (place_found similar o r g).by_url 0 (place_found similar o r g).groups
  unfolding place_found
  place_found-IsIndexed none r g missing h = place_new-IsIndexed _ r g missing h
  place_found-IsIndexed (some i) r g found h =
      append_at-IsIndexed g.by_url i 0 r g.groups (found ∙ ap some (omega arith)) h

  group_results-IsIndexed :
      (rs : List NormalizedSearchResult) (g : Groups)
      → IsIndexed g.by_url 0 g.groups
      → IsIndexed (group_results similar rs g).by_url 0 (group_results similar rs g).groups
  unfolding group_results
  group_results-IsIndexed [] g h = h
  group_results-IsIndexed (r ∷ rs) g h =
      group_results-IsIndexed rs (place_found similar (lookup r.canonical_url g.by_url) r g)
        (place_found-IsIndexed _ r g refl h)

-- The representative of a group is one of it.
greatest_All :
    (P : NormalizedSearchResult → Type 0) (best : NormalizedSearchResult)
    (rs : List NormalizedSearchResult)
    → P best
    → All P rs
    → P (greatest best rs)
unfolding greatest
greatest_All P best [] h hs = h
greatest_All P best (r ∷ rs) h (hr, hs) =
    greatest_All P (if greater r best then r else best) rs (chosen (greater r best)) hs
  where
    chosen : (b : Bool) → P (if b then r else best)
    chosen true = hr
    chosen false = h

-- No two results have the same URL.
abbrev pub AreDistinct : List Fused → Type 0
AreDistinct [] = Unit
AreDistinct (f ∷ fs) =
    All (λ (x : Fused). x.representative.canonical_url ≢ f.representative.canonical_url) fs
    × AreDistinct fs

-- The URLs of the results are at positions from `k` on.
abbrev IsAfter : List (String × ℕ) → ℕ → Fused → Type 0
IsAfter m k f = (i : ℕ) × (k ≤ i) × (lookup f.representative.canonical_url m ≡ some i)

fuse-IsAfter :
    (m : List (String × ℕ)) (k : ℕ) (gs : List (List NormalizedSearchResult)) (j : ℕ)
    → j ≤ k
    → IsIndexed m k gs
    → All (IsAfter m j) (fuse gs)
unfolding fuse
fuse-IsAfter m k [] j low h = tt
fuse-IsAfter m k ([] ∷ gs) j low (h, hs) = fuse-IsAfter m (k + 1) gs j (omega arith) hs
fuse-IsAfter m k ((r ∷ rs) ∷ gs) j low ((h, more), hs) = (
  (
    k,
    low,
    greatest_All (λ (x : NormalizedSearchResult). lookup x.canonical_url m ≡ some k) r rs h more,
  ),
  fuse-IsAfter m (k + 1) gs j (omega arith) hs,
)

differ_from :
    (m : List (String × ℕ)) (k : ℕ) (url : String) (fs : List Fused)
    → lookup url m ≡ some k
    → All (IsAfter m (k + 1)) fs
    → All (λ (x : Fused). x.representative.canonical_url ≢ url) fs
differ_from m k url [] found h = tt
differ_from m k url (x ∷ xs) found ((i, later, there), hs) = (
  λ e.
      let same = sym there ∙ ap (λ (u : String). lookup u m) e ∙ found in
      absurd (omega (arith, some-injective _ _ same)),
  differ_from m k url xs found hs,
)

fuse-AreDistinct :
    (m : List (String × ℕ)) (k : ℕ) (gs : List (List NormalizedSearchResult))
    → IsIndexed m k gs
    → AreDistinct (fuse gs)
unfolding fuse
fuse-AreDistinct m k [] h = tt
fuse-AreDistinct m k ([] ∷ gs) (h, hs) = fuse-AreDistinct m (k + 1) gs hs
fuse-AreDistinct m k ((r ∷ rs) ∷ gs) ((h, more), hs) = (
  differ_from m k (greatest r rs).canonical_url (fuse gs)
      (greatest_All (λ (x : NormalizedSearchResult). lookup x.canonical_url m ≡ some k) r rs h more)
      (fuse-IsAfter m (k + 1) gs (k + 1) (omega arith) hs),
  fuse-AreDistinct m (k + 1) gs hs,
)

All-take {ℓ κ} : {A : Type ℓ} (P : A → Type κ) (n : ℕ) (xs : List A) → All P xs → All P (take n xs)
All-take P zero xs h = tt
All-take P (suc n) [] h = tt
All-take P (suc n) (x ∷ xs) (h, hs) = (h, All-take P n xs hs)

take-AreDistinct : (n : ℕ) (fs : List Fused) → AreDistinct fs → AreDistinct (take n fs)
take-AreDistinct zero fs h = tt
take-AreDistinct (suc n) [] h = tt
take-AreDistinct (suc n) (f ∷ fs) (h, hs) = (All-take _ n fs h, take-AreDistinct n fs hs)

module _ (before : Fused → Fused → Bool) where
  insert_All :
      (P : Fused → Type 0) (f : Fused) (fs : List Fused)
      → P f
      → All P fs
      → All P (insert_fused before f fs)
  unfolding insert_fused
  insert_All P f [] h hs = (h, tt)
  insert_All P f (x ∷ xs) h (hx, hs) = elim (Bool-cases (before x f)) [
    | inl first ↦ rw first (hx, insert_All P f xs h hs)
    | inr last ↦ rw last (h, (hx, hs))
  ]

  others :
      (f : Fused) (xs : List Fused)
      → All (λ (x : Fused). x.representative.canonical_url ≢ f.representative.canonical_url) xs
      → All (λ (x : Fused). f.representative.canonical_url ≢ x.representative.canonical_url) xs
  others f [] h = tt
  others f (x ∷ xs) (h, hs) = (λ e. h (sym e), others f xs hs)

  insert-AreDistinct :
      (f : Fused) (fs : List Fused)
      → All (λ (x : Fused). x.representative.canonical_url ≢ f.representative.canonical_url) fs
      → AreDistinct fs
      → AreDistinct (insert_fused before f fs)
  unfolding insert_fused
  insert-AreDistinct f [] new d = (tt, tt)
  insert-AreDistinct f (x ∷ xs) (new, news) (d, ds) = elim (Bool-cases (before x f)) [
    | inl first ↦ rw first (insert_All _ f xs (λ e. new (sym e)) d, insert-AreDistinct f xs news ds)
    | inr last ↦ rw last ((new, news), (d, ds))
  ]

  sort_All : (P : Fused → Type 0) (fs : List Fused) → All P fs → All P (sort_fused before fs)
  unfolding sort_fused
  sort_All P [] h = tt
  sort_All P (f ∷ fs) (h, hs) = insert_All P f (sort_fused before fs) h (sort_All P fs hs)

  sort-AreDistinct : (fs : List Fused) → AreDistinct fs → AreDistinct (sort_fused before fs)
  unfolding sort_fused
  sort-AreDistinct [] d = tt
  sort-AreDistinct (f ∷ fs) (d, ds) =
      insert-AreDistinct f (sort_fused before fs) (sort_All _ fs d) (sort-AreDistinct fs ds)

-- Whatever the results are, how similar their titles and how they are ordered: the merged results
-- are at most `max_results`, and no two of them have the same canonical URL.
pub merge_results-AreDistinct :
    (similar : String → String → Bool) (before : Fused → Fused → Bool)
    (results : List NormalizedSearchResult) (max_results : ℕ)
    → (length (merge_results similar before results max_results).0 ≤ max_results)
      × AreDistinct (merge_results similar before results max_results).0
unfolding merge_results
merge_results-AreDistinct similar before results max_results =
    let g = group_results similar results no_groups in
    let fused = fuse g.groups in
    (
      omega (arith, length-take {0} max_results (sort_fused before fused)),
      take-AreDistinct max_results _ (
          sort-AreDistinct before fused (
            fuse-AreDistinct g.by_url 0 g.groups
              (group_results-IsIndexed similar results no_groups tt))),
    )
