-- ===== src/Search.antt =====
-- search_fabric.py: how the results of two search providers are merged. Parameters: `similar` says
-- whether `_title_similarity` of two titles is at least 0.92, and `before` is the order of the sort
-- key, whose first part is the fusion score, a float.
pub mod Distinct
mod Examples
use Prim.Native.String
use ahmed_agent.Base.{
  ℕ, zero, suc, ◌+◌, Bool, true, false, ◌&&◌, ◌||◌, not, Option, none, some, String, List, [], ◌∷◌,
  ◌++◌, length, take, map, min, ltb, leb, ◌==◌, str_eq, if◌then◌else◌,
}

-- The fields that the merge reads; `rest` stands for those that it only copies.
pub record NormalizedSearchResult : Type 0 where
  pub provider : String
  pub title : String
  pub canonical_url : String
  pub domain : String
  pub content : String
  pub source_class : String
  pub provider_rank : ℕ
  pub rest : String

-- The list of groups, and the dictionary that says in which of them a URL is.
pub record Groups : Type 0 where
  pub groups : List (List NormalizedSearchResult)
  pub by_url : List (String × ℕ)

-- `by_url.get(url)`
abbrev pub lookup : String → List (String × ℕ) → Option ℕ
lookup url [] = none
lookup url ((key, i) ∷ m) = if str_eq key url then some i else lookup url m

-- `group.append(result)` of the group at a position.
abbrev pub append_at :
    ℕ
    → NormalizedSearchResult
    → List (List NormalizedSearchResult)
    → List (List NormalizedSearchResult)
append_at i r [] = []
append_at zero r (g ∷ gs) = (g ++ (r ∷ [])) ∷ gs
append_at (suc i) r (g ∷ gs) = g ∷ append_at i r gs

module _ (similar : String → String → Bool) where
  -- The first group whose first result has the domain and a similar title.
  unfoldable pub near_group :
      ℕ → NormalizedSearchResult → List (List NormalizedSearchResult) → Option ℕ
  near_group i r [] = none
  near_group i r ([] ∷ gs) = near_group (i + 1) r gs
  near_group i r ((first ∷ more) ∷ gs) =
      let later = near_group (i + 1) r gs in
      if str_eq first.domain r.domain && similar first.title r.title then some i else later

  unfoldable pub place_new : Option ℕ → NormalizedSearchResult → Groups → Groups
  place_new none r g = record {
    groups = g.groups ++ ((r ∷ []) ∷ []);
    by_url = (r.canonical_url, length g.groups) ∷ g.by_url;
  }
  place_new (some i) r g = record {
    groups = append_at i r g.groups;
    by_url = (r.canonical_url, i) ∷ g.by_url;
  }

  unfoldable pub place_found : Option ℕ → NormalizedSearchResult → Groups → Groups
  unfolding place_new near_group
  place_found none r g = place_new (near_group 0 r g.groups) r g
  place_found (some i) r g = record g { groups = append_at i r g.groups }

  -- The first loop.
  unfoldable pub group_results : List NormalizedSearchResult → Groups → Groups
  unfolding place_found
  group_results [] g = g
  group_results (r ∷ rs) g = group_results rs (place_found (lookup r.canonical_url g.by_url) r g)

abbrev pub is_primary : NormalizedSearchResult → Bool
is_primary r = str_eq r.source_class "primary"

-- Whether the key of `a` is greater: longer content, then a primary source, then a better rank.
unfoldable pub greater : NormalizedSearchResult → NormalizedSearchResult → Bool
greater a b =
    ltb (String.count b.content) (String.count a.content)
    || (String.count a.content == String.count b.content
        && ((is_primary a && not (is_primary b))
            || ((is_primary a && is_primary b || not (is_primary a) && not (is_primary b))
                && ltb a.provider_rank b.provider_rank)))

-- `max`: the first of the greatest.
unfoldable pub greatest :
    NormalizedSearchResult → List NormalizedSearchResult → NormalizedSearchResult
unfolding greater
greatest best [] = best
greatest best (r ∷ rs) = greatest (if greater r best then r else best) rs

-- `provider_ranks[provider] = min(rank, provider_ranks.get(provider, rank))`
abbrev pub note_rank : String → ℕ → List (String × ℕ) → List (String × ℕ)
note_rank provider rank [] = (provider, rank) ∷ []
note_rank provider rank ((p, best) ∷ m) =
    let later = note_rank provider rank m in
    if str_eq p provider then (p, min rank best) ∷ m else (p, best) ∷ later

abbrev pub ranks_of : List NormalizedSearchResult → List (String × ℕ) → List (String × ℕ)
ranks_of [] m = m
ranks_of (r ∷ rs) m = ranks_of rs (note_rank r.provider r.provider_rank m)

abbrev pub least : ℕ → List (String × ℕ) → ℕ
least best [] = best
least best ((p, rank) ∷ m) = least (min best rank) m

-- A merged result: its representative with the ranks that its group has at the providers.
pub record Fused : Type 0 where
  pub representative : NormalizedSearchResult
  pub provider_rank : ℕ
  pub provider_ranks : List (String × ℕ)

-- No group is empty; `max` of one would raise.
unfoldable pub fuse : List (List NormalizedSearchResult) → List Fused
unfolding greatest
fuse [] = []
fuse ([] ∷ gs) = fuse gs
fuse ((r ∷ rs) ∷ gs) =
    record {
      representative = greatest r rs;
      provider_rank = least r.provider_rank (ranks_of (r ∷ rs) []);
      provider_ranks = ranks_of (r ∷ rs) [];
    }
    ∷ fuse gs

module _ (before : Fused → Fused → Bool) where
  -- `fused.sort`, which is stable.
  unfoldable pub insert_fused : Fused → List Fused → List Fused
  insert_fused f [] = f ∷ []
  insert_fused f (x ∷ xs) =
      let later = insert_fused f xs in if before x f then x ∷ later else f ∷ x ∷ xs

  unfoldable pub sort_fused : List Fused → List Fused
  unfolding insert_fused
  sort_fused [] = []
  sort_fused (f ∷ fs) = insert_fused f (sort_fused fs)

abbrev pub no_groups : Groups
no_groups = record { groups = []; by_url = [] }

unfoldable pub merge_results :
    (String → String → Bool)
    → (Fused → Fused → Bool)
    → List NormalizedSearchResult
    → ℕ
    → List Fused × ℕ
unfolding group_results fuse sort_fused
merge_results similar before results max_results =
    let g = group_results similar results no_groups in
    (take max_results (sort_fused before (fuse g.groups)), length g.groups)
