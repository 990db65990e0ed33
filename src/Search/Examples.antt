-- ===== src/Search/Examples.antt =====
-- A page that both providers found, and another page.
use ahmed_agent.Base.{ℕ, ◌≤◌, ◌≡◌, refl, Bool, false, String, List, [], ◌∷◌, length, map, ltb}
use ahmed_agent.Search.{NormalizedSearchResult, Fused, merge_results}
use ahmed_agent.Search.Distinct.{AreDistinct, merge_results-AreDistinct}

abbrev page : String → String → ℕ → String → NormalizedSearchResult
page provider url rank content = record {
  provider = provider;
  title = "t";
  canonical_url = url;
  domain = "d";
  content = content;
  source_class = "unknown";
  provider_rank = rank;
  rest = "";
}

abbrev results : List NormalizedSearchResult
results = page "tavily" "u" 1 "a" ∷ page "tavily" "v" 2 "a" ∷ page "brave" "u" 1 "longer" ∷ []

abbrev differ : String → String → Bool
differ a b = false

abbrev by_rank : Fused → Fused → Bool
by_rank x y = ltb x.provider_rank y.provider_rank

merged :
    map (λ (f : Fused). f.representative.provider) (merge_results differ by_rank results 5).0
    ≡ "brave" ∷ "tavily" ∷ []
unfolding merge_results
merged = refl

merge_results-AreDistinct_example :
    (length (merge_results differ by_rank results 5).0 ≤ 5)
    × AreDistinct (merge_results differ by_rank results 5).0
merge_results-AreDistinct_example = merge_results-AreDistinct differ by_rank results 5
