-- ===== src/Routing/Examples.antt =====
-- Requests in lower case with single spaces, read without regard to longer words.
use ahmed_agent.Base.{◌≡◌, refl, Bool, true, false, not, ◌&&◌, ◌||◌, [], ◌∷◌, str_eq, ltb, ◌==◌}
use ahmed_agent.Files.{Text, codes}
use ahmed_agent.Routing.{
  external_web_research, my_files, Matching, contains_any, by_terms, classify_request,
}
use ahmed_agent.Routing.Agree.{requires, is_empty, is_external, is_general, classify_agrees}

abbrev starts_with : Text → Text → Bool
starts_with [] value = true
starts_with (c ∷ cs) [] = false
starts_with (c ∷ cs) (d ∷ ds) = (c == d) && starts_with cs ds

abbrev is_within : Text → Text → Bool
is_within term [] = starts_with term []
is_within term (c ∷ cs) = starts_with term (c ∷ cs) || is_within term cs

-- What tells the terms of the source apart.
abbrev starts_in_ascii : Text → Bool
starts_in_ascii [] = false
starts_in_ascii (c ∷ cs) = ltb c 128

abbrev matching : Matching
matching = record {
  normalize = λ message. message;
  has_word_character = starts_in_ascii;
  is_in = is_within;
  is_word_in = is_within;
}

abbrev message : Text
message = codes "find a template"

web_by_default : (classify_request matching message "WEB").capability ≡ external_web_research
unfolding classify_request by_terms contains_any
web_by_default = refl

files_in_their_scope : (classify_request matching message "MY_FILES").capability ≡ my_files
unfolding classify_request by_terms contains_any
files_in_their_scope = refl

classify_agrees_example :
    let d = classify_request matching message "MY_FILES" in
    (requires "web_search" d.required_capabilities ≡ is_external d.capability)
    × (is_empty d.required_capabilities ≡ is_general d.capability)
    × (d.abstain_if_evidence_missing ≡ not (is_general d.capability))
    × ((is_external d.capability && str_eq "MY_FILES" "MY_FILES") ≡ false)
classify_agrees_example = classify_agrees matching message "MY_FILES"
