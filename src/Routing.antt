-- ===== src/Routing.antt =====
-- request_routing.py: the evidence or the search that a request needs before the model runs.
pub mod Agree
mod Examples
pub mod Terms
use ahmed_agent.Base.{Bool, true, false, String, List, [], ◌∷◌, str_eq, if◌then◌else◌}
use ahmed_agent.Files.{Text}
use ahmed_agent.Routing.Terms.{
  external_web_terms, project_decision_terms, source_status_terms, my_files_terms, runtime_terms,
  project_terms, evidence_terms, architecture_terms,
}

pub data RequestCapability : Type 0 where
  project_state : RequestCapability
  runtime_architecture : RequestCapability
  source_status : RequestCapability
  my_files : RequestCapability
  external_web_research : RequestCapability
  general : RequestCapability

pub record RouteDecision : Type 0 where
  pub capability : RequestCapability
  pub required_capabilities : List String
  pub abstain_if_evidence_missing : Bool

-- What the source uses of Python's strings and regular expressions: folding the case and joining the
-- words by single spaces; whether a term has an ASCII word character; whether a term stands in a
-- value, and whether it stands there outside of longer ASCII words.
pub record Matching : Type 0 where
  pub normalize : Text → Text
  pub has_word_character : Text → Bool
  pub is_in : Text → Text → Bool
  pub is_word_in : Text → Text → Bool

abbrev pub is_no_text : Text → Bool
is_no_text [] = true
is_no_text (c ∷ cs) = false

abbrev pub decide : RequestCapability → List String → Bool → RouteDecision
decide capability required_capabilities abstain_if_evidence_missing = record {
  capability = capability;
  required_capabilities = required_capabilities;
  abstain_if_evidence_missing = abstain_if_evidence_missing;
}

module _ (matching : Matching) where
  unfoldable pub contains_any : Text → List Text → Bool
  contains_any value [] = false
  contains_any value (term ∷ terms) =
      let rest = contains_any value terms in
      let found =
        if matching.has_word_character term
        then matching.is_word_in term value
        else matching.is_in term value in
      if found then true else rest

  -- A request with words, by the terms in it.
  unfoldable pub by_terms : Text → RouteDecision
  by_terms normalized =
      if contains_any normalized external_web_terms
      then decide external_web_research
          (if contains_any normalized architecture_terms
            then "inspect_architecture_evidence" ∷ "web_search" ∷ []
            else "web_search" ∷ [])
          true
      else if contains_any normalized project_decision_terms
      then decide project_state ("inspect_runtime_evidence" ∷ "inspect_architecture_evidence" ∷ [])
          true
      else if contains_any normalized source_status_terms
      then decide source_status ("inspect_source_status" ∷ []) true
      else if contains_any normalized my_files_terms
      then decide my_files ("search_my_files" ∷ "inspect_source_of_truth" ∷ []) true
      else if contains_any normalized runtime_terms
      then decide runtime_architecture
          ("inspect_runtime_evidence" ∷ "inspect_architecture_evidence" ∷ []) true
      else if contains_any normalized project_terms
      then decide project_state ("inspect_runtime_evidence" ∷ []) true
      else if contains_any normalized evidence_terms
      then decide project_state ("inspect_runtime_evidence" ∷ []) true
      else decide general [] false

  unfoldable pub classify_request : Text → String → RouteDecision
  unfolding by_terms
  classify_request message scope =
      let normalized = matching.normalize message in
      if is_no_text normalized
      then decide general [] false
      else if str_eq scope "MY_FILES"
      then decide my_files ("search_my_files" ∷ "inspect_source_of_truth" ∷ []) true
      else by_terms normalized
