-- ===== src/Routing/Agree.antt =====
-- The parts of a decision agree with each other and with the scope.
use ahmed_agent.Base.{
  ◌≡◌, refl, inl, inr, Bool, true, false, not, ◌&&◌, ◌||◌, String, List, [], ◌∷◌, str_eq, arith,
  Bool-cases,
}
use ahmed_agent.Files.{Text}
use ahmed_agent.Routing.{
  RequestCapability, external_web_research, general, RouteDecision, is_no_text, Matching, by_terms,
  classify_request,
}

abbrev pub requires : String → List String → Bool
requires tool [] = false
requires tool (t ∷ ts) = str_eq tool t || requires tool ts

abbrev pub is_empty : List String → Bool
is_empty [] = true
is_empty (t ∷ ts) = false

abbrev pub is_external : RequestCapability → Bool
is_external external_web_research = true
is_external _ = false

abbrev pub is_general : RequestCapability → Bool
is_general general = true
is_general _ = false

Agrees : RouteDecision → Type 0
Agrees d =
    (requires "web_search" d.required_capabilities ≡ is_external d.capability)
    × (is_empty d.required_capabilities ≡ is_general d.capability)
    × (d.abstain_if_evidence_missing ≡ not (is_general d.capability))

and_false : (b : Bool) → (b && false) ≡ false
and_false true = refl
and_false false = refl

module _ (matching : Matching) where
  by_terms-Agrees : (normalized : Text) → Agrees (by_terms matching normalized)
  unfolding by_terms Agrees
  by_terms-Agrees normalized = ground arith

  my_files_never_external :
      (message : Text) (scope : String)
      → (is_external (classify_request matching message scope).capability
          && str_eq scope "MY_FILES")
        ≡ false
  unfolding classify_request
  my_files_never_external message scope =
      elim (Bool-cases (is_no_text (matching.normalize message))) [
        | inl empty ↦ rw empty refl
        | inr words ↦ elim (Bool-cases (str_eq scope "MY_FILES")) [
          | inl files ↦ rw (words, files) refl
          | inr other ↦ rw (words, other) (and_false _)
        ]
      ]

  classify-Agrees :
      (message : Text) (scope : String) → Agrees (classify_request matching message scope)
  unfolding classify_request Agrees
  classify-Agrees message scope = ground (arith, by_terms-Agrees (matching.normalize message))

  -- For every request: it requires a web search exactly where it is external web research, it requires
  -- nothing exactly where it is general, it abstains without evidence exactly where it is not general;
  -- and in the scope of the files it is never external web research, whatever its words.
  pub classify_agrees :
      (message : Text) (scope : String)
      → let d = classify_request matching message scope in
        (requires "web_search" d.required_capabilities ≡ is_external d.capability)
        × (is_empty d.required_capabilities ≡ is_general d.capability)
        × (d.abstain_if_evidence_missing ≡ not (is_general d.capability))
        × ((is_external d.capability && str_eq scope "MY_FILES") ≡ false)
  unfolding Agrees
  classify_agrees message scope =
      let (searches, needs, abstains) = classify-Agrees message scope in
      (searches, needs, abstains, my_files_never_external message scope)
