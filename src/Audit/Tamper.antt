-- ===== src/Audit/Tamper.antt =====
-- What the verifier's acceptance means: the newest hash fixes the content of the whole window, up
-- to a collision of the event hash.
use mathlib.Core.List.{reverse}
use mathlib.Core.Path.{ap₂}
use ahmed_agent.Base.{
  ℕ, ◌≡◌, ◌≢◌, refl, sym, ap, ◌∙◌, ◌⊎◌, inl, inr, true, Option, String, List, [], ◌∷◌, map, arith,
  length, take, String-discrete,
}
use native.Mathlib.Decide.{ℕ_discrete}
use ahmed_agent.Base.Json.{Json}
use ahmed_agent.Schema.{Payload, AuditEvent}
use ahmed_agent.Audit.{Hashing, head_hash, event_digest, verify_rows}
use ahmed_agent.Audit.Chain.{
  IsChainedFrom, normal, last_hash, IsChainedFrom-reverse, verify_window_iff, anchor,
}

Json-discrete : Discrete Json
Json-discrete = hlevel (String-discrete, ℕ_discrete)

Payload-discrete : Discrete Payload
Payload-discrete = hlevel (String-discrete, ℕ_discrete, Json-discrete)

-- The payloads, with `{}` for metadata that is empty in any way.
abbrev pub payloads : List AuditEvent → List Payload
payloads = map (λ (e : AuditEvent). normal e.payload)

module _ (h : Hashing) where
  -- Two different payloads with one event hash.
  abbrev pub Collision : Type 0
  Collision = (p : Payload) × (q : Payload) × (p ≢ q) × (event_digest h p ≡ event_digest h q)

  heads_agree :
      (s t : Option String) (xs ys : List AuditEvent)
      → length xs ≡ length ys
      → last_hash s xs ≡ last_hash t ys
      → head_hash xs ≡ head_hash ys
  heads_agree s t [] [] n e = refl
  heads_agree s t [] (y ∷ ys) n e = absurd (omega arith)
  heads_agree s t (x ∷ xs) [] n e = absurd (omega arith)
  heads_agree s t (x ∷ xs) (y ∷ ys) n e = e

  head_fixes_payloads :
      (s t : Option String) (xs ys : List AuditEvent)
      → IsChainedFrom h s xs
      → IsChainedFrom h t ys
      → length xs ≡ length ys
      → head_hash xs ≡ head_hash ys
      → (payloads xs ≡ payloads ys) ⊎ Collision
  head_fixes_payloads s t [] [] cx cy n e = inl refl
  head_fixes_payloads s t [] (y ∷ ys) cx cy n e = absurd (omega arith)
  head_fixes_payloads s t (x ∷ xs) [] cx cy n e = absurd (omega arith)
  head_fixes_payloads s t (x ∷ xs) (y ∷ ys) cx cy n e =
      elim (Payload-discrete (normal x.payload) (normal y.payload)) [
        | no differ ↦ inr (normal x.payload, normal y.payload, differ, cc (cx.1, cy.1, e))
        | yes same ↦
            let shorter : length xs ≡ length ys = omega arith in
            let prior : last_hash s xs ≡ last_hash t ys =
              sym cx.0 ∙ ap (λ (p : Payload). p.previous_hash) same ∙ cy.0 in
            elim (head_fixes_payloads s t xs ys cx.2 cy.2 shorter
              (heads_agree s t xs ys shorter prior)) [
                | inl rest ↦ inl (ap₂ (λ (p : Payload) (ps : List Payload). p ∷ ps) same rest)
                | inr hit ↦ inr hit
              ]
      ]

  verified_window :
      (limit : ℕ) (es : List AuditEvent)
      → (verify_rows h limit (reverse (take limit es))).verified ≡ true
      → IsChainedFrom h (anchor h (reverse (take limit es))) (take limit es)
  unfolding verify_rows
  verified_window limit es v =
      (IsChainedFrom-reverse h _ (take limit es)
        ((verify_window_iff h (reverse (take limit es))).0 (ground arith))).0

  -- If the verifier accepts the newest `limit` events of two logs, the two windows have the same
  -- number of events and the two logs end in the same hash, then the windows hold the same
  -- payloads in the same order, where metadata that is null, false, zero or empty counts as `{}`, or the proof gives two payloads on which the event hash collides.
  pub newest_hash_fixes_window :
      (limit : ℕ) (es fs : List AuditEvent)
      → (verify_rows h limit (reverse (take limit es))).verified ≡ true
      → (verify_rows h limit (reverse (take limit fs))).verified ≡ true
      → length (take limit es) ≡ length (take limit fs)
      → head_hash (take limit es) ≡ head_hash (take limit fs)
      → (payloads (take limit es) ≡ payloads (take limit fs)) ⊎ Collision
  newest_hash_fixes_window limit es fs ve vf =
      head_fixes_payloads _ _ (take limit es) (take limit fs) (verified_window limit es ve)
        (verified_window limit fs vf)
