-- ===== src/Providers/Breaker.antt =====
-- The circuit breaker of a provider: when it opens, and what a request does while it is open.
use mathlib.Core.Path.{subst}
use mathlib.Core.Bool.{false≢true}
use ahmed_agent.Base.{
  ℕ, ◌+◌, ◌<◌, ◌≡◌, eq_iff, refl, sym, ap, ◌∙◌, inl, inr, Bool, true, false, ◌||◌, Option, none,
  some, List, [], ◌∷◌, ltb, arith, lt→ltb, ltb→lt, Bool-cases,
}
use ahmed_agent.Providers.{
  Provider, gemini, openai, other_provider, same_provider, ProviderState, ProviderStatus, ready,
  rate_limited, unauthorized, error, States, state_for, put, Settings, is_configured,
  current_health, provider_health, open_rate_limit, is_in, is_ready, ready_fallback, Loop, Agent,
  rounds, candidates, Ended, CoreError, answered, failed, code_of, found_code, not_approved,
  is_code, report, give_up, finish, begin, is_cooling, refuse, start_with, run_ahmed,
}

-- The circuit of the provider is open at that time.
abbrev pub IsOpen : ℕ → Provider → States → Type 0
IsOpen now p s =
    ((state_for p s).status ≡ rate_limited) × (now < (state_for p s).rate_limited_until)

state_for-put : (p : Provider) (x : ProviderState) (s : States) → state_for p (put p x s) ≡ x
state_for-put gemini x s = refl
state_for-put openai x s = refl

put_other :
    (p q : Provider) (x : ProviderState) (s : States)
    → same_provider p q ≡ false
    → state_for p (put q x s) ≡ state_for p s
put_other gemini gemini x s e = absurd (cc e)
put_other gemini openai x s e = refl
put_other openai gemini x s e = refl
put_other openai openai x s e = absurd (cc e)

current_health_other :
    (now : ℕ) (p q : Provider) (status : ProviderStatus) (s : States)
    → same_provider p q ≡ false
    → state_for p (current_health now q status s).1 ≡ state_for p s
unfolding current_health
current_health_other now p q ready s e = refl
current_health_other now p q unauthorized s e = refl
current_health_other now p q error s e = refl
current_health_other now p q rate_limited s e =
    elim (Bool-cases (ltb now (state_for q s).rate_limited_until)) [
      | inl open_ ↦ rw open_ refl
      | inr over ↦ rw over (put_other p q _ s e)
    ]

health_other :
    (c : Settings) (now : ℕ) (p q : Provider) (s : States)
    → same_provider p q ≡ false
    → state_for p (provider_health c now q s).1 ≡ state_for p s
unfolding provider_health
health_other c now p q s e = elim (Bool-cases (is_configured c q)) [
  | inl there ↦ rw there (current_health_other now p q (state_for q s).status s e)
  | inr missing ↦ rw missing refl
]

same_excluded : (p q : Provider) → is_in q (p ∷ []) ≡ false → same_provider p q ≡ false
same_excluded gemini gemini e = cc e
same_excluded gemini openai e = refl
same_excluded openai gemini e = refl
same_excluded openai openai e = cc e

fallback_other :
    (c : Settings) (now : ℕ) (p : Provider) (qs : List Provider) (s : States)
    → state_for p (ready_fallback c now (p ∷ []) qs s).1 ≡ state_for p s
unfolding ready_fallback
fallback_other c now p [] s = refl
fallback_other c now p (q ∷ qs) s = elim (Bool-cases (is_in q (p ∷ []))) [
  | inl out ↦ rw out (fallback_other c now p qs s)
  | inr within ↦
      let kept = health_other c now p q s (same_excluded p q within) in
      elim (Bool-cases (is_ready (provider_health c now q s).0)) [
        | inl ready_ ↦ rw (within, ready_) kept
        | inr busy ↦
            rw (within, busy) (fallback_other c now p qs (provider_health c now q s).1 ∙ kept)
      ]
]

-- What `provider_health` says of an open circuit, and only of such a one.
open_cools :
    (c : Settings) (now : ℕ) (p : Provider) (s : States)
    → is_configured c p ≡ true
    → IsOpen now p s
    → (is_cooling (provider_health c now p s).0 ≡ true) × ((provider_health c now p s).1 ≡ s)
unfolding provider_health current_health
open_cools c now p s there (limited, early) = rw (there, limited, lt→ltb _ _ early) (refl, refl)

cooling_status :
    (now : ℕ) (p : Provider) (status : ProviderStatus) (s : States)
    → (state_for p s).status ≡ status
    → is_cooling (current_health now p status s).0 ≡ true
    → IsOpen now p s × ((current_health now p status s).1 ≡ s)
unfolding current_health
cooling_status now p ready s is e = absurd (cc e)
cooling_status now p unauthorized s is e = absurd (cc e)
cooling_status now p error s is e = absurd (cc e)
cooling_status now p rate_limited s is e =
    elim (Bool-cases (ltb now (state_for p s).rate_limited_until)) [
      | inl early ↦ rw early ((is, ltb→lt _ _ early), refl)
      | inr over ↦ absurd (cc (rw over at e))
    ]

cooling-IsOpen :
    (c : Settings) (now : ℕ) (p : Provider) (s : States)
    → is_configured c p ≡ true
    → is_cooling (provider_health c now p s).0 ≡ true
    → IsOpen now p s × ((provider_health c now p s).1 ≡ s)
unfolding provider_health
cooling-IsOpen c now p s there e =
    rw there (cooling_status now p (state_for p s).status s refl (rw there at e))

-- While the circuit of the only configured provider is open, a request calls no model, changes no
-- state of a provider, and fails as rate limited.
pub open_circuit_calls_nobody :
    (c : Settings) (requested : Provider) (respond : Agent) (s : States) (now : ℕ)
    → is_configured c requested ≡ true
    → is_configured c (other_provider requested) ≡ false
    → IsOpen now requested s
    → run_ahmed c requested respond s now
      ≡ (refuse requested (some 429) "RATE_LIMITED", begin s now requested)
unfolding run_ahmed start_with ready_fallback
open_circuit_calls_nobody c requested respond s now there alone opened =
    let (cooling, same) = open_cools c now requested s there opened in
    rw (cooling, same, there, alone, own requested) refl
  where
    own : (p : Provider) → is_in p (p ∷ []) ≡ true
    own gemini = refl
    own openai = refl

-- What an end says of the circuit of the provider that it names.
abbrev Opens : Ended × Loop → Type 0
Opens (answered p, l) = Unit
Opens (failed e, l) = e.provider_status ≡ "RATE_LIMITED" → IsOpen l.clock e.provider l.states

module _ (c : Settings) (cools : 0 < c.cooldown) where
  report_limited :
      (l : Loop)
      → Opens (
          report l.active
            (code_of l.last_error)
            (some "RATE_LIMITED")
            "RATE_LIMITED"
            (record l { states = open_rate_limit c l.clock l.active l.states }))
  unfolding report open_rate_limit
  report_limited l e =
      rw (state_for-put l.active, state_for-put l.active) (refl, omega (arith, cools))

  give_up-Opens : (l : Loop) → Opens (give_up c l)
  unfolding give_up report
  give_up-Opens l = elim (Bool-cases (is_code 429 (code_of l.last_error))) [
    | inl limited ↦ rw limited (report_limited l)
    | inr no_ ↦
        rw no_
          (elim (Bool-cases (
            (is_code 401 (code_of l.last_error) || is_code 403 (code_of l.last_error))
            || not_approved (found_code l.last_error))) [
              | inl refused ↦
                  rw refused (λ e. absurd (false≢true ((eq_iff "UNAUTHORIZED" "RATE_LIMITED").1 e)))
              | inr other ↦
                  rw other (λ e. absurd (false≢true ((eq_iff "ERROR" "RATE_LIMITED").1 e)))
            ])
  ]

  finish-Opens : (r : Bool × Loop) → Opens (finish c r)
  unfolding finish
  finish-Opens (true, l) = tt
  finish-Opens (false, l) = give_up-Opens l

  start_up :
      (requested : Provider) (respond : Agent) (s : States) (now : ℕ)
      → Opens (start_with c requested respond (some requested) s now)
  unfolding start_with
  start_up requested respond s now =
      finish-Opens (rounds c requested (c.max_retries + 1) respond (begin s now requested))

  start_with-Opens :
      (requested : Provider) (respond : Agent) (o : Option Provider) (s s' : States) (now : ℕ)
      → state_for requested s' ≡ state_for requested s
      → IsOpen now requested s
      → Opens (start_with c requested respond o s' now)
  unfolding start_with
  start_with-Opens requested respond none s s' now same opened = λ e.
      subst (λ (x : ProviderState). (x.status ≡ rate_limited) × (now < x.rate_limited_until))
        (sym same) opened
  start_with-Opens requested respond (some p) s s' now same opened =
      finish-Opens (rounds c requested (c.max_retries + 1) respond (begin s' now p))

  run_ahmed-Opens :
      (requested : Provider) (respond : Agent) (s : States) (now : ℕ)
      → Opens (run_ahmed c requested respond s now)
  unfolding run_ahmed
  run_ahmed-Opens requested respond s now =
      let health = (provider_health c now requested s).0 in
      elim (Bool-cases (is_configured c requested)) [
        | inr missing ↦
            rw missing (λ e. absurd (false≢true ((eq_iff "NOT_CONFIGURED" "RATE_LIMITED").1 e)))
        | inl there ↦ elim (Bool-cases (is_cooling health)) [
          | inl cooling ↦
              let (opened, kept) = cooling-IsOpen c now requested s there cooling in
              rw (cooling, there)
                (start_with-Opens requested respond _ s _ now
                  (fallback_other c now requested (candidates c requested) _
                    ∙ ap (state_for requested) kept)
                  opened)
          | inr up ↦ rw (up, there) (start_up requested respond _ now)
        ]
      ]

  -- A request that fails as rate limited leaves the circuit of the provider that it names open,
  -- whether it called models or the circuit was open before, if the cooldown is not 0.
  pub rate_limited_opens :
      (requested : Provider) (respond : Agent) (s : States) (now : ℕ) (e : CoreError) (l : Loop)
      → run_ahmed c requested respond s now ≡ (failed e, l)
      → e.provider_status ≡ "RATE_LIMITED"
      → IsOpen l.clock e.provider l.states
  rate_limited_opens requested respond s now e l fails limited =
      subst Opens fails (run_ahmed-Opens requested respond s now) limited
