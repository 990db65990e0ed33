-- ===== src/Providers/Bounds.antt =====
-- How often the loop calls a model, and which.
use mathlib.Core.Path.{subst}
use mathlib.Core.Option.{some-injective}
use ahmed_agent.Base.{
  ℕ, zero, suc, ◌+◌, ◌≤◌, ◌<◌, ◌*◌, ◌≡◌, refl, inl, inr, Bool, true, false, Option, none, some,
  List, [], ◌∷◌, length, All, leb, arith, ◌||◌, Bool-cases,
}
use ahmed_agent.Providers.{
  Provider, States, Settings, is_configured, provider_health, is_in, is_ready, ready_fallback,
  Agent, AgentRun, UsageLimits, usage_limits, max_model_requests, Response, succeeded, http_error,
  exception, Loop, Round, returned, broke, goes_on, switch_or_wait, on_transient, after_call, round,
  rounds, candidates, is_transient, give_up, report, finish, begin, start_with, run_ahmed,
  is_cooling, is_code, code_of, found_code, not_approved,
}

-- What pydantic-ai documents of `request_limit`: a run asks the model that often at most, where the
-- limit is not 0.
abbrev pub Obeys : Agent → Type 0
Obeys respond =
    (n : ℕ) (limits : UsageLimits)
    → 0 < limits.request_limit
    → (respond n limits).requests ≤ limits.request_limit

-- The calls so far, which are to configured providers, and the next one will be too.
abbrev pub IsSound : Settings → ℕ → Loop → Type 0
IsSound c n l =
    ((l.requests ≤ max_model_requests * n) × (length l.calls ≤ n))
    × All (λ (call : Provider × ℕ). is_configured c call.0 ≡ true) l.calls
    × (is_configured c l.active ≡ true)

abbrev pub RoundIsSound : Settings → ℕ → Round → Type 0
RoundIsSound c n (returned l) = IsSound c n l
RoundIsSound c n (broke l) = IsSound c n l
RoundIsSound c n (goes_on l) = IsSound c n l

health_configured :
    (c : Settings) (now : ℕ) (p : Provider) (s : States)
    → is_ready (provider_health c now p s).0 ≡ true
    → is_configured c p ≡ true
unfolding provider_health
health_configured c now p s e = elim (Bool-cases (is_configured c p)) [
  | inl yes_ ↦ yes_
  | inr no_ ↦ absurd (cc (rw no_ at e))
]

pub fallback_configured :
    (c : Settings) (now : ℕ) (excluded : List Provider) (ps : List Provider) (s : States)
    (p : Provider)
    → (ready_fallback c now excluded ps s).0 ≡ some p
    → is_configured c p ≡ true
unfolding ready_fallback
fallback_configured c now excluded [] s p e = absurd (cc e)
fallback_configured c now excluded (q ∷ ps) s p e = elim (Bool-cases (is_in q excluded)) [
  | inl out ↦ fallback_configured c now excluded ps s p (rw out at e)
  | inr within ↦ elim (Bool-cases (is_ready (provider_health c now q s).0)) [
    | inl ready_ ↦
        subst (λ (x : Provider). is_configured c x ≡ true)
          (some-injective _ _ (rw (within, ready_) at e)) (health_configured c now q s ready_)
    | inr busy ↦
        fallback_configured c now excluded ps (provider_health c now q s).1 p
          (rw (within, busy) at e)
  ]
]

module _ (c : Settings) (requested : Provider) where
  switch_or_wait-IsSound :
      (n : ℕ) (o : Option Provider) (header : Option ℕ) (l : Loop)
      → ((p : Provider) → o ≡ some p → is_configured c p ≡ true)
      → IsSound c n l
      → RoundIsSound c n (switch_or_wait c requested o header l)
  unfolding switch_or_wait
  switch_or_wait-IsSound n (some p) header l configured (short, all, active) =
      (short, all, configured p refl)
  switch_or_wait-IsSound n none header l configured sound =
      elim (Bool-cases (leb (length l.attempted) c.max_retries)) [
        | inl again ↦ rw again sound
        | inr done ↦ rw done sound
      ]

  on_transient-IsSound :
      (n code : ℕ) (header : Option ℕ) (l : Loop)
      → IsSound c n l
      → RoundIsSound c n (on_transient c requested code header l)
  unfolding on_transient
  on_transient-IsSound n code header l sound =
      switch_or_wait-IsSound n _ header _
        (λ p e. fallback_configured c l.clock l.attempted (candidates c requested) _ p e) sound

  after_call-IsSound :
      (n took : ℕ) (r : Response) (l : Loop)
      → IsSound c n l
      → RoundIsSound c n (after_call c requested r took l)
  unfolding after_call
  after_call-IsSound n took succeeded l sound = sound
  after_call-IsSound n took (exception found) l sound = sound
  after_call-IsSound n took (http_error code header found) l sound =
      elim (Bool-cases (is_transient code)) [
        | inl transient ↦ rw transient (
            on_transient-IsSound n code header
              (record l { last_error = some (http_error code header found) }) sound)
        | inr final ↦ rw final sound
      ]

  round-IsSound :
      (n : ℕ) (r : AgentRun) (l : Loop)
      → r.requests ≤ max_model_requests
      → IsSound c n l
      → RoundIsSound c (n + 1) (round c requested r l)
  unfolding round
  round-IsSound n r l few ((asked, short), all, active) =
      after_call-IsSound (n + 1) r.took r.response _
        ((omega arith, omega arith), (active, all), active)

  rounds-IsSound :
      (k n : ℕ) (respond : Agent) (obeys : Obeys respond) (l : Loop)
      → IsSound c n l
      → IsSound c (n + k) (rounds c requested k respond l).1
  unfolding rounds
  rounds-IsSound zero n respond obeys l ((asked, short), all, active) =
      ((omega arith, omega arith), all, active)
  rounds-IsSound (suc k) n respond obeys l sound =
      then_sound (round c requested (respond k usage_limits) l)
        (round-IsSound n (respond k usage_limits) l (obeys k usage_limits (omega arith)) sound)
        (rounds-IsSound k (n + 1) respond obeys)
    where
      then_sound :
          (r : Round)
          → RoundIsSound c (n + 1) r
          → ((l' : Loop)
              → IsSound c (n + 1) l'
              → IsSound c (n + 1 + k) (rounds c requested k respond l').1)
          → IsSound c
              (n + suc k)
              (elim r as (λ x. Bool × Loop) [
                | returned l' ↦ (true, l')
                | broke l' ↦ (false, l')
                | goes_on l' ↦ rounds c requested k respond l'
              ]).1
      then_sound (returned l') ((asked, short), all, active) ih =
          ((omega arith, omega arith), all, active)
      then_sound (broke l') ((asked, short), all, active) ih =
          ((omega arith, omega arith), all, active)
      then_sound (goes_on l') s ih =
          let ((asked, short), all, active) = ih l' s in ((omega arith, omega arith), all, active)

  give_up-calls :
      (l : Loop) → ((give_up c l).1.calls ≡ l.calls) × ((give_up c l).1.requests ≡ l.requests)
  unfolding give_up report
  give_up-calls l = elim (Bool-cases (is_code 429 (code_of l.last_error))) [
    | inl limited ↦ rw limited (refl, refl)
    | inr no_ ↦
        rw no_
          (elim (Bool-cases (
            (is_code 401 (code_of l.last_error) || is_code 403 (code_of l.last_error))
            || not_approved (found_code l.last_error))) [
              | inl refused ↦ rw refused (refl, refl)
              | inr other ↦ rw other (refl, refl)
            ])
  ]

  finish_sound :
      (n : ℕ) (r : Bool × Loop)
      → IsSound c n r.1
      → ((finish c r).1.requests ≤ max_model_requests * n)
        × (length (finish c r).1.calls ≤ n)
        × All (λ (call : Provider × ℕ). is_configured c call.0 ≡ true) (finish c r).1.calls
  unfolding finish
  finish_sound n (true, l) ((asked, short), all, active) = (asked, short, all)
  finish_sound n (false, l) ((asked, short), all, active) =
      let (same, same') = give_up-calls l in rw (same, same') (asked, short, all)

  start_with_sound :
      (o : Option Provider) (respond : Agent) (obeys : Obeys respond) (s : States) (now : ℕ)
      → ((p : Provider) → o ≡ some p → is_configured c p ≡ true)
      → ((start_with c requested respond o s now).1.requests
          ≤ max_model_requests * (c.max_retries + 1))
        × (length (start_with c requested respond o s now).1.calls ≤ c.max_retries + 1)
        × All
            (λ (call : Provider × ℕ). is_configured c call.0 ≡ true)
            (start_with c requested respond o s now).1.calls
  unfolding start_with
  start_with_sound none respond obeys s now configured = (omega arith, omega arith, tt)
  start_with_sound (some p) respond obeys s now configured =
      let ((asked, short), all, active) =
        rounds-IsSound (c.max_retries + 1) 0 respond obeys (begin s now p)
          ((omega arith, omega arith), tt, configured p refl) in
      finish_sound (c.max_retries + 1)
        (rounds c requested (c.max_retries + 1) respond (begin s now p))
        ((omega arith, omega arith), all, active)

  -- A request runs the agent at most once more than the configured number of retries, and makes at
  -- most 6 requests to models for each of so many runs, whatever the models answer and however the
  -- states are; and it runs the agent only with models of configured providers. An `agent.run` keeps
  -- to a request limit that is not 0.
  pub run_ahmed_bounds :
      (respond : Agent) (obeys : Obeys respond) (s : States) (now : ℕ)
      → ((run_ahmed c requested respond s now).1.requests
          ≤ max_model_requests * (c.max_retries + 1))
        × (length (run_ahmed c requested respond s now).1.calls ≤ c.max_retries + 1)
        × All
            (λ (call : Provider × ℕ). is_configured c call.0 ≡ true)
            (run_ahmed c requested respond s now).1.calls
  unfolding run_ahmed
  run_ahmed_bounds respond obeys s now =
      let health = (provider_health c now requested s).0 in
      elim (Bool-cases (is_configured c requested)) [
        | inr missing ↦ rw missing (omega arith, omega arith, tt)
        | inl there ↦ elim (Bool-cases (is_cooling health)) [
          | inl cooling ↦
              rw (cooling, there)
                (start_with_sound _ respond obeys _ now (λ p e.
                  fallback_configured c now (requested ∷ []) (candidates c requested) _ p e))
          | inr up ↦
              rw (up, there)
                (start_with_sound (some requested) respond obeys _ now (λ p e.
                  subst (λ (x : Provider). is_configured c x ≡ true) (some-injective _ _ e) there))
        ]
      ]
