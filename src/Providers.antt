-- ===== src/Providers.antt =====
-- agent_providers.py and the retry loop of `run_ahmed` in agent_runtime.py: the model providers,
-- their circuit breakers, and the switch between them. The agent of pydantic-ai is a parameter:
-- `respond` says how the `agent.run` of a round ends under its limits, and how often it asks the model. Times are in milliseconds of one monotonic clock.
pub mod Bounds
pub mod Breaker
mod Examples
use ahmed_agent.Base.{
  ℕ, zero, suc, ◌+◌, ◌-◌, ◌*◌, ◌^◌, Bool, true, false, ◌||◌, not, Option, none, some, String, List,
  [], ◌∷◌, length, min, ltb, leb, ◌==◌, str_eq, if◌then◌else◌,
}

pub data Provider : Type 0 where
  gemini openai : Provider

abbrev pub same_provider : Provider → Provider → Bool
same_provider gemini gemini = true
same_provider openai openai = true
same_provider _ _ = false

abbrev pub other_provider : Provider → Provider
other_provider gemini = openai
other_provider openai = gemini

pub data ProviderStatus : Type 0 where
  ready rate_limited unauthorized error : ProviderStatus

-- The columns of `_ProviderState` that decide something, and those that only tell of the last
-- failure and latency; its two timestamps are only shown.
pub record ProviderState : Type 0 where
  pub consecutive_429 : ℕ
  pub rate_limited_until : ℕ
  pub status : ProviderStatus
  pub last_failure_code : Option String
  pub last_latency_ms : Option ℕ

pub record States : Type 0 where
  pub of_gemini : ProviderState
  pub of_openai : ProviderState

abbrev pub state_for : Provider → States → ProviderState
state_for gemini s = s.of_gemini
state_for openai s = s.of_openai

abbrev pub put : Provider → ProviderState → States → States
put gemini p s = record s { of_gemini = p }
put openai p s = record s { of_openai = p }

-- The bounded settings of config.py and the credentials that are set.
pub record Settings : Type 0 where
  pub max_retries : ℕ
  pub circuit_threshold : ℕ
  pub cooldown : ℕ
  pub backoff_base : ℕ
  pub backoff_max : ℕ
  pub gemini_key : Bool
  pub openai_key : Bool

abbrev pub is_configured : Settings → Provider → Bool
is_configured c gemini = c.gemini_key
is_configured c openai = c.openai_key

pub data Health : Type 0 where
  not_configured : Health
  cooling_down : ℕ → Health
  healthy : ProviderStatus → Health

-- `provider_health` after the test of the credentials; it closes a circuit whose time is over.
unfoldable pub current_health : ℕ → Provider → ProviderStatus → States → Health × States
current_health now p rate_limited s =
    if ltb now (state_for p s).rate_limited_until
    then (cooling_down ((state_for p s).rate_limited_until - now), s)
    else (healthy ready, put p (record (state_for p s) { status = ready; consecutive_429 = 0 }) s)
current_health now p status s = (healthy status, s)

unfoldable pub provider_health : Settings → ℕ → Provider → States → Health × States
unfolding current_health
provider_health c now p s =
    if is_configured c p then current_health now p (state_for p s).status s else (not_configured, s)

unfoldable pub mark_ready : Provider → ℕ → States → States
mark_ready p latency_ms s =
    put p
      (record {
        consecutive_429 = 0;
        rate_limited_until = 0;
        status = ready;
        last_failure_code = none;
        last_latency_ms = some latency_ms;
      })
      s

unfoldable pub open_rate_limit : Settings → ℕ → Provider → States → States
open_rate_limit c now p s =
    put p (record (state_for p s) { status = rate_limited; rate_limited_until = now + c.cooldown })
      s

unfoldable pub mark_429 : Settings → ℕ → Provider → States → States
unfolding open_rate_limit
mark_429 c now p s =
    let counted =
      put p (record (state_for p s) { consecutive_429 = (state_for p s).consecutive_429 + 1 }) s in
    if leb c.circuit_threshold ((state_for p s).consecutive_429 + 1)
    then open_rate_limit c now p counted
    else counted

-- How a model call ends: the result, a `ModelHTTPError` by its status code with the seconds of a
-- `Retry-After` header that `float` reads, or another exception. The errors come with what
-- `_provider_error_code` finds in them.
pub data Response : Type 0 where
  succeeded : Response
  http_error : ℕ → Option ℕ → Option String → Response
  exception : Option String → Response

-- `status_code in TRANSIENT_PROVIDER_STATUS_CODES`
abbrev pub is_transient : ℕ → Bool
is_transient code = code == 429 || (code == 500 || (code == 502 || (code == 503 || code == 504)))

unfoldable pub retry_after : Settings → Option ℕ → ℕ → ℕ
retry_after c (some delay) attempt = delay
retry_after c none attempt = min c.backoff_max (c.backoff_base * 2 ^ attempt)

abbrev pub is_in : Provider → List Provider → Bool
is_in p [] = false
is_in p (q ∷ qs) = same_provider p q || is_in p qs

-- `attempted_providers.add(…)`
abbrev pub add : Provider → List Provider → List Provider
add p ps = if is_in p ps then ps else p ∷ ps

abbrev pub is_ready : Health → Bool
is_ready (healthy ready) = true
is_ready _ = false

-- `_ready_fallback`: each question for the health may close a circuit.
unfoldable pub ready_fallback :
    Settings → ℕ → List Provider → List Provider → States → Option Provider × States
unfolding provider_health
ready_fallback c now excluded [] s = (none, s)
ready_fallback c now excluded (p ∷ ps) s =
    let (health, s') = provider_health c now p s in
    let rest = ready_fallback c now excluded ps s in
    let rest' = ready_fallback c now excluded ps s' in
    if is_in p excluded then rest else if is_ready health then (some p, s') else rest'

-- `candidates`: the requested provider, then the others that are configured.
abbrev pub candidates : Settings → Provider → List Provider
candidates c p = p ∷ (if is_configured c (other_provider p) then other_provider p ∷ [] else [])

-- `UsageLimits` of an `agent.run`.
pub record UsageLimits : Type 0 where
  pub request_limit : ℕ
  pub tool_calls_limit : ℕ

abbrev pub max_model_requests : ℕ
max_model_requests = 6

abbrev pub max_tool_calls : ℕ
max_tool_calls = 6

abbrev pub usage_limits : UsageLimits
usage_limits = record { request_limit = max_model_requests; tool_calls_limit = max_tool_calls }

-- An `agent.run`: how it ends, how long it takes, and how many requests it makes to the model.
pub record AgentRun : Type 0 where
  pub response : Response
  pub took : ℕ
  pub requests : ℕ

-- `respond` by the rounds that are left.
abbrev pub Agent : Type 0
Agent = ℕ → UsageLimits → AgentRun

-- The variables of the loop; `calls`, with the runs of the agent, and `sleeps` record what it did,
-- newest first, and `requests` counts the requests of all runs.
pub record Loop : Type 0 where
  pub states : States
  pub clock : ℕ
  pub active : Provider
  pub attempted : List Provider
  pub calls : List (Provider × ℕ)
  pub requests : ℕ
  pub sleeps : List ℕ
  pub last_error : Option Response

-- What a round comes to.
pub data Round : Type 0 where
  returned : Loop → Round
  broke : Loop → Round
  goes_on : Loop → Round

module _ (c : Settings) (requested : Provider) where
  -- After a transient error, with the fallback that was found.
  unfoldable pub switch_or_wait : Option Provider → Option ℕ → Loop → Round
  unfolding retry_after
  switch_or_wait (some fallback) header l = goes_on (record l { active = fallback })
  switch_or_wait none header l =
      let delay = retry_after c header (length l.attempted - 1) in
      if leb (length l.attempted) c.max_retries
      then goes_on (record l { clock = l.clock + delay; sleeps = delay ∷ l.sleeps })
      else broke l

  unfoldable pub on_transient : ℕ → Option ℕ → Loop → Round
  unfolding switch_or_wait
  on_transient code header l =
      let marked = if code == 429 then mark_429 c l.clock l.active l.states else l.states in
      let (fallback, s) = ready_fallback c l.clock l.attempted (candidates c requested) marked in
      switch_or_wait fallback header (record l { states = s })

  unfoldable pub after_call : Response → ℕ → Loop → Round
  unfolding on_transient mark_ready
  after_call succeeded took l = returned (record l { states = mark_ready l.active took l.states })
  after_call (http_error code header found) took l =
      let failed = record l { last_error = some (http_error code header found) } in
      if is_transient code then on_transient code header failed else broke failed
  after_call (exception found) took l = broke (record l { last_error = some (exception found) })

  -- One round, with the run of the agent that it makes.
  unfoldable pub round : AgentRun → Loop → Round
  unfolding after_call
  round run l = after_call run.response run.took (record l {
    attempted = add l.active l.attempted;
    calls = (l.active, l.clock) ∷ l.calls;
    requests = l.requests + run.requests;
    clock = l.clock + run.took;
  })

  -- `for _ in range(…)`: the loop afterwards, and whether a result was returned.
  unfoldable pub rounds : ℕ → Agent → Loop → Bool × Loop
  unfolding round
  rounds zero respond l = (false, l)
  rounds (suc n) respond l = elim (round (respond n usage_limits) l) [
    | returned l' ↦ (true, l')
    | broke l' ↦ (false, l')
    | goes_on l' ↦ rounds n respond l'
  ]

-- `AgentCoreError`: its provider, its `status_code` and its `provider_status`.
pub record CoreError : Type 0 where
  pub provider : Provider
  pub status_code : Option ℕ
  pub provider_status : String

pub data Ended : Type 0 where
  answered : Provider → Ended
  failed : CoreError → Ended

abbrev pub code_of : Option Response → Option ℕ
code_of (some (http_error code header found)) = some code
code_of _ = none

abbrev pub found_code : Option Response → Option String
found_code (some (http_error code header found)) = found
found_code (some (exception found)) = found
found_code _ = none

-- `provider_code == "oauth.v2.ApiKeyNotApproved"`
abbrev pub not_approved : Option String → Bool
not_approved none = false
not_approved (some s) = str_eq s "oauth.v2.ApiKeyNotApproved"

abbrev pub is_code : ℕ → Option ℕ → Bool
is_code n none = false
is_code n (some m) = m == n

abbrev pub or_status : String → Option String → String
or_status status none = status
or_status status (some s) = if str_eq s "" then status else s

-- The last three assignments and the error.
unfoldable pub report : Provider → Option ℕ → Option String → String → Loop → Ended × Loop
report p code provider_code provider_status l = (
  failed (record { provider = p; status_code = code; provider_status = provider_status }),
  record l {
    states =
        put p
          (record (state_for p l.states) {
            last_failure_code = some (or_status provider_status provider_code);
            last_latency_ms = none;
          })
          l.states;
  },
)

-- The end of `run_ahmed`, when no call succeeded.
unfoldable pub give_up : Settings → Loop → Ended × Loop
unfolding report open_rate_limit
give_up c l =
    let code = code_of l.last_error in
    let found = found_code l.last_error in
    let p = l.active in
    if is_code 429 code
    then report p code (some "RATE_LIMITED") "RATE_LIMITED"
        (record l { states = open_rate_limit c l.clock p l.states })
    else if (is_code 401 code || is_code 403 code) || not_approved found
    then report p code found "UNAUTHORIZED" (record l {
      states = put p (record (state_for p l.states) { status = unauthorized }) l.states;
    })
    else report p code found "ERROR"
        (record l { states = put p (record (state_for p l.states) { status = error }) l.states })

unfoldable pub finish : Settings → Bool × Loop → Ended × Loop
unfolding give_up
finish c (true, l) = (answered l.active, l)
finish c (false, l) = give_up c l

abbrev pub begin : States → ℕ → Provider → Loop
begin s now p = record {
  states = s;
  clock = now;
  active = p;
  attempted = [];
  calls = [];
  requests = 0;
  sleeps = [];
  last_error = none;
}

abbrev pub is_cooling : Health → Bool
is_cooling (cooling_down _) = true
is_cooling _ = false

abbrev pub refuse : Provider → Option ℕ → String → Ended
refuse p code status =
    failed (record { provider = p; status_code = code; provider_status = status })

module _ (c : Settings) (requested : Provider) (respond : Agent) where
  unfoldable pub start_with : Option Provider → States → ℕ → Ended × Loop
  unfolding rounds finish
  start_with none s now = (refuse requested (some 429) "RATE_LIMITED", begin s now requested)
  start_with (some p) s now =
      finish c (rounds c requested (c.max_retries + 1) respond (begin s now p))

  -- `run_ahmed` for a supported provider and scope. The evidence that it prepares first does not
  -- touch the providers.
  unfoldable pub run_ahmed : States → ℕ → Ended × Loop
  unfolding start_with
  run_ahmed s now =
      let (health, s') = provider_health c now requested s in
      let (fallback, s'') = ready_fallback c now (requested ∷ []) (candidates c requested) s' in
      if not (is_configured c requested)
      then (refuse requested none "NOT_CONFIGURED", begin s now requested)
      else if is_cooling health
      then start_with fallback s'' now
      else start_with (some requested) s' now
