-- ===== src/Providers/Examples.antt =====
-- The providers at concrete settings: two retries, and a circuit that stays open for 30 seconds.
use ahmed_agent.Base.{ℕ, ◌≤◌, ◌≡◌, refl, true, false, Bool, none, some, [], ◌∷◌, length, All, arith}
use ahmed_agent.Providers.{
  Provider, gemini, openai, ProviderState, ready, rate_limited, States, Settings, is_configured,
  http_error, refuse, begin, provider_health, ready_fallback, mark_429, run_ahmed, Loop, Agent,
}
use ahmed_agent.Providers.Bounds.{run_ahmed_bounds}
use ahmed_agent.Providers.Breaker.{open_circuit_calls_nobody, rate_limited_opens, IsOpen}

abbrev settings : ℕ → Bool → Settings
settings max_retries openai_key = record {
  max_retries = max_retries;
  circuit_threshold = 3;
  cooldown = 30000;
  backoff_base = 1000;
  backoff_max = 30000;
  gemini_key = true;
  openai_key = openai_key;
}

abbrev fresh : ProviderState
fresh = record {
  consecutive_429 = 0;
  rate_limited_until = 0;
  status = ready;
  last_failure_code = none;
  last_latency_ms = none;
}

abbrev both_ready : States
both_ready = record { of_gemini = fresh; of_openai = fresh }

abbrev cooling : States
cooling = record both_ready {
  of_gemini = record fresh { status = rate_limited; rate_limited_until = 9000 };
}

abbrev always_429 : Agent
always_429 n limits = record { response = http_error 429 none none; took = 10; requests = 1 }

-- With one provider every retry waits as long as the first one, also after the last call.
backoff_never_grows :
    (run_ahmed (settings 2 false) gemini always_429 both_ready 0).1.sleeps ≡ 1000 ∷ 1000 ∷ 1000 ∷ []
unfolding run_ahmed provider_health ready_fallback mark_429
backoff_never_grows = refl

-- Without retries the fallback that was never called is reported, and its circuit is opened.
fallback_is_blamed :
    (run_ahmed (settings 0 true) gemini always_429 both_ready 0).0
    ≡ refuse openai (some 429) "RATE_LIMITED"
unfolding run_ahmed provider_health ready_fallback mark_429
fallback_is_blamed = refl

only_gemini_called :
    (run_ahmed (settings 0 true) gemini always_429 both_ready 0).1.calls ≡ (gemini, 0) ∷ []
unfolding run_ahmed provider_health ready_fallback mark_429
only_gemini_called = refl

run_ahmed_bounds_example :
    ((run_ahmed (settings 2 true) gemini always_429 both_ready 0).1.requests ≤ 18)
    × (length (run_ahmed (settings 2 true) gemini always_429 both_ready 0).1.calls ≤ 3)
    × All
        (λ (call : Provider × ℕ). is_configured (settings 2 true) call.0 ≡ true)
        (run_ahmed (settings 2 true) gemini always_429 both_ready 0).1.calls
run_ahmed_bounds_example =
    run_ahmed_bounds (settings 2 true) gemini always_429 (λ n limits positive. omega arith)
      both_ready 0

open_circuit_calls_nobody_example :
    run_ahmed (settings 2 false) gemini always_429 cooling 5000
    ≡ (refuse gemini (some 429) "RATE_LIMITED", begin cooling 5000 gemini)
open_circuit_calls_nobody_example =
    open_circuit_calls_nobody (settings 2 false) gemini always_429 cooling 5000 refl refl
      (refl, omega arith)

abbrev after_429 : Loop
after_429 = (run_ahmed (settings 2 false) gemini always_429 both_ready 0).1

rate_limited_opens_example : IsOpen after_429.clock gemini after_429.states
unfolding run_ahmed provider_health ready_fallback mark_429
rate_limited_opens_example =
    rate_limited_opens (settings 2 false) (omega arith) gemini always_429 both_ready 0
      (record { provider = gemini; status_code = some 429; provider_status = "RATE_LIMITED" })
      after_429 refl refl
