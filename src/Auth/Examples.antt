-- ===== src/Auth/Examples.antt =====
-- Authentication at concrete inputs, with a comparison that compares.
use ahmed_agent.Base.{
  ℕ, ◌+◌, ◌*◌, ◌≤◌, ◌≡◌, ◌≢◌, refl, true, false, Bool, Option, none, some, String, List, [], ◌∷◌,
  str_eq, arith,
}
use ahmed_agent.Schema.{second}
use ahmed_agent.Auth.{
  Store, Request, client_key, get_authenticated_user, decide, authenticated, raised, throttle_delay,
}
use ahmed_agent.Auth.Guesses.{guesses, guesses_bounded}

abbrev compare : String → String → Option Bool
compare a b = some (str_eq a b)

abbrev attempt : String → ℕ → Request
attempt token t = record {
  host = some "1.2.3.4";
  scheme = "bearer";
  separator = true;
  token = token;
  checked = t;
  measured = t;
  recorded = t;
}

abbrev nobody : Store
nobody key = none

-- Two guesses at once, of which the second is throttled, and one two seconds later.
abbrev attack : List Request
attack = attempt "a" 5 ∷ attempt "b" 6 ∷ attempt "c" (2 * second) ∷ []

two_compared : guesses compare "secret" "1.2.3.4" attack nobody ≡ 2
unfolding guesses client_key throttle_delay get_authenticated_user
two_compared = refl

is_wrong :
    (t : String)
    → str_eq t "secret" ≡ false
    → (n : ℕ) → get_authenticated_user compare "secret" (attempt t n) ≢ some true
unfolding get_authenticated_user
is_wrong t e n is = ground arith

guesses_bounded_example :
    0 + guesses compare "secret" "1.2.3.4" attack nobody * (60 * second)
    ≤ 2 * second + 7 * (60 * second)
guesses_bounded_example =
    guesses_bounded compare "secret" "1.2.3.4" attack nobody 0 (2 * second) refl (
      omega arith,
      omega arith,
      omega arith,
      is_wrong "a" refl 5,
      (
        omega arith,
        omega arith,
        omega arith,
        is_wrong "b" refl 6,
        (omega arith, omega arith, omega arith, is_wrong "c" refl (2 * second), omega arith),
      ),
    )

lets_in : (decide compare "secret" (attempt "secret" 5) nobody).0 ≡ authenticated
unfolding decide client_key throttle_delay get_authenticated_user
lets_in = refl

abbrev after_many : Store
after_many key = some (record { failures = 1025; last_failure = 0 })

-- After 1025 failures the delay overflows, and the right token raises too.
overflows : (decide compare "secret" (attempt "secret" 5) after_many).0 ≡ raised
unfolding decide client_key throttle_delay get_authenticated_user
overflows = refl
