-- ===== src/Auth/Throttle.antt =====
-- What an attempt costs its client in time.
use native.Mathlib.Nat.{pow-le-pow_right}
use mathlib.Core.Path.{subst}
use mathlib.Core.Option.{some-injective}
use Prim.Native.Nat.{◌^◌, ◌-◌}
use ahmed_agent.Base.{
  ℕ, ◌+◌, ◌*◌, ◌≤◌, ◌<◌, ◌≡◌, ◌≢◌, refl, sym, ◌∙◌, inl, inr, Bool, true, false, Option, none, some,
  String, arith, ltb, str_eq, eq_iff, min, Bool-cases,
}
use ahmed_agent.Schema.{second}
use ahmed_agent.Auth.{
  Attempts, Store, put, Request, reset, backoff, remaining, delay_of, failures_of, record_failure,
  Authorization, unauthenticated, get_authenticated_user, after_compare, after_delay,
}

-- The time that an entry stands for: its last failure, and a minute for each of seven failures.
abbrev pub credit : Option Attempts → ℕ → ℕ
credit none t = t
credit (some a) t = 60 * second * min a.failures 7 + a.last_failure

abbrev pub IsPast : ℕ → Option Attempts → Type 0
IsPast t none = Unit
IsPast t (some a) = a.last_failure ≤ t

abbrev pub counted : Authorization → ℕ
counted unauthenticated = 60 * second
counted _ = 0

-- What an attempt may not do to the entry of its client.
abbrev pub Paid : Option Attempts → ℕ → Authorization → Option Attempts → ℕ → Type 0
Paid before t answer after now =
    (credit before t + counted answer ≤ credit after now) × IsPast now after

-- The seventh failure in a row has a delay of a minute, and so has any later one.
long_delay : (f delay : ℕ) → 7 ≤ f → backoff f ≡ some delay → 60 * second ≤ delay
long_delay f delay long e =
    let six : 6 ≤ f - 1 = omega arith in
    let big : 2 ^ 6 ≤ 2 ^ (f - 1) = pow-le-pow_right (omega arith) six in ground (arith, big)

pub put_self :
    (key : String) (entry : Option Attempts) (store : Store) → put key entry store key ≡ entry
put_self key entry store = ground (arith, eq_iff key key)

pub put_other :
    (key k : String) (entry : Option Attempts) (store : Store)
    → str_eq k key ≡ false
    → put key entry store k ≡ store k
put_other key k entry store e = rw e refl

module _ (compare_digest : String → String → Option Bool) (owner_token : String) where
  abbrev IsWrong : Request → Type 0
  IsWrong q = get_authenticated_user compare_digest owner_token q ≢ some true

  failure-Paid :
      (entry : Option Attempts) (t now : ℕ)
      → IsPast t entry
      → t ≤ now
      → ((a : Attempts) → entry ≡ some a → 7 ≤ a.failures → a.last_failure + 60 * second ≤ now)
      → Paid entry t unauthenticated
          (some (record { failures = failures_of entry + 1; last_failure = now }))
          now
  failure-Paid none t now past le wait = (omega arith, omega arith)
  failure-Paid (some a) t now past le wait = (ground (arith, wait a refl), omega arith)

  pub kept_paid :
      (entry : Option Attempts) (t now : ℕ)
      → IsPast t entry
      → t ≤ now
      → (credit entry t + 0 ≤ credit entry now) × IsPast now entry
  kept_paid none t now past le = (omega arith, tt)
  kept_paid (some a) t now past le = (omega arith, omega arith)

  compare-Paid :
      (key : String) (store : Store) (t now : ℕ) (o : Option Bool)
      → o ≢ some true
      → IsPast t (store key)
      → t ≤ now
      → ((a : Attempts) → store key ≡ some a → 7 ≤ a.failures → a.last_failure + 60 * second ≤ now)
      → let r = after_compare compare_digest owner_token key now store o in
        Paid (store key) t r.0 (r.1 key) now
  unfolding after_compare record_failure
  compare-Paid key store t now none wrong past le wait = kept_paid (store key) t now past le
  compare-Paid key store t now (some true) wrong past le wait = absurd (wrong refl)
  compare-Paid key store t now (some false) wrong past le wait =
      rw
        (put_self key (some (record { failures = failures_of (store key) + 1; last_failure = now }))
          store)
        (failure-Paid (store key) t now past le wait)

  -- The same, for an entry that is known.
  compare_known :
      (key : String) (store : Store) (entry : Option Attempts) (t now : ℕ) (o : Option Bool)
      → store key ≡ entry
      → o ≢ some true
      → IsPast t entry
      → t ≤ now
      → ((a : Attempts) → entry ≡ some a → 7 ≤ a.failures → a.last_failure + 60 * second ≤ now)
      → let r = after_compare compare_digest owner_token key now store o in
        Paid entry t r.0 (r.1 key) now
  compare_known key store entry t now o e wrong past le wait =
      subst
        (λ x.
          Paid x t (after_compare compare_digest owner_token key now store o).0
            ((after_compare compare_digest owner_token key now store o).1 key) now)
        e
        (compare-Paid key store t now o wrong (subst (IsPast t) (sym e) past) le
          (λ a is. wait a (sym e ∙ is)))

  module _ (key : String) (q : Request) (wrong : IsWrong q) (first : q.checked ≤ q.measured)
      (second_ : q.measured ≤ q.recorded) where
    abbrev Attempted : Option Attempts → ℕ → Option ℕ × Store → Type 0
    Attempted entry t delayed =
        Paid entry t (after_delay compare_digest owner_token key q delayed).0
          ((after_delay compare_digest owner_token key q delayed).1 key) q.recorded

    remaining_paid :
        (store : Store) (a : Attempts) (t : ℕ) (delay : Option ℕ)
        → store key ≡ some a
        → backoff a.failures ≡ delay
        → IsPast t (some a)
        → t ≤ q.checked
        → Attempted (some a) t (remaining a.last_failure q.measured delay, store)
    unfolding after_delay
    remaining_paid store a t none e b past le =
        rw e (kept_paid (some a) t q.recorded past (omega arith))
    remaining_paid store a t (some delay) e b past le =
        elim (Bool-cases (ltb 0 (a.last_failure + delay - q.measured))) [
          | inl early ↦ rw (early, e) (kept_paid (some a) t q.recorded past (omega arith))
          | inr over ↦ rw over (
              compare_known key store (some a) t q.recorded _ e wrong past (omega arith)
                (λ a' is long.
                  let same = some-injective _ _ is in
                  subst (λ x. x.last_failure + 60 * second ≤ q.recorded) same
                    (let minute =
                        long_delay a.failures delay (subst (λ x. 7 ≤ x.failures) (sym same) long)
                          b in
                      ground (arith, minute))))
        ]

    reset_paid :
        (store : Store) (a : Attempts) (t : ℕ)
        → a.last_failure + reset < q.checked
        → IsPast t (some a)
        → Attempted (some a) t (some 0, put key none store)
    unfolding after_delay
    reset_paid store a t old past =
        let (paid, later) =
          compare_known key (put key none store) none q.checked q.recorded
            (get_authenticated_user compare_digest owner_token q) (put_self key none store) wrong tt
            (omega arith) (λ a' is. absurd (cc is)) in
        (omega (arith, paid), later)

    pub entry_paid :
        (store : Store) (entry : Option Attempts) (t : ℕ)
        → store key ≡ entry
        → IsPast t entry
        → t ≤ q.checked
        → Attempted entry t (delay_of key entry q.checked q.measured store)
    unfolding delay_of after_delay
    entry_paid store none t e past le =
        compare_known key store none t q.recorded _ e wrong past (omega arith)
          (λ a is. absurd (cc is))
    entry_paid store (some a) t e past le =
        elim (Bool-cases (ltb (a.last_failure + reset) q.checked)) [
          | inl old ↦ rw old (reset_paid store a t (ground arith) past)
          | inr recent ↦ rw recent (remaining_paid store a t (backoff a.failures) e refl past le)
        ]
