-- ===== src/Auth/Guesses.antt =====
-- How many tokens a client can have compared in a time.
use mathlib.Core.Path.{subst}
use ahmed_agent.Base.{
  ℕ, ◌+◌, ◌*◌, ◌≤◌, ◌≡◌, ◌≢◌, refl, sym, inl, inr, Bool, true, false, Option, none, some, String,
  List, [], ◌∷◌, arith, ltb, str_eq, eq_iff, Bool-cases, if◌then◌else◌,
}
use ahmed_agent.Schema.{second}
use ahmed_agent.Auth.{
  Attempts, Store, Request, client_key, reset, delay_of, throttle_delay, record_failure,
  clear_failures, Authorization, throttled, unauthenticated, authenticated, raised,
  get_authenticated_user, after_compare, after_delay, decide,
}
use ahmed_agent.Auth.Throttle.{credit, IsPast, counted, put_other, kept_paid, entry_paid}

module _ (compare_digest : String → String → Option Bool) (owner_token : String) where
  after_compare_other :
      (key k : String) (now : ℕ) (store : Store) (o : Option Bool)
      → str_eq k key ≡ false
      → (after_compare compare_digest owner_token key now store o).1 k ≡ store k
  unfolding after_compare record_failure clear_failures
  after_compare_other key k now store none e = refl
  after_compare_other key k now store (some true) e = put_other key k _ store e
  after_compare_other key k now store (some false) e = put_other key k _ store e

  after_delay_other :
      (key k : String) (q : Request) (delay : Option ℕ) (store : Store)
      → str_eq k key ≡ false
      → (after_delay compare_digest owner_token key q (delay, store)).1 k ≡ store k
  unfolding after_delay
  after_delay_other key k q none store e = refl
  after_delay_other key k q (some delay) store e = elim (Bool-cases (ltb 0 delay)) [
    | inl early ↦ rw early refl
    | inr over ↦ rw over (after_compare_other key k q.recorded store _ e)
  ]

  delay_of_other :
      (key k : String) (entry : Option Attempts) (checked measured : ℕ) (store : Store)
      → str_eq k key ≡ false
      → (delay_of key entry checked measured store).1 k ≡ store k
  unfolding delay_of
  delay_of_other key k none checked measured store e = refl
  delay_of_other key k (some a) checked measured store e =
      elim (Bool-cases (ltb (a.last_failure + reset) checked)) [
        | inl old ↦ rw old (put_other key k none store e)
        | inr recent ↦ rw recent refl
      ]

  abbrev pub is_guess : Authorization → ℕ
  is_guess unauthenticated = 1
  is_guess _ = 0

  -- The failed guesses of one client among attempts that come one after another.
  unfoldable pub guesses : String → List Request → Store → ℕ
  unfolding decide
  guesses k [] store = 0
  guesses k (q ∷ qs) store =
      let (answer, store') = decide compare_digest owner_token q store in
      (if str_eq k (client_key q.host) then is_guess answer else 0) + guesses k qs store'

  -- The attempts follow in time from `t` on, none has the owner's token, and they end by `end`.
  abbrev pub InOrder : ℕ → ℕ → List Request → Type 0
  InOrder t end [] = t ≤ end
  InOrder t end (q ∷ qs) =
      (t ≤ q.checked)
      × (q.checked ≤ q.measured)
      × (q.measured ≤ q.recorded)
      × (get_authenticated_user compare_digest owner_token q ≢ some true)
      × InOrder q.recorded end qs

  counted_guess : (a : Authorization) → counted a ≡ is_guess a * (60 * second)
  counted_guess throttled = refl
  counted_guess unauthenticated = refl
  counted_guess authenticated = refl
  counted_guess raised = refl

  delayed_other :
      (key k : String) (q : Request) (d : Option ℕ × Store)
      → str_eq k key ≡ false
      → (after_delay compare_digest owner_token key q d).1 k ≡ d.1 k
  delayed_other key k q (delay, store) e = after_delay_other key k q delay store e

  other_paid :
      (k : String) (q : Request) (store : Store) (t : ℕ)
      → str_eq k (client_key q.host) ≡ false
      → IsPast t (store k)
      → t ≤ q.recorded
      → let r = decide compare_digest owner_token q store in
        (credit (store k) t + 0 ≤ credit (r.1 k) q.recorded) × IsPast q.recorded (r.1 k)
  unfolding decide throttle_delay
  other_paid k q store t other past le =
      rw
        (
          delayed_other (client_key q.host) k q _ other,
          delay_of_other (client_key q.host) k _ q.checked q.measured store other,
        )
        (kept_paid compare_digest owner_token (store k) t q.recorded past le)

  own_paid :
      (q : Request) (store : Store) (t : ℕ)
      → get_authenticated_user compare_digest owner_token q ≢ some true
      → IsPast t (store (client_key q.host))
      → t ≤ q.checked
      → q.checked ≤ q.measured
      → q.measured ≤ q.recorded
      → let r = decide compare_digest owner_token q store in
        (credit (store (client_key q.host)) t + is_guess r.0 * (60 * second)
          ≤ credit (r.1 (client_key q.host)) q.recorded)
        × IsPast q.recorded (r.1 (client_key q.host))
  unfolding decide throttle_delay
  own_paid q store t wrong past a b c =
      let key = client_key q.host in
      let (paid, later) =
        entry_paid compare_digest owner_token key q wrong b c store (store key) t refl past a in
      (
        omega (
          arith,
          paid,
          counted_guess
              (after_delay compare_digest owner_token key q
                (delay_of key (store key) q.checked q.measured store)).0,
        ),
        later,
      )

  attempt_paid :
      (k : String) (q : Request) (store : Store) (t : ℕ)
      → get_authenticated_user compare_digest owner_token q ≢ some true
      → IsPast t (store k)
      → t ≤ q.checked
      → q.checked ≤ q.measured
      → q.measured ≤ q.recorded
      → let r = decide compare_digest owner_token q store in
        (credit (store k) t
            + (if str_eq k (client_key q.host) then is_guess r.0 else 0) * (60 * second)
          ≤ credit (r.1 k) q.recorded)
        × IsPast q.recorded (r.1 k)
  attempt_paid k q store t wrong past a b c = elim (Bool-cases (str_eq k (client_key q.host))) [
    | inr other ↦ rw other (other_paid k q store t other past (omega arith))
    | inl same ↦
        let is = (eq_iff k (client_key q.host)).0 same in
        rw same (
          subst
            (λ x.
              (credit (store x) t
                  + is_guess (decide compare_digest owner_token q store).0 * (60 * second)
                ≤ credit ((decide compare_digest owner_token q store).1 x) q.recorded)
              × IsPast q.recorded ((decide compare_digest owner_token q store).1 x))
            (sym is) (own_paid q store t wrong (subst (λ x. IsPast t (store x)) is past) a b c))
  ]

  credit_bound :
      (entry : Option Attempts) (t end : ℕ)
      → IsPast t entry
      → t ≤ end
      → credit entry t ≤ end + 7 * (60 * second)
  credit_bound none t end past le = omega arith
  credit_bound (some a) t end past le = omega arith

  guesses_paid :
      (k : String) (qs : List Request) (store : Store) (t end : ℕ)
      → IsPast t (store k)
      → InOrder t end qs
      → credit (store k) t + guesses k qs store * (60 * second) ≤ end + 7 * (60 * second)
  unfolding guesses
  guesses_paid k [] store t end past order = omega (arith, credit_bound (store k) t end past order)
  guesses_paid k (q ∷ qs) store t end past (a, b, c, wrong, order) =
      let (paid, later) = attempt_paid k q store t wrong past a b c in
      let rest =
        guesses_paid k qs (decide compare_digest owner_token q store).1 q.recorded end later
          order in
      omega (arith, paid, rest)

  -- A client that starts without failures has at most seven tokens compared and refused, and one
  -- more for each minute between the start and the end, whatever attempts other clients make. The
  -- attempts follow in time, and none of them has a token that is accepted.
  pub guesses_bounded :
      (k : String) (qs : List Request) (store : Store) (start end : ℕ)
      → store k ≡ none
      → InOrder start end qs
      → start + guesses k qs store * (60 * second) ≤ end + 7 * (60 * second)
  guesses_bounded k qs store start end fresh order =
      let paid = guesses_paid k qs store start end (subst (IsPast start) (sym fresh) tt) order in
      omega (arith, rw fresh at paid)
