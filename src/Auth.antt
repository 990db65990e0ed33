-- ===== src/Auth.antt =====
-- auth.py: the single owner's authentication, with a delay after failed attempts. Times are in
-- microseconds of the monotonic clock, which the code reads at three points of an attempt.
pub mod Throttle
pub mod Guesses
pub mod Admit
pub mod Frame
mod Examples
use Prim.Native.Nat.{◌^◌, ◌-◌}
use ahmed_agent.Base.{
  ℕ, ◌+◌, ◌*◌, Bool, true, false, ◌||◌, not, Option, none, some, String, List, [], ◌∷◌, ltb, leb,
  str_eq, min, if◌then◌else◌,
}
use ahmed_agent.Schema.{second}
use ahmed_agent.Exec.{Exec, World, Result, pure}
use ahmed_agent.Audit.{Hashing}
use ahmed_agent.Events.{record_auth_event}

pub record Attempts : Type 0 where
  pub failures : ℕ
  pub last_failure : ℕ

-- `_failed_attempts`: a dictionary, by the key of the client.
abbrev pub Store : Type 0
Store = String → Option Attempts

abbrev pub put : String → Option Attempts → Store → Store
put key entry store k = if str_eq k key then entry else store k

-- The header is given by its parts: what `str.partition`, `lower` and `strip` make of it.
pub record Request : Type 0 where
  pub host : Option String
  pub scheme : String
  pub separator : Bool
  pub token : String
  pub checked : ℕ  -- `time.monotonic()` where the entry's age is checked
  pub measured : ℕ  -- where the remaining delay is computed
  pub recorded : ℕ  -- where a failure is recorded

-- `getattr(client, "host", None) or "unknown"`
unfoldable pub client_key : Option String → String
client_key none = "unknown"
client_key (some host) = if str_eq host "" then "unknown" else host

abbrev pub reset : ℕ
reset = 15 * 60 * second

-- `_AUTH_BACKOFF_BASE_SECONDS * (2 ** (failures - 1))`; `none` is the OverflowError of a power that
-- is no float.
abbrev pub backoff : ℕ → Option ℕ
backoff failures =
    if leb 1025 failures then none else some (min (second * 2 ^ (failures - 1)) (60 * second))

abbrev pub remaining : ℕ → ℕ → Option ℕ → Option ℕ
remaining last_failure measured none = none
remaining last_failure measured (some delay) = some (last_failure + delay - measured)

-- What is left to wait, and the store afterwards.
unfoldable pub delay_of : String → Option Attempts → ℕ → ℕ → Store → Option ℕ × Store
delay_of key none checked measured store = (some 0, store)
delay_of key (some a) checked measured store =
    if ltb (a.last_failure + reset) checked
    then (some 0, put key none store)
    else (remaining a.last_failure measured (backoff a.failures), store)

unfoldable pub throttle_delay : String → ℕ → ℕ → Store → Option ℕ × Store
unfolding delay_of
throttle_delay key checked measured store = delay_of key (store key) checked measured store

abbrev pub failures_of : Option Attempts → ℕ
failures_of none = 0
failures_of (some a) = a.failures

unfoldable pub record_failure : String → ℕ → Store → Store
record_failure key now store =
    put key (some (record { failures = failures_of (store key) + 1; last_failure = now })) store

unfoldable pub clear_failures : String → Store → Store
clear_failures key store = put key none store

-- The answers of `authorize_owner`: 429, 401, 200, or an exception that leaves it.
pub data Authorization : Type 0 where
  throttled unauthenticated authenticated raised : Authorization

-- How a route for the owner ends: it turns the request away, or runs for the user.
pub data Guarded (A : Type 0) : Type 0 where
  turned_away : Authorization → Guarded A
  entered : Result A → Guarded A

-- `_OWNER_USER.user_id`
abbrev pub owner_user : String
owner_user = "owner"

-- `secrets.compare_digest`; `none` where it raises TypeError, for a text that is not ASCII.
module _ (compare_digest : String → String → Option Bool) (owner_token : String) where
  unfoldable pub get_authenticated_user : Request → Option Bool
  get_authenticated_user q =
      if not q.separator || not (str_eq q.scheme "bearer")
      then some false
      else if str_eq owner_token "" || str_eq q.token ""
      then some false
      else compare_digest q.token owner_token

  unfoldable pub after_compare : String → ℕ → Store → Option Bool → Authorization × Store
  unfolding record_failure clear_failures
  after_compare key now store none = (raised, store)
  after_compare key now store (some false) = (unauthenticated, record_failure key now store)
  after_compare key now store (some true) = (authenticated, clear_failures key store)

  unfoldable pub after_delay : String → Request → Option ℕ × Store → Authorization × Store
  unfolding after_compare get_authenticated_user
  after_delay key q (none, store) = (raised, store)
  after_delay key q (some delay, store) =
      if ltb 0 delay
      then (throttled, store)
      else after_compare key q.recorded store (get_authenticated_user q)

  -- The decision of `authorize_owner`.
  unfoldable pub decide : Request → Store → Authorization × Store
  unfolding client_key throttle_delay after_delay
  decide q store =
      let key = client_key q.host in
      after_delay key q (throttle_delay key q.checked q.measured store)

  -- Every audit failure is swallowed.
  abbrev swallow : Result (Unit {0}) × World → World
  swallow (r, w) = w

  audit_of : Authorization → Option (Bool × String)
  audit_of throttled = some (false, "throttled")
  audit_of unauthenticated = some (false, "unauthenticated")
  audit_of authenticated = some (true, "authenticated")
  audit_of raised = none

  record_attempt :
      Hashing → (ℕ → String) → String → Option ℕ → Option (Bool × String) → World → World
  record_attempt h uuid_text endpoint action_id none w = w
  record_attempt h uuid_text endpoint action_id (some (known, result)) w =
      swallow (record_auth_event h uuid_text "owner" known endpoint action_id result w)

  -- The decision and its audit event.
  unfoldable pub authorize_owner :
      Hashing
      → (ℕ → String)
      → String
      → Option ℕ
      → Request
      → Store × World
      → Authorization × (Store × World)
  unfolding decide audit_of record_attempt
  authorize_owner h uuid_text endpoint action_id q (store, w) =
      let (answer, store') = decide q store in
      (answer, (store', record_attempt h uuid_text endpoint action_id (audit_of answer) w))

  -- `user is not None`
  abbrev pub admits : Authorization → Bool
  admits authenticated = true
  admits _ = false

  -- The rest of a route, after its `authorize_owner`.
  abbrev pub go_on :
      {A : Type 0}
      → (String → Exec A)
      → Authorization × (Store × World)
      → Guarded A × (Store × World)
  go_on route (authenticated, (store, w)) =
      let (r, w') = route owner_user w in (entered r, (store, w'))
  go_on route (answer, state) = (turned_away answer, state)

  -- A route for the owner alone.
  unfoldable pub with_owner :
      {A : Type 0}
      → Hashing
      → (ℕ → String)
      → String
      → Option ℕ
      → (String → Exec A)
      → Request
      → Store × World
      → Guarded A × (Store × World)
  unfolding authorize_owner
  with_owner h uuid_text endpoint action_id route q state =
      go_on route (authorize_owner h uuid_text endpoint action_id q state)
