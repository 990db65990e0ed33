-- ===== src/Alerts/Episodes.antt =====
-- The alert of one rule over time: when it speaks, and that its episodes open and close in turn.
use native.Mathlib.Nat.{add-mul}
use ahmed_agent.Base.{
  ℕ, ◌+◌, ◌*◌, ◌≤◌, ◌<◌, ◌≡◌, ◌≢◌, refl, ◌↔◌, ◌⊎◌, Bool, true, false, Option, none, some, String,
  List, [], ◌∷◌, arith, max, if◌then◌else◌, All,
}
use ahmed_agent.Schema.{Severity, healthy, warning, critical, at, Quotient, Alert, second}
use ahmed_agent.Alerts.{
  Evaluation, Metrics, AlertEvent, opened, escalated, suppressed, closed, severity_order, is_open,
  cooled, alert_event, transition_alert, triggered, severity_for_value, rate, unhealthy,
  whole_number, evaluate_runtime_rules,
}

-- A row that `transition_alert` has made.
abbrev pub IsSettled : Alert → Type 0
IsSettled a = a.status ≡ at a.severity

event_at :
    (e : Evaluation) (current : Alert) (now : ℕ) (s next : Severity)
    → current.status ≡ at s
    → current.severity ≡ s
    → e.severity ≡ next
    → (alert_event e current now ≡ some opened ↔ (s ≡ healthy) × (next ≢ healthy))
      × (alert_event e current now ≡ some closed ↔ (s ≢ healthy) × (next ≡ healthy))
      × (alert_event e current now ≡ some escalated
          ↔ (s ≢ healthy) × (severity_order s < severity_order next))
      × (alert_event e current now ≡ some suppressed
          ↔ (s ≢ healthy)
            × (next ≢ healthy)
            × (severity_order next ≤ severity_order s)
            × (cooled current.last_triggered_at e.policy.cooldown_seconds now ≡ true))
unfolding alert_event
event_at e current now healthy healthy p q r = ground arith
event_at e current now healthy warning p q r = ground arith
event_at e current now healthy critical p q r = ground arith
event_at e current now warning healthy p q r = ground arith
event_at e current now warning warning p q r = ground arith
event_at e current now warning critical p q r = ground arith
event_at e current now critical healthy p q r = ground arith
event_at e current now critical warning p q r = ground arith
event_at e current now critical critical p q r = ground arith

-- What an evaluation says about an alert that an earlier one has settled: it opens exactly from
-- healthy to something worse, closes exactly on the way back, escalates exactly when an open alert
-- gets more severe, and repeats exactly when an open alert does not get more severe and its
-- cooldown is over.
pub alert_event_exact :
    (e : Evaluation) (current : Alert) (now : ℕ)
    → IsSettled current
    → (alert_event e current now ≡ some opened
        ↔ (current.severity ≡ healthy) × (e.severity ≢ healthy))
      × (alert_event e current now ≡ some closed
          ↔ (current.severity ≢ healthy) × (e.severity ≡ healthy))
      × (alert_event e current now ≡ some escalated
          ↔ (current.severity ≢ healthy)
            × (severity_order current.severity < severity_order e.severity))
      × (alert_event e current now ≡ some suppressed
          ↔ (current.severity ≢ healthy)
            × (e.severity ≢ healthy)
            × (severity_order e.severity ≤ severity_order current.severity)
            × (cooled current.last_triggered_at e.policy.cooldown_seconds now ≡ true))
alert_event_exact e current now settled =
    event_at e current now current.severity e.severity settled refl refl

-- The evaluations of a rule one after another, with the events.
unfoldable pub watch : List (Evaluation × ℕ) → Alert → Alert × List (Option AlertEvent)
unfolding transition_alert
watch [] a = (a, [])
watch ((e, now) ∷ rest) a =
    let (a', event) = transition_alert e a now in
    let (end, events) = watch rest a' in (end, event ∷ events)

abbrev pub is_event : AlertEvent → Option AlertEvent → Bool
is_event opened (some opened) = true
is_event escalated (some escalated) = true
is_event suppressed (some suppressed) = true
is_event closed (some closed) = true
is_event _ _ = false

abbrev pub times : AlertEvent → List (Option AlertEvent) → ℕ
times event [] = 0
times event (o ∷ os) = (if is_event event o then 1 else 0) + times event os

abbrev pub as_number : Bool → ℕ
as_number true = 1
as_number false = 0

balance_step :
    (e : Evaluation) (a : Alert) (now : ℕ)
    → let (a', event) = transition_alert e a now in
      as_number (is_open a.status) + (if is_event opened event then 1 else 0)
      ≡ as_number (is_open a'.status) + (if is_event closed event then 1 else 0)
unfolding transition_alert alert_event
balance_step e a now = ground arith

-- Over any evaluations, the episodes of an alert open and close in turn: the alert being open
-- before, and the openings, together make the number of the closings and the alert being open
-- afterwards.
pub episodes_balance :
    (es : List (Evaluation × ℕ)) (a : Alert)
    → as_number (is_open a.status) + times opened (watch es a).1
      ≡ as_number (is_open (watch es a).0.status) + times closed (watch es a).1
unfolding watch
episodes_balance [] a = refl
episodes_balance ((e, now) ∷ rest) a =
    omega (arith, balance_step e a now, episodes_balance rest (transition_alert e a now).0)

-- The times of the evaluations do not go back, from `t` on.
abbrev pub IsSorted : ℕ → List (Evaluation × ℕ) → Type 0
IsSorted t [] = Unit
IsSorted t ((e, now) ∷ rest) = (t ≤ now) × IsSorted now rest

-- Every evaluation has this cooldown.
abbrev pub Cools : ℕ → List (Evaluation × ℕ) → Type 0
Cools c [] = Unit
Cools c ((e, now) ∷ rest) = (e.policy.cooldown_seconds ≡ c) × Cools c rest

IsSorted-weaken :
    (t now : ℕ) (es : List (Evaluation × ℕ)) → t ≤ now → IsSorted now es → IsSorted t es
IsSorted-weaken t now [] le h = tt
IsSorted-weaken t now ((e, n) ∷ rest) le (first, later) = (omega arith, later)

suppressed_cooled :
    (e : Evaluation) (a : Alert) (now : ℕ)
    → alert_event e a now ≡ some suppressed
    → cooled a.last_triggered_at e.policy.cooldown_seconds now ≡ true
unfolding alert_event
suppressed_cooled e a now said = ground arith

limit_event :
    (c t : ℕ) (e : Evaluation) (a : Alert) (now : ℕ) (event : Option AlertEvent)
    → alert_event e a now ≡ event
    → a.last_triggered_at ≡ some t
    → t ≤ now
    → e.policy.cooldown_seconds ≡ c
    → (t' : ℕ) × (triggered event now a.last_triggered_at ≡ some t')
      × (t' ≤ now)
      × (t + (if is_event suppressed event then 1 else 0) * (c * second) ≤ t')
limit_event c t e a now none said is le cools = (t, is, le, omega arith)
limit_event c t e a now (some closed) said is le cools = (t, is, le, omega arith)
limit_event c t e a now (some opened) said is le cools = (now, refl, omega arith, omega arith)
limit_event c t e a now (some escalated) said is le cools = (now, refl, omega arith, omega arith)
limit_event c t e a now (some suppressed) said is le cools =
    (now, refl, omega arith, ground (arith, suppressed_cooled e a now said))

limit_step :
    (c t : ℕ) (e : Evaluation) (a : Alert) (now : ℕ)
    → a.last_triggered_at ≡ some t
    → t ≤ now
    → e.policy.cooldown_seconds ≡ c
    → (t' : ℕ) × ((transition_alert e a now).0.last_triggered_at ≡ some t')
      × (t' ≤ now)
      × (t + (if is_event suppressed (transition_alert e a now).1 then 1 else 0) * (c * second)
          ≤ t')
unfolding transition_alert
limit_step c t e a now = limit_event c t e a now (alert_event e a now) refl

two_steps : (a b k t t1 t2 : ℕ) → t + a * k ≤ t1 → t1 + b * k ≤ t2 → t + (a + b) * k ≤ t2
two_steps a b k t t1 t2 h h' = rw (add-mul a b k) (omega arith)

-- Repetitions are limited: if an alert was triggered at `t`, the evaluations of one cooldown follow
-- in time, and there are `n` repetitions among their events, then the alert was triggered last at
-- least `n` cooldowns after `t`.
pub suppressed_rate_limited :
    (c t : ℕ) (es : List (Evaluation × ℕ)) (a : Alert)
    → a.last_triggered_at ≡ some t
    → IsSorted t es
    → Cools c es
    → (t' : ℕ) × ((watch es a).0.last_triggered_at ≡ some t')
      × (t + times suppressed (watch es a).1 * (c * second) ≤ t')
unfolding watch
suppressed_rate_limited c t [] a is sorted cools = (t, is, omega arith)
suppressed_rate_limited c t ((e, now) ∷ rest) a is (first, later) (cool, cools) =
    let (t1, is1, early, step) = limit_step c t e a now is first cool in
    let (t2, is2, more) =
      suppressed_rate_limited c t1 rest (transition_alert e a now).0 is1
        (IsSorted-weaken t1 now rest early later) cools in
    (t2, is2, two_steps _ _ (c * second) t t1 t2 step more)

health_exact : (b : Bool) → (severity_for_value (unhealthy b) 1 1 100 100 ≡ healthy) ↔ (b ≡ true)
unfolding severity_for_value
health_exact true = ground arith
health_exact false = ground arith

count_exact : (n c : ℕ) → (severity_for_value (whole_number n) 1 n 100 c ≡ healthy) ↔ (n ≡ 0)
unfolding severity_for_value
count_exact n c = ground arith

rate_exact :
    (m : Metrics)
    → (severity_for_value (rate m) 5 m.total_runs 40 75 ≡ healthy)
      ↔ ((m.total_runs < 5) ⊎ (100 * m.failed_runs < 40 * m.total_runs))
unfolding severity_for_value
rate_exact m = ground arith

max_zero : (a b : ℕ) → (max a b ≡ 0) ↔ ((a ≡ 0) × (b ≡ 0))
max_zero a b = omega arith

-- No rule speaks exactly when the service and the audit log are healthy, no run is orphaned, no
-- lease has expired, no recovery has failed, and there are fewer than five runs or fewer than 40
-- percent of them have failed.
pub no_alarm_exact :
    (round4 : Quotient → String) (m : Metrics) (service_healthy audit_healthy : Bool)
    → All
        (λ (e : Evaluation). e.severity ≡ healthy)
        (evaluate_runtime_rules round4 m service_healthy audit_healthy)
      ↔ ((service_healthy ≡ true)
          × (audit_healthy ≡ true)
          × (m.orphaned_runs ≡ 0)
          × (m.lease_expirations ≡ 0)
          × (m.recovery_failures ≡ 0)
          × ((m.total_runs < 5) ⊎ (100 * m.failed_runs < 40 * m.total_runs)))
unfolding evaluate_runtime_rules
no_alarm_exact round4 m s a = (
  λ (hs, (ha, (ho, (hr, (hf, u))))).
      let orphans = (max_zero m.orphaned_runs m.lease_expirations).0 ((count_exact _ 300).0 ho) in
      (
        (health_exact s).0 hs,
        (health_exact a).0 ha,
        orphans.0,
        orphans.1,
        (count_exact m.recovery_failures 200).0 hr,
        (rate_exact m).0 hf,
      ),
  λ (hs, ha, ho, hl, hr, hf). (
    (health_exact s).1 hs,
    (
      (health_exact a).1 ha,
      (
        (count_exact _ 300).1 ((max_zero m.orphaned_runs m.lease_expirations).1 (ho, hl)),
        ((count_exact m.recovery_failures 200).1 hr, ((rate_exact m).1 hf, tt)),
      ),
    ),
  ),
)
