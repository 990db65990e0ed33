-- ===== src/Alerts/Examples.antt =====
-- Alerts at concrete inputs: the failure rate over time, and a healthy system.
use ahmed_agent.Base.{
  ℕ, ◌+◌, ◌*◌, ◌≤◌, ◌<◌, ◌≡◌, ◌≢◌, refl, ◌↔◌, true, none, some, List, [], ◌∷◌, arith,
}
use ahmed_agent.Base.Json.{obj, end}
use ahmed_agent.Schema.{Alert, Severity, healthy, warning, critical, at, second}
use ahmed_agent.Audit.{Hashing}
use ahmed_agent.Alerts.{
  Evaluation, Metrics, opened, escalated, suppressed, closed, severity_order, is_open, cooled,
  alert_event, service_health, fresh, whole_number,
}
use ahmed_agent.Alerts.Episodes.{
  alert_event_exact, watch, times, as_number, episodes_balance, suppressed_rate_limited,
}

abbrev plain : Hashing
plain = record { sha256 = λ s. s; canonical_json = λ p. p.event_type }

abbrev evaluation : Severity → Evaluation
evaluation severity = record {
  rule = "service_health";
  severity = severity;
  value = whole_number 1;
  sample_size = 1;
  evidence = obj end;
  policy = service_health;
}

abbrev open_alert : Alert
open_alert = record (fresh (evaluation warning)) {
  status = at warning;
  severity = warning;
  last_triggered_at = some 0;
}

abbrev history : List (Evaluation × ℕ)
history =
    (evaluation warning, 100 * second)
    ∷ (evaluation warning, 900 * second)
    ∷ (evaluation critical, 901 * second)
    ∷ (evaluation healthy, 902 * second)
    ∷ (evaluation warning, 903 * second)
    ∷ []

speaks :
    (watch history open_alert).1
    ≡ none ∷ some suppressed ∷ some escalated ∷ some closed ∷ some opened ∷ []
unfolding watch alert_event service_health
speaks = refl

alert_event_exact_example :
    let e = evaluation critical in
    (alert_event e open_alert 5 ≡ some opened ↔ (warning ≡ healthy) × (critical ≢ healthy))
    × (alert_event e open_alert 5 ≡ some closed ↔ (warning ≢ healthy) × (critical ≡ healthy))
    × (alert_event e open_alert 5 ≡ some escalated
        ↔ (warning ≢ healthy) × (severity_order warning < severity_order critical))
    × (alert_event e open_alert 5 ≡ some suppressed
        ↔ (warning ≢ healthy)
          × (critical ≢ healthy)
          × (severity_order critical ≤ severity_order warning)
          × (cooled (some 0) e.policy.cooldown_seconds 5 ≡ true))
alert_event_exact_example = alert_event_exact (evaluation critical) open_alert 5 refl

episodes_balance_example :
    as_number (is_open open_alert.status) + times opened (watch history open_alert).1
    ≡ as_number (is_open (watch history open_alert).0.status)
      + times closed (watch history open_alert).1
episodes_balance_example = episodes_balance history open_alert

cooldown : service_health.cooldown_seconds ≡ 900
unfolding service_health
cooldown = refl

suppressed_rate_limited_example :
    (t : ℕ) × ((watch history open_alert).0.last_triggered_at ≡ some t)
    × (0 + times suppressed (watch history open_alert).1 * (900 * second) ≤ t)
suppressed_rate_limited_example =
    suppressed_rate_limited 900 0 history open_alert refl
      (omega arith, (omega arith, (omega arith, (omega arith, (omega arith, tt)))))
      (cooldown, (cooldown, (cooldown, (cooldown, (cooldown, tt)))))

abbrev metrics : Metrics
metrics = record {
  total_runs = 10;
  failed_runs = 3;
  orphaned_runs = 0;
  lease_expirations = 0;
  recovery_failures = 0;
  recovery_failed_runs = 0;
}
