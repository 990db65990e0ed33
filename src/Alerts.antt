-- ===== src/Alerts.antt =====
-- alerting.py, and persist_runtime_alert_evaluations of persistence_runs.py: the alert of each rule
-- as a state machine over the evaluations of its metric. A time is in microseconds.
pub mod Episodes
pub mod Persist
mod Examples
use ahmed_agent.Base.{
  ℕ, ◌+◌, ◌*◌, Bool, true, false, ◌&&◌, ◌||◌, not, Option, none, some, String, List, [], ◌∷◌, ltb,
  leb, ◌==◌, str_eq, is_some, max, if◌then◌else◌,
}
use ahmed_agent.Base.Json.{Json, obj, end, field, int, str, bool, float}
use ahmed_agent.Base.Table.{select, update}
use ahmed_agent.Schema.{
  Db, Severity, healthy, warning, critical, AlertStatus, at, recovered, Quotient, Alert, second,
}
use ahmed_agent.Exec.{Exec, Transaction, transact}
use ahmed_agent.Audit.{Hashing, NewEvent, append_audit_event}

-- A threshold is in hundredths.
pub record AlertPolicy : Type 0 where
  pub rule : String
  pub metric : String
  pub minimum_sample_size : ℕ
  pub evaluation_window_hours : ℕ
  pub warning_threshold : ℕ
  pub critical_threshold : ℕ
  pub cooldown_seconds : ℕ

policy : String → String → ℕ → ℕ → ℕ → ℕ → AlertPolicy
policy rule metric minimum_sample_size warning_threshold critical_threshold cooldown_seconds =
    record {
      rule = rule;
      metric = metric;
      minimum_sample_size = minimum_sample_size;
      evaluation_window_hours = 24;
      warning_threshold = warning_threshold;
      critical_threshold = critical_threshold;
      cooldown_seconds = cooldown_seconds;
    }

-- `ALERT_POLICY`, by rule.
unfoldable pub service_health : AlertPolicy
unfolding policy
service_health = policy "service_health" "service_health" 1 100 100 900

unfoldable pub audit_integrity : AlertPolicy
unfolding policy
audit_integrity = policy "audit_integrity" "audit_integrity" 1 100 100 900

unfoldable pub orphan_lease_anomaly : AlertPolicy
unfolding policy
orphan_lease_anomaly =
    policy "orphan_lease_anomaly" "orphaned_runs_or_lease_expirations" 1 100 300 900

unfoldable pub recovery_failure : AlertPolicy
unfolding policy
recovery_failure = policy "recovery_failure" "recovery_failures" 1 100 200 900

unfoldable pub failure_rate : AlertPolicy
unfolding policy
failure_rate = policy "failure_rate" "failed_runs_rate" 5 40 75 1800

-- `value >= threshold`
abbrev pub reaches : Quotient → ℕ → Bool
reaches value threshold = leb (threshold * value.whole) (100 * value.part)

unfoldable pub severity_for_value : Quotient → ℕ → ℕ → ℕ → ℕ → Severity
severity_for_value value minimum_sample_size sample_size warning_threshold critical_threshold =
    if ltb sample_size minimum_sample_size || not (reaches value warning_threshold)
    then healthy
    else if reaches value critical_threshold
    then critical
    else warning

pub record Evaluation : Type 0 where
  pub rule : String
  pub severity : Severity
  pub value : Quotient
  pub sample_size : ℕ
  pub evidence : Json
  pub policy : AlertPolicy

-- The counts that the rules read; a missing one is 0.
pub record Metrics : Type 0 where
  pub total_runs : ℕ
  pub failed_runs : ℕ
  pub orphaned_runs : ℕ
  pub lease_expirations : ℕ
  pub recovery_failures : ℕ
  pub recovery_failed_runs : ℕ

abbrev pub whole_number : ℕ → Quotient
whole_number n = record { part = n; whole = 1 }

-- `failed_runs / total_runs if total_runs else 0.0`
abbrev pub rate : Metrics → Quotient
rate m =
    if m.total_runs == 0
    then whole_number 0
    else record { part = m.failed_runs; whole = m.total_runs }

unfoldable pub evaluate : AlertPolicy → Quotient → ℕ → Json → Evaluation
unfolding severity_for_value
evaluate p value sample_size evidence = record {
  rule = p.rule;
  severity =
      severity_for_value value p.minimum_sample_size sample_size p.warning_threshold
        p.critical_threshold;
  value = value;
  sample_size = sample_size;
  evidence = evidence;
  policy = p;
}

abbrev pub unhealthy : Bool → Quotient
unhealthy b = whole_number (if b then 0 else 1)

-- `round4` prints the quotient, rounded to four digits.
unfoldable pub evaluate_runtime_rules :
    (Quotient → String) → Metrics → Bool → Bool → List Evaluation
unfolding evaluate service_health audit_integrity orphan_lease_anomaly recovery_failure failure_rate
evaluate_runtime_rules round4 m service_healthy audit_healthy =
    let orphan_lease_count = max m.orphaned_runs m.lease_expirations in
    evaluate service_health (unhealthy service_healthy) 1
      (obj (field "service_healthy" (bool service_healthy) end))
    ∷ evaluate audit_integrity (unhealthy audit_healthy) 1
        (obj (field "audit_healthy" (bool audit_healthy) end))
    ∷ evaluate orphan_lease_anomaly (whole_number orphan_lease_count) orphan_lease_count (
        obj (
          field "orphaned_runs" (int m.orphaned_runs)
            (field "lease_expirations" (int m.lease_expirations) end)))
    ∷ evaluate recovery_failure (whole_number m.recovery_failures) m.recovery_failures (
        obj (
          field "recovery_failures" (int m.recovery_failures)
            (field "recovery_failed_runs" (int m.recovery_failed_runs) end)))
    ∷ evaluate failure_rate (rate m) m.total_runs (
        obj (
          field "total_runs" (int m.total_runs) (
            field "failed_runs" (int m.failed_runs)
              (field "failure_rate" (float (round4 (rate m))) end))))
    ∷ []

-- `event_type` of a transition.
pub data AlertEvent : Type 0 where
  opened escalated suppressed closed : AlertEvent

unfoldable pub event_type : AlertEvent → String
event_type opened = "alert_opened"
event_type escalated = "alert_escalated"
event_type suppressed = "alert_suppressed"
event_type closed = "alert_recovered"

abbrev pub severity_order : Severity → ℕ
severity_order healthy = 0
severity_order warning = 1
severity_order critical = 2

abbrev pub is_healthy : Severity → Bool
is_healthy healthy = true
is_healthy _ = false

-- `current_status in {"warning", "critical"}`; the other statuses are `healthy` and `recovered`.
abbrev pub is_open : AlertStatus → Bool
is_open (at warning) = true
is_open (at critical) = true
is_open _ = false

-- `last_triggered_at is None or now - last_triggered_at >= cooldown`
abbrev pub cooled : Option ℕ → ℕ → ℕ → Bool
cooled none cooldown now = true
cooled (some t) cooldown now = leb (t + cooldown * second) now

-- The event, if any.
unfoldable pub alert_event : Evaluation → Alert → ℕ → Option AlertEvent
alert_event e current now =
    if is_healthy e.severity
    then (if is_open current.status then some closed else none)
    else if not (is_open current.status)
    then some opened
    else if ltb (severity_order current.severity) (severity_order e.severity)
    then some escalated
    else if cooled current.last_triggered_at e.policy.cooldown_seconds now
    then some suppressed
    else none

-- What the event does to `last_triggered_at`, `recovered_at` and `suppressed_count`.
abbrev pub triggered : Option AlertEvent → ℕ → Option ℕ → Option ℕ
triggered none now t = t
triggered (some closed) now t = t
triggered (some _) now t = some now

abbrev pub recovery_time : Option AlertEvent → ℕ → Option ℕ → Option ℕ
recovery_time (some closed) now t = some now
recovery_time (some opened) now t = none
recovery_time (some escalated) now t = none
recovery_time _ now t = t

abbrev pub suppressions : Option AlertEvent → ℕ → ℕ
suppressions (some suppressed) n = n + 1
suppressions _ n = n

-- `current or {…}` for a rule without a row.
abbrev pub fresh : Evaluation → Alert
fresh e = record {
  rule = e.rule;
  status = at healthy;
  severity = healthy;
  last_triggered_at = none;
  recovered_at = none;
  suppressed_count = 0;
  last_evidence = e.evidence;
  last_value = e.value;
  sample_size = e.sample_size;
  evaluated_at = 0;
}

abbrev pub or_fresh : Evaluation → Option Alert → Alert
or_fresh e none = fresh e
or_fresh e (some a) = a

unfoldable pub transition_alert : Evaluation → Alert → ℕ → Alert × Option AlertEvent
unfolding alert_event
transition_alert e current now =
    let event = alert_event e current now in
    (
      record {
        rule = e.rule;
        status = at e.severity;
        severity = e.severity;
        last_triggered_at = triggered event now current.last_triggered_at;
        recovered_at = recovery_time event now current.recovered_at;
        suppressed_count = suppressions event current.suppressed_count;
        last_evidence = e.evidence;
        last_value = e.value;
        sample_size = e.sample_size;
        evaluated_at = now;
      },
      event,
    )

abbrev pub by_rule : String → Alert → Bool
by_rule rule a = str_eq a.rule rule

-- `INSERT … ON CONFLICT (rule) DO UPDATE SET …`
unfoldable pub upsert : Alert → List Alert → List Alert
upsert a rows =
    if is_some (select (by_rule a.rule) rows)
    then update (by_rule a.rule) (λ row. a) rows
    else a ∷ rows

abbrev status_text : Severity → String
status_text healthy = "healthy"
status_text warning = "warning"
status_text critical = "critical"

module _ (h : Hashing) where
  abbrev alert_audit : Alert → AlertEvent → NewEvent
  alert_audit a event = record {
    session_id = none;
    run_id = none;
    action_id = none;
    event_type = event_type event;
    tool_name = none;
    status = status_text a.severity;
    safe_metadata = obj (
        field "rule" (str a.rule) (
          field "severity" (str (status_text a.severity)) (
            field "suppressed_count" (int a.suppressed_count)
              (field "evidence" a.last_evidence end))));
  }

  unfoldable pub record_event : Alert → Option AlertEvent → ℕ → Db → Db
  unfolding event_type
  record_event a none now db = db
  record_event a (some event) now db = (append_audit_event h (alert_audit a event) now db).1

  -- One round of the loop; `now` is the time that `transition_alert` reads, `db_now` is `NOW()`.
  unfoldable pub persist_evaluation : Evaluation → ℕ → ℕ → Db → Alert × Db
  unfolding transition_alert upsert record_event
  persist_evaluation e now db_now db =
      let current = or_fresh e (select (by_rule e.rule) db.alerts) in
      let (a, event) = transition_alert e current now in
      (a, record_event a event db_now (record db { alerts = upsert a db.alerts }))

  unfoldable pub persist_all : List (Evaluation × ℕ) → ℕ → Db → List Alert × Db
  unfolding persist_evaluation
  persist_all [] db_now db = ([], db)
  persist_all ((e, now) ∷ rest) db_now db =
      let (a, db') = persist_evaluation e now db_now db in
      let (persisted, db'') = persist_all rest db_now db' in (a ∷ persisted, db'')

  -- The evaluations come with the times at which the loop reads the clock of the process.
  unfoldable pub persist_runtime_alert_evaluations : List (Evaluation × ℕ) → Exec (List Alert)
  unfolding persist_all
  persist_runtime_alert_evaluations evaluations =
      transact λ now db. some (persist_all evaluations now db)
