-- ===== src/Alerts/Persist.antt =====
-- What is stored of the alerts.
use mathlib.Core.Option.{some-injective}
use mathlib.Core.Path.{subst}
use ahmed_agent.Base.{
  ℕ, ◌≡◌, refl, ap, true, Option, none, some, List, [], ◌∷◌, is_some, eq_iff, Bool-cases, inl, inr,
  arith,
}
use ahmed_agent.Base.Table.{select, update}
use ahmed_agent.Schema.{Db, Alert}
use ahmed_agent.Exec.{World}
use ahmed_agent.Exec.Preserves.{Preserves-transact}
use ahmed_agent.Audit.{Hashing, append_audit_event}
use ahmed_agent.Audit.Chain.{IsChained, append-IsChained}
use ahmed_agent.Alerts.{
  Evaluation, AlertEvent, by_rule, or_fresh, transition_alert, upsert, record_event,
  persist_evaluation, persist_all, persist_runtime_alert_evaluations,
}

module _ (h : Hashing) where
  record_event-IsChained :
      (a : Alert) (o : Option AlertEvent) (now : ℕ) (db : Db)
      → IsChained h db.audit
      → IsChained h (record_event h a o now db).audit
  unfolding record_event
  record_event-IsChained a none now db c = c
  record_event-IsChained a (some event) now db c = append-IsChained h _ now db c

  persist_all-IsChained :
      (es : List (Evaluation × ℕ)) (now : ℕ) (db : Db)
      → IsChained h db.audit
      → IsChained h (persist_all h es now db).1.audit
  unfolding persist_all persist_evaluation
  persist_all-IsChained [] now db c = c
  persist_all-IsChained ((e, t) ∷ rest) now db c =
      let a = (transition_alert e (or_fresh e (select (by_rule e.rule) db.alerts)) t).0 in
      persist_all-IsChained rest now _ (record_event-IsChained a _ now _ c)

  -- The audit log stays a chain when evaluations are stored, whether the call returns or raises.
  persist-IsChained :
      (es : List (Evaluation × ℕ)) (w : World)
      → IsChained h w.db.audit
      → IsChained h (persist_runtime_alert_evaluations h es w).1.db.audit
  unfolding persist_runtime_alert_evaluations
  persist-IsChained es =
      (Preserves-transact (λ db. IsChained h db.audit) _
        (λ now db a db' c e.
          subst (λ (d : Db). IsChained h d.audit)
            (ap (λ (p : List Alert × Db). p.1) (some-injective _ _ e))
            (persist_all-IsChained es now db c))).after

  self : (a : Alert) → by_rule a.rule a ≡ true
  self a = (eq_iff a.rule a.rule).1 refl

  replaced :
      (a : Alert) (rows : List Alert)
      → is_some (select (by_rule a.rule) rows) ≡ true
      → select (by_rule a.rule) (update (by_rule a.rule) (λ row. a) rows) ≡ some a
  replaced a [] e = absurd (cc e)
  replaced a (r ∷ rows) e = ground (arith, self a, replaced a rows)

  -- The row that the statement leaves for the rule is the one it was given.
  select-upsert : (a : Alert) (rows : List Alert) → select (by_rule a.rule) (upsert a rows) ≡ some a
  unfolding upsert
  select-upsert a rows = elim (Bool-cases (is_some (select (by_rule a.rule) rows))) [
    | inl old ↦ rw old (replaced a rows old)
    | inr new ↦ rw (new, self a) refl
  ]

  record_event_rows :
      (a : Alert) (o : Option AlertEvent) (now : ℕ) (db : Db)
      → (record_event h a o now db).alerts ≡ db.alerts
  unfolding record_event append_audit_event
  record_event_rows a none now db = refl
  record_event_rows a (some event) now db = refl

  -- After an evaluation of a rule has been stored, the row of the rule is the alert that follows
  -- from the row before, or from a healthy alert where there was none.
  pub select-persist :
      (e : Evaluation) (now db_now : ℕ) (db : Db)
      → select (by_rule e.rule) (persist_evaluation h e now db_now db).1.alerts
        ≡ some (transition_alert e (or_fresh e (select (by_rule e.rule) db.alerts)) now).0
  unfolding persist_evaluation transition_alert
  select-persist e now db_now db =
      let a = (transition_alert e (or_fresh e (select (by_rule e.rule) db.alerts)) now).0 in
      rw (record_event_rows a _ db_now _) (select-upsert a db.alerts)
