-- ===== src/Actions/Frame.antt =====
-- What is not of the tables of actions and audit events stays as it is when an action is created.
use mathlib.Core.Option.{some-injective}
use mathlib.Core.Path.{subst}
use ahmed_agent.Base.{ℕ, ◌≡◌, ap, Option, none, some, String, List}
use ahmed_agent.Base.Json.{Json}
use ahmed_agent.Schema.{Db, PendingAction}
use ahmed_agent.Exec.Preserves.{
  Preserves, Preserves-transact, Preserves-bind, Preserves-pure, Preserves-raise,
}
use ahmed_agent.Audit.{Hashing, NewEvent, append_audit_event}
use ahmed_agent.Actions.{
  new_action, insert_action, record_created, after_insert, insert_recorded, to_dict,
  create_pending_action,
}

module _ (h : Hashing) (P : Db → Type 0)
    (on_actions : (db : Db) (rs : List PendingAction) → P db → P (record db { actions = rs }))
    (on_event : (e : NewEvent) (now : ℕ) (db : Db)
      → P db
      → P (append_audit_event h e now db).1) where
  moved :
      {A : Type 0} {a b : A} {db db' : Db}
      → ◌≡◌ {A = Option (A × Db)} (some (a, db)) (some (b, db'))
      → P db
      → P db'
  moved {A} e p = subst P (ap (λ (q : A × Db). q.1) (some-injective _ _ e)) p

  record_created_keeps :
      (r : PendingAction) (o : Option PendingAction) (now : ℕ) (db : Db) (a : Option PendingAction)
      (db' : Db)
      → P db
      → record_created h r o now db ≡ some (a, db')
      → P db'
  unfolding record_created
  record_created_keeps r none now db a db' p e = moved e (on_event _ now db p)
  record_created_keeps r (some existing) now db a db' p e = moved e (on_event _ now db p)

  after_insert_keeps :
      (r : PendingAction) (o : Option (List PendingAction)) (now : ℕ) (db : Db)
      (a : Option PendingAction) (db' : Db)
      → P db
      → after_insert h r o now db ≡ some (a, db')
      → P db'
  unfolding after_insert
  after_insert_keeps r none now db a db' p e = absurd (cc e)
  after_insert_keeps r (some rows) now db a db' p e =
      record_created_keeps r _ now _ a db' (on_actions db rows p) e

  to_dict_keeps : (o : Option PendingAction) → Preserves P (to_dict h o)
  unfolding to_dict
  to_dict_keeps none = Preserves-raise _ _
  to_dict_keeps (some r) = Preserves-pure _ _

  pub create_pending_action-keeps :
      (action_id session_id run_id : ℕ) (user_id tool_name risk_level : String) (arguments : Json)
      (key : Option String)
      → Preserves P (
          create_pending_action h action_id session_id run_id user_id tool_name risk_level arguments
            key)
  unfolding create_pending_action insert_recorded
  create_pending_action-keeps action_id session_id run_id user_id tool_name risk_level arguments
        key =
      Preserves-bind _ _ _
        (Preserves-transact _ _ (λ now db a db' p e.
          let r =
            new_action action_id session_id run_id user_id tool_name risk_level arguments key now in
          after_insert_keeps r (insert_action r db.actions) now db a db' p e))
        to_dict_keeps
