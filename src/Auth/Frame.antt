-- ===== src/Auth/Frame.antt =====
-- What an authorization writes.
use mathlib.Core.Path.{subst}
use mathlib.Core.Option.{some-injective}
use ahmed_agent.Base.{ℕ, ◌≡◌, refl, inl, inr, Bool, Option, none, some, String}
use ahmed_agent.Schema.{Db}
use ahmed_agent.Exec.{World, transact}
use ahmed_agent.Exec.Effects.{transact-Ran}
use ahmed_agent.Audit.{Hashing, append_audit_event}
use ahmed_agent.Events.{record_auth_event}
use ahmed_agent.Auth.{Store, Request, authorize_owner, record_attempt, audit_of, decide}

-- The audit log has at most changed.
abbrev pub OnlyAudits : Db → Db → Type 0
OnlyAudits db db' = db' ≡ record db { audit = db'.audit; audit_seq = db'.audit_seq }

statements-OnlyAudits :
    (f : ℕ → Db → Db)
    → ((now : ℕ) (db : Db) → OnlyAudits db (f now db))
    → (w : World) → OnlyAudits w.db (transact (λ now db. some (tt {0}, f now db)) w).1.db
statements-OnlyAudits f keep w = elim (transact-Ran (λ now db. some (tt {0}, f now db)) w).effect [
  | inl (failed, same) ↦ rw same refl
  | inr (a, returned, ran) ↦
      subst (λ (q : Unit {0} × Db). OnlyAudits w.db q.1) (some-injective _ _ ran) (keep _ w.db)
]

module _ (compare_digest : String → String → Option Bool) (owner_token : String) (h : Hashing)
    (uuid_text : ℕ → String) (endpoint : String) (action_id : Option ℕ) where
  record_attempt-OnlyAudits :
      (event : Option (Bool × String)) (w : World)
      → OnlyAudits w.db
          (record_attempt compare_digest owner_token h uuid_text endpoint action_id event w).db
  unfolding record_attempt record_auth_event append_audit_event
  record_attempt-OnlyAudits none w = refl
  record_attempt-OnlyAudits (some (known, result)) w = statements-OnlyAudits _ (λ now db. refl) w

  pub authorize_owner-OnlyAudits :
      (q : Request) (store : Store) (w : World)
      → OnlyAudits w.db
          (authorize_owner compare_digest owner_token h uuid_text endpoint action_id q
            (store, w)).1.1.db
  unfolding authorize_owner
  authorize_owner-OnlyAudits q store w =
      record_attempt-OnlyAudits
        (audit_of compare_digest owner_token (decide compare_digest owner_token q store).0) w
