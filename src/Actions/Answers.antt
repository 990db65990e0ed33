-- ===== src/Actions/Answers.antt =====
-- What the answers of the functions on an existing row tell of it.
use ahmed_agent.Base.{
  ℕ, ◌≡◌, refl, sym, ◌⊎◌, ap, ◌∙◌, inl, inr, true, false, Option, none, some, String, str_eq,
  eq_iff, ==_iff, arith, leb, Bool-cases,
}
use ahmed_agent.Base.Table.{select, select-update, updated}
use ahmed_agent.Schema.{
  Db, PendingAction, ActionStatus, pending, approved, rejected, expired, executing, executed,
}
use mathlib.Core.Option.{some-injective}
use mathlib.Core.Path.{subst}
use ahmed_agent.Exec.{World, Exec, ok, err, persistence_error, transact}
use ahmed_agent.Exec.Effects.{transact-Ran}
use ahmed_agent.Exec.Fails.{OnlyFails, OnlyFails-transact}
use ahmed_agent.Exec.Returns.{Returns, Returns-transact}
use ahmed_agent.Audit.{Hashing, NewEvent, append_audit_event}
use ahmed_agent.Actions.{
  Reply, Answer, not_found, forbidden, action, by_id, approve_pending_action, approve_row,
  approve_pending, claim_row, complete_row, reject_row, write, on_row, guarded,
  claim_pending_action_execution, complete_pending_action, reject_pending_action,
}

-- The action is stored, is the user's, and has the status.
abbrev pub IsStored : ℕ → String → ActionStatus → Db → Type 0
IsStored action_id user_id s db =
    (r : PendingAction) × (select (by_id action_id) db.actions ≡ some r)
    × (r.user_id ≡ user_id)
    × (r.status ≡ s)

-- What the reply of a call on the row means.
abbrev pub Means : ℕ → String → Reply → Db → Type 0
Means action_id user_id not_found db = select (by_id action_id) db.actions ≡ none
Means action_id user_id forbidden db = Unit
Means action_id user_id (action s) db = IsStored action_id user_id s db

-- Besides, an action is handed out for execution only as `executing`.
abbrev pub HandsOut : Answer → Type 0
HandsOut a = a.should_execute ≡ true → a.reply ≡ action executing

module _ (h : Hashing) (action_id : ℕ) (user_id : String) where
  -- Before any of the bodies: the lookup and the check of the user.
  on_row-Means :
      (body : PendingAction → ℕ → Db → Answer × Db) (Q : Answer → Type 0) (now : ℕ) (db : Db)
      → ((a : Answer) → a.should_execute ≡ false → Q a)
      → ((r : PendingAction) (now : ℕ) (db : Db)
          → select (by_id action_id) db.actions ≡ some r
          → r.user_id ≡ user_id
          → Means action_id user_id (body r now db).0.reply (body r now db).1 × Q (body r now db).0)
      → (o : Option PendingAction) → select (by_id action_id) db.actions ≡ o
      → Means action_id user_id
          (guarded h body user_id o now db).0.reply
          (guarded h body user_id o now db).1
        × Q (guarded h body user_id o now db).0
  on_row-Means body Q now db quiet leaves none e = (e, quiet _ refl)
  on_row-Means body Q now db quiet leaves (some r) e =
      elim (Bool-cases (str_eq r.user_id user_id)) [
        | inl own ↦ rw own (leaves r now db e ((eq_iff _ _).0 own))
        | inr foreign ↦ rw foreign (tt, quiet _ refl)
      ]

  -- The row after `write`.
  written :
      (change : PendingAction → PendingAction) (s : ActionStatus) (e : NewEvent) (now : ℕ) (db : Db)
      (r : PendingAction)
      → ((x : PendingAction) → by_id action_id (change x) ≡ by_id action_id x)
      → select (by_id action_id) db.actions ≡ some r
      → (change r).user_id ≡ user_id
      → (change r).status ≡ s
      → IsStored action_id user_id s (write h r change e now db)
  unfolding write append_audit_event
  written change s e now db r same found own is = (
    change r,
    select-update (by_id action_id) (by_id r.action_id) change same db.actions
        ∙ ap (updated (by_id r.action_id) change) found
        ∙ ground (arith, ==_iff r.action_id r.action_id),
    own,
    is,
  )

  approve_pending-Means :
      (r : PendingAction) (now : ℕ) (db : Db)
      → select (by_id action_id) db.actions ≡ some r
      → r.user_id ≡ user_id
      → Means action_id user_id (approve_pending h r now db).0.reply (approve_pending h r now db).1
  unfolding approve_pending
  approve_pending-Means r now db found own = elim (Bool-cases (leb r.expires_at now)) [
    | inl late ↦ rw late (written _ expired _ now db r (λ x. refl) found own refl)
    | inr early ↦ rw early (written _ approved _ now db r (λ x. refl) found own refl)
  ]

  approve-Leaves :
      (s : ActionStatus) (r : PendingAction) (now : ℕ) (db : Db)
      → select (by_id action_id) db.actions ≡ some r
      → r.user_id ≡ user_id
      → r.status ≡ s
      → Means action_id user_id (approve_row h s r now db).0.reply (approve_row h s r now db).1
  unfolding approve_row
  approve-Leaves pending r now db found own is = approve_pending-Means r now db found own
  approve-Leaves approved r now db found own is = (r, found, own, is)
  approve-Leaves s r now db found own is = (r, found, own, is)

  claim-Leaves :
      (s : ActionStatus) (r : PendingAction) (now : ℕ) (db : Db)
      → select (by_id action_id) db.actions ≡ some r
      → r.user_id ≡ user_id
      → r.status ≡ s
      → Means action_id user_id (claim_row h s r now db).0.reply (claim_row h s r now db).1
        × HandsOut (claim_row h s r now db).0
  unfolding claim_row
  claim-Leaves approved r now db found own is =
      (written _ executing _ now db r (λ x. refl) found own refl, λ e. refl)
  claim-Leaves s r now db found own is = ((r, found, own, is), λ e. absurd (cc e))

  complete-Leaves :
      (s : ActionStatus) (r : PendingAction) (now : ℕ) (db : Db)
      → select (by_id action_id) db.actions ≡ some r
      → r.user_id ≡ user_id
      → r.status ≡ s
      → Means action_id user_id (complete_row h s r now db).0.reply (complete_row h s r now db).1
  unfolding complete_row
  complete-Leaves executing r now db found own is =
      written _ executed _ now db r (λ x. refl) found own refl
  complete-Leaves s r now db found own is = (r, found, own, is)

  reject-Leaves :
      (s : ActionStatus) (r : PendingAction) (now : ℕ) (db : Db)
      → select (by_id action_id) db.actions ≡ some r
      → r.user_id ≡ user_id
      → r.status ≡ s
      → Means action_id user_id (reject_row h s r now db).0.reply (reject_row h s r now db).1
  unfolding reject_row
  reject-Leaves pending r now db found own is =
      written _ rejected _ now db r (λ x. refl) found own refl
  reject-Leaves s r now db found own is = (r, found, own, is)

  module _ (body : ActionStatus → PendingAction → ℕ → Db → Answer × Db) (Q : Answer → Type 0)
      (quiet : (a : Answer) → a.should_execute ≡ false → Q a)
      (leaves : (r : PendingAction) (now : ℕ) (db : Db)
        → select (by_id action_id) db.actions ≡ some r
        → r.user_id ≡ user_id
        → Means action_id user_id (body r.status r now db).0.reply (body r.status r now db).1
          × Q (body r.status r now db).0) where
    on_row-Returns :
        Returns
          (λ db. Unit)
          (transact (on_row h (λ r. body r.status r) action_id user_id))
          (λ a db. Means action_id user_id a.reply db × Q a)
    on_row-Returns = Returns-transact _ _ _ λ now db a db' p e.
        let same = some-injective _ _ e in
        subst (λ (q : Answer × Db). Means action_id user_id q.0.reply q.1 × Q q.0) same
          (on_row-Means (λ r. body r.status r) Q now db quiet leaves _ refl)

  pub approve-Means :
      Returns
        (λ db. Unit)
        (approve_pending_action h action_id user_id)
        (λ a db. Means action_id user_id a.reply db × Unit {0})
  unfolding approve_pending_action
  approve-Means =
      on_row-Returns (approve_row h) (λ a. Unit) (λ a q. tt)
        (λ r now db found own. (approve-Leaves r.status r now db found own refl, tt))

  pub claim-Means :
      Returns
        (λ db. Unit)
        (claim_pending_action_execution h action_id user_id)
        (λ a db. Means action_id user_id a.reply db × HandsOut a)
  unfolding claim_pending_action_execution
  claim-Means =
      on_row-Returns (claim_row h) HandsOut (λ a q e. absurd (cc (q, e)))
        (λ r now db found own. claim-Leaves r.status r now db found own refl)

  pub complete-Means :
      Returns
        (λ db. Unit)
        (complete_pending_action h action_id user_id)
        (λ a db. Means action_id user_id a.reply db × Unit {0})
  unfolding complete_pending_action
  complete-Means =
      on_row-Returns (complete_row h) (λ a. Unit) (λ a q. tt)
        (λ r now db found own. (complete-Leaves r.status r now db found own refl, tt))

  pub reject-Means :
      Returns
        (λ db. Unit)
        (reject_pending_action h action_id user_id)
        (λ a db. Means action_id user_id a.reply db × Unit {0})
  unfolding reject_pending_action
  reject-Means =
      on_row-Returns (reject_row h) (λ a. Unit) (λ a q. tt)
        (λ r now db found own. (reject-Leaves r.status r now db found own refl, tt))

  -- The four functions raise nothing but `PersistenceError`.
  pub approve-OnlyFails : OnlyFails (approve_pending_action h action_id user_id)
  unfolding approve_pending_action
  approve-OnlyFails = OnlyFails-transact _

  pub claim-OnlyFails : OnlyFails (claim_pending_action_execution h action_id user_id)
  unfolding claim_pending_action_execution
  claim-OnlyFails = OnlyFails-transact _

  pub complete-OnlyFails : OnlyFails (complete_pending_action h action_id user_id)
  unfolding complete_pending_action
  complete-OnlyFails = OnlyFails-transact _

  pub reject-OnlyFails : OnlyFails (reject_pending_action h action_id user_id)
  unfolding reject_pending_action
  reject-OnlyFails = OnlyFails-transact _

  -- A function on the row of another user: it is refused, or the database fails, and nothing is
  -- written.
  abbrev pub IsRefused : Exec Answer → World → Type 0
  IsRefused m w =
      (((m w).0 ≡ err persistence_error)
        ⊎ ((a : Answer) × ((m w).0 ≡ ok a) × (a.reply ≡ forbidden)))
      × ((m w).1.db ≡ w.db)

  module _ (r : PendingAction) (foreign : str_eq r.user_id user_id ≡ false) where
    on_row_foreign :
        (body : PendingAction → ℕ → Db → Answer × Db) (w : World)
        → select (by_id action_id) w.db.actions ≡ some r
        → IsRefused (transact (on_row h body action_id user_id)) w
    on_row_foreign body w found = elim (transact-Ran (on_row h body action_id user_id) w).effect [
      | inl (failed, same) ↦ (inl failed, same)
      | inr (a, returned, ran) ↦
          let e = some-injective _ _ (rw (found, foreign) at ran) in
          (
            inr (a, returned, ap (λ (q : Answer × Db). q.0.reply) (sym e)),
            ap (λ (q : Answer × Db). q.1) (sym e),
          )
    ]

    pub approve_foreign :
        (w : World)
        → select (by_id action_id) w.db.actions ≡ some r
        → IsRefused (approve_pending_action h action_id user_id) w
    unfolding approve_pending_action
    approve_foreign w found = on_row_foreign _ w found

    pub reject_foreign :
        (w : World)
        → select (by_id action_id) w.db.actions ≡ some r
        → IsRefused (reject_pending_action h action_id user_id) w
    unfolding reject_pending_action
    reject_foreign w found = on_row_foreign _ w found
