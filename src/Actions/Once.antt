-- ===== src/Actions/Once.antt =====
-- No pending action is handed out for execution twice.
use ahmed_agent.Base.{
  ℕ, ◌+◌, ◌≤◌, ◌≡◌, ◌≢◌, refl, sym, ap, inl, inr, Bool, true, false, Option, none, some, String,
  List, [], ◌∷◌, arith, ◌==◌, ◌&&◌, if◌then◌else◌, Option-cases, ==_iff,
}
use mathlib.Core.Option.{some-injective}
use mathlib.Core.Path.{subst}
use native.Mathlib.Decide.{ℕ_discrete}
use ahmed_agent.Base.Table.{select, select-update, select_passes, updated}
use ahmed_agent.Schema.{
  Db, PendingAction, ActionStatus, pending, approved, rejected, expired, executing, executed,
}
use ahmed_agent.Exec.{World, Result, ok, err, continue, transact}
use ahmed_agent.Exec.Effects.{transact-Ran}
use ahmed_agent.Audit.{Hashing, NewEvent, append_audit_event}
use ahmed_agent.Actions.{
  action_event, empty_json, by_id, Answer, insert_action, write, claim_row, approve_row,
  complete_row, reject_row, guarded, on_row, create_pending_action, approve_pending_action,
  claim_pending_action_execution, complete_pending_action, reject_pending_action, insert_recorded,
  new_action, record_created, created_event, hit_event, after_insert, to_dict,
}
use ahmed_agent.Actions.Calls.{ActionCall, create, approve, claim, complete, reject, after}

-- How often an action may still be handed out.
abbrev budget_of : ActionStatus → ℕ
budget_of pending = 1
budget_of approved = 1
budget_of _ = 0

abbrev budget : Option PendingAction → ℕ
budget none = 1
budget (some r) = budget_of r.status

abbrev budget_at : ℕ → Db → ℕ
budget_at id db = budget (select (by_id id) db.actions)

-- 1 for an answer that tells its caller to execute the action.
abbrev pub granted : Result Answer → ℕ
granted (ok a) = if a.should_execute then 1 else 0
granted (err _) = 0

module _ (h : Hashing) where
  actions-append :
      (e : NewEvent) (now : ℕ) (db : Db) → (append_audit_event h e now db).1.actions ≡ db.actions
  unfolding append_audit_event
  actions-append e now db = refl

  select-write :
      (id : ℕ) (r : PendingAction) (change : PendingAction → PendingAction) (e : NewEvent) (now : ℕ)
      (db : Db)
      → ((a : PendingAction) → (change a).action_id ≡ a.action_id)
      → select (by_id id) (write h r change e now db).actions
        ≡ updated (by_id r.action_id) change (select (by_id id) db.actions)
  unfolding write
  select-write id r change e now db same =
      rw actions-append
        (select-update (by_id id) (by_id r.action_id) change (λ a. rw (same a)) db.actions)

  -- The row under another id, or under this one, after a write of `r`.
  budget_write :
      (id : ℕ) (r : PendingAction) (change : PendingAction → PendingAction) (e : NewEvent) (now : ℕ)
      (db : Db)
      → ((a : PendingAction) → (change a).action_id ≡ a.action_id)
      → select (by_id r.action_id) db.actions ≡ some r
      → budget_at id (write h r change e now db)
        ≡ (if id == r.action_id then budget_of (change r).status else budget_at id db)
  budget_write id r change e now db same found =
      rw (select-write id r change e now db same) (elim (ℕ_discrete id r.action_id) [
        | yes p ↦ rw p (rw found (ground arith))
        | no n ↦ elim (Option-cases (select (by_id id) db.actions)) [
          | inl q ↦ rw q (ground arith)
          | inr (v, q) ↦ rw q (ground (arith, select_passes (by_id id) db.actions v q))
        ]
      ])

  budget_found :
      (id : ℕ) (r : PendingAction) (db : Db)
      → select (by_id r.action_id) db.actions ≡ some r
      → id ≡ r.action_id
      → budget_at id db ≡ budget_of r.status
  budget_found id r db found p = rw p (rw found refl)

  claim_row_spends :
      (s : ActionStatus) (id : ℕ) (r : PendingAction) (now : ℕ) (db : Db)
      → select (by_id r.action_id) db.actions ≡ some r
      → r.status ≡ s
      → (if id == r.action_id then granted (ok (claim_row h s r now db).0) else 0)
          + budget_at id (claim_row h s r now db).1
        ≤ budget_at id db
  unfolding claim_row
  claim_row_spends approved id r now db found st =
      rw (budget_write id r (λ a. record a { status = executing }) _ now db (λ a. refl) found)
        (ground (arith, budget_found id r db found))
  claim_row_spends _ id r now db found st = ground arith

  approve_row_spends :
      (s : ActionStatus) (id : ℕ) (r : PendingAction) (now : ℕ) (db : Db)
      → select (by_id r.action_id) db.actions ≡ some r
      → r.status ≡ s
      → budget_at id (approve_row h s r now db).1 ≤ budget_at id db
  unfolding approve_row
  approve_row_spends pending id r now db found st = ground (
    arith,
    budget_found id r db found,
    budget_write id r (λ a. record a { status = expired })
        (action_event r "pending_action.expired" "expired" empty_json) now db (λ a. refl) found,
    budget_write id r (λ a. record a { status = approved; approved_at = some now })
        (action_event r "pending_action.approved" "approved" empty_json) now db (λ a. refl) found,
  )
  approve_row_spends _ id r now db found st = ground arith

  complete_row_spends :
      (s : ActionStatus) (id : ℕ) (r : PendingAction) (now : ℕ) (db : Db)
      → select (by_id r.action_id) db.actions ≡ some r
      → r.status ≡ s
      → budget_at id (complete_row h s r now db).1 ≤ budget_at id db
  unfolding complete_row
  complete_row_spends executing id r now db found st =
      rw
        (budget_write id r (λ a. record a { status = executed; executed_at = some now }) _ now db
          (λ a. refl) found)
        (ground (arith, budget_found id r db found))
  complete_row_spends _ id r now db found st = ground arith

  reject_row_spends :
      (s : ActionStatus) (id : ℕ) (r : PendingAction) (now : ℕ) (db : Db)
      → select (by_id r.action_id) db.actions ≡ some r
      → r.status ≡ s
      → budget_at id (reject_row h s r now db).1 ≤ budget_at id db
  unfolding reject_row
  reject_row_spends pending id r now db found st =
      rw
        (budget_write id r (λ a. record a { status = rejected; rejected_at = some now }) _ now db
          (λ a. refl) found)
        (ground (arith, budget_found id r db found))
  reject_row_spends _ id r now db found st = ground arith

  -- A row's transaction keeps the budget, counting what it hands out where `counted` says so.
  module _ (counted : Bool) (body : PendingAction → ℕ → Db → Answer × Db) (id : ℕ)
      (spends : (r : PendingAction) (now : ℕ) (db : Db)
        → select (by_id r.action_id) db.actions ≡ some r
        → (if counted && id == r.action_id then granted (ok (body r now db).0) else 0)
            + budget_at id (body r now db).1
          ≤ budget_at id db) where
    guarded_spends :
        (action_id : ℕ) (user_id : String) (found : Option PendingAction) (now : ℕ) (db : Db)
        → select (by_id action_id) db.actions ≡ found
        → (if counted && id == action_id
              then granted (ok (guarded h body user_id found now db).0)
              else 0)
            + budget_at id (guarded h body user_id found now db).1
          ≤ budget_at id db
    guarded_spends action_id user_id none now db e = ground arith
    guarded_spends action_id user_id (some r) now db e =
        let hit : r.action_id ≡ action_id =
          (==_iff _ _).0 (select_passes (by_id action_id) db.actions r e) in
        ground
          (arith, spends r now db (subst (λ i. select (by_id i) db.actions ≡ some r) (sym hit) e))

    call_spends :
        (action_id : ℕ) (user_id : String) (w : World)
        → (if counted && id == action_id
              then granted (transact (on_row h body action_id user_id) w).0
              else 0)
            + budget_at id (transact (on_row h body action_id user_id) w).1.db
          ≤ budget_at id w.db
    call_spends action_id user_id w =
        elim (transact-Ran (on_row h body action_id user_id) w).effect [
          | inl (failed, same) ↦ rw (failed, same) (ground arith)
          | inr (a, returned, ran) ↦
              let same = some-injective _ _ ran in
              rw
                (
                  returned,
                  ← ap (λ (p : Answer × Db). p.0) same,
                  ← ap (λ (p : Answer × Db). p.1) same,
                )
                (guarded_spends action_id user_id _ _ w.db refl)
        ]

  insert_action_spends :
      (id : ℕ) (r : PendingAction) (rows rows' : List PendingAction)
      → insert_action r rows ≡ some rows'
      → budget (select (by_id id) rows') ≤ budget (select (by_id id) rows)
  unfolding insert_action
  insert_action_spends id r rows rows' e = elim (ℕ_discrete id r.action_id) [
    | yes p ↦ rw p (ground arith)
    | no n ↦ ground arith
  ]

  record_created_keeps :
      (r : PendingAction) (existing : Option PendingAction) (now : ℕ) (db db' : Db)
      (a : Option PendingAction)
      → record_created h r existing now db ≡ some (a, db')
      → db'.actions ≡ db.actions
  unfolding record_created
  record_created_keeps r none now db db' a e =
      rw (← ap (λ (p : Option PendingAction × Db). p.1) (some-injective _ _ e))
        (actions-append (created_event h r) now db)
  record_created_keeps r (some x) now db db' a e =
      rw (← ap (λ (p : Option PendingAction × Db). p.1) (some-injective _ _ e))
        (actions-append (hit_event h r x) now db)

  after_insert_spends :
      (id : ℕ) (r : PendingAction) (o : Option (List PendingAction)) (now : ℕ) (db db' : Db)
      (a : Option PendingAction)
      → insert_action r db.actions ≡ o
      → after_insert h r o now db ≡ some (a, db')
      → budget_at id db' ≤ budget_at id db
  unfolding after_insert
  after_insert_spends id r none now db db' a i e = ground arith
  after_insert_spends id r (some rows) now db db' a i e =
      rw (record_created_keeps r _ now (record db { actions = rows }) db' a e)
        (insert_action_spends id r db.actions rows i)

  create_spends :
      (id : ℕ) (t : ℕ → PendingAction) (w : World)
      → budget_at id (transact (λ now. insert_recorded h (t now) now) w).1.db ≤ budget_at id w.db
  unfolding insert_recorded
  create_spends id t w = elim (transact-Ran (λ now. insert_recorded h (t now) now) w).effect [
    | inl (failed, same) ↦ rw same (omega arith)
    | inr (a, returned, ran) ↦ after_insert_spends id (t _) _ _ w.db _ a refl ran
  ]

  to_dict_keeps : (o : Result (Option PendingAction)) (w : World) → (continue o (to_dict h) w).1 ≡ w
  unfolding to_dict
  to_dict_keeps (ok none) w = refl
  to_dict_keeps (ok (some r)) w = refl
  to_dict_keeps (err e) w = refl

  -- 1 for a call that tells its caller to execute the action `id`.
  pub hands_out : ℕ → ActionCall → World → ℕ
  hands_out id (claim action_id user_id) w =
      if id == action_id
      then granted (claim_pending_action_execution h action_id user_id w).0
      else 0
  hands_out id _ w = 0

  call_budget :
      (id : ℕ) (c : ActionCall) (w : World)
      → hands_out id c w + budget_at id (after h c w).db ≤ budget_at id w.db
  unfolding hands_out after
  call_budget id (create action_id session_id run_id user_id tool_name risk_level arguments key) w =
      unfold create_pending_action in
      rw to_dict_keeps (
        omega (
          arith,
          create_spends id
              (new_action action_id session_id run_id user_id tool_name risk_level arguments key) w,
        ))
  call_budget id (approve action_id user_id) w =
      unfold approve_pending_action in
      call_spends false (λ r. approve_row h r.status r) id
        (λ r now db f. omega (arith, approve_row_spends r.status id r now db f refl)) action_id
        user_id w
  call_budget id (claim action_id user_id) w =
      unfold claim_pending_action_execution in
      call_spends true (λ r. claim_row h r.status r) id
        (λ r now db f. claim_row_spends r.status id r now db f refl) action_id user_id w
  call_budget id (complete action_id user_id) w =
      unfold complete_pending_action in
      call_spends false (λ r. complete_row h r.status r) id
        (λ r now db f. omega (arith, complete_row_spends r.status id r now db f refl)) action_id
        user_id w
  call_budget id (reject action_id user_id) w =
      unfold reject_pending_action in
      call_spends false (λ r. reject_row h r.status r) id
        (λ r now db f. omega (arith, reject_row_spends r.status id r now db f refl)) action_id
        user_id w

  -- How often a sequence of calls tells a caller to execute the action `id`.
  unfoldable pub handed_out : ℕ → List ActionCall → World → ℕ
  unfolding hands_out
  handed_out id [] w = 0
  handed_out id (c ∷ cs) w = hands_out id c w + handed_out id cs (after h c w)

  handed_out-le-budget :
      (id : ℕ) (cs : List ActionCall) (w : World) → handed_out id cs w ≤ budget_at id w.db
  unfolding handed_out
  handed_out-le-budget id [] w = omega arith
  handed_out-le-budget id (c ∷ cs) w =
      omega (arith, call_budget id c w, handed_out-le-budget id cs (after h c w))

  budget-le-one : (o : Option PendingAction) → budget o ≤ 1
  budget-le-one o = ground arith

  -- Whatever the state of the database, and whatever calls any clients make in any order, with
  -- whatever failures: at most one claim is told to execute the action.
  pub executed_at_most_once : (id : ℕ) (cs : List ActionCall) (w : World) → handed_out id cs w ≤ 1
  executed_at_most_once id cs w =
      omega (arith, handed_out-le-budget id cs w, budget-le-one (select (by_id id) w.db.actions))

  -- An action whose row is neither pending nor approved is never handed out again, whatever calls
  -- come.
  settled_never_executes :
      (id : ℕ) (cs : List ActionCall) (w : World) (r : PendingAction)
      → select (by_id id) w.db.actions ≡ some r
      → r.status ≢ pending
      → r.status ≢ approved
      → handed_out id cs w ≡ 0
  settled_never_executes id cs w r found np na =
      let spent : budget_at id w.db ≡ 0 = rw found (ground arith) in
      omega (arith, handed_out-le-budget id cs w, spent)
