-- ===== src/Actions/Create.antt =====
-- Creation under an idempotency key.
use mathlib.Core.Option.{some-injective}
use ahmed_agent.Base.{
  ℕ, ◌≡◌, refl, sym, ap, inl, inr, true, Option, none, some, String, List, [], ◌∷◌, arith, eq_iff,
  Option-cases,
}
use ahmed_agent.Base.Json.{Json}
use ahmed_agent.Base.Table.{select}
use ahmed_agent.Schema.{Db, PendingAction, AuditEvent}
use ahmed_agent.Exec.{World, Result, ok, err, transact, continue}
use ahmed_agent.Exec.Effects.{transact-Ran}
use ahmed_agent.Audit.{Hashing, append_audit_event}
use ahmed_agent.Actions.{
  by_key, same_key, truthy, insert_action, new_action, hit_event, after_insert, insert_recorded,
  to_dict, create_pending_action,
}

-- What the newest event says.
abbrev pub newest : List AuditEvent → Option (String × String)
newest [] = none
newest (e ∷ _) = some (e.payload.event_type, e.payload.status)

module _ (h : Hashing) where
  -- The state after a creation under a key: the row under the key is the answer, and the event
  -- of a duplicate is recorded.
  record IsKeyed (run_id : ℕ) (key : Option String) (answer : Option PendingAction) (db : Db)
      : Type 0 where
    row : PendingAction
    answered : answer ≡ some row
    found : select (by_key run_id key) db.actions ≡ some row
    event : newest db.audit ≡ some ("pending_action.idempotency_hit", "deduplicated")

  same_key_self : (key : Option String) → truthy key ≡ true → same_key key key ≡ true
  same_key_self none t = ground arith
  same_key_self (some k) t = ground (arith, eq_iff k k)

  insert_finds :
      (r : PendingAction) (rows rows' : List PendingAction)
      → truthy r.idempotency_key ≡ true
      → insert_action r rows ≡ some rows'
      → (x : PendingAction) × (select (by_key r.run_id r.idempotency_key) rows' ≡ some x)
  unfolding insert_action
  insert_finds r rows rows' t e =
      elim (Option-cases (select (by_key r.run_id r.idempotency_key) rows)) [
        | inl fresh ↦ (r, ground (arith, same_key_self r.idempotency_key t))
        | inr (x, old) ↦ (x, ground arith)
      ]

  insert_again :
      (r x : PendingAction) (rows : List PendingAction)
      → select (by_key r.run_id r.idempotency_key) rows ≡ some x
      → insert_action r rows ≡ some rows
  unfolding insert_action
  insert_again r x rows e = rw e refl

  -- The transaction of a creation under a key ends with the row under that key as its answer.
  insert_recorded-IsKeyed :
      (r : PendingAction) (now : ℕ) (db db' : Db) (a : Option PendingAction)
      → truthy r.idempotency_key ≡ true
      → insert_recorded h r now db ≡ some (a, db')
      → IsKeyed r.run_id r.idempotency_key a db'
  unfolding insert_recorded
  insert_recorded-IsKeyed r now db db' a t e = at_rows (insert_action r db.actions) refl e
    where
      at_rows :
          (o : Option (List PendingAction))
          → insert_action r db.actions ≡ o
          → after_insert h r o now db ≡ some (a, db')
          → IsKeyed r.run_id r.idempotency_key a db'
      at_rows none i e = absurd (ground arith)
      at_rows (some rows) i e =
          let (x, found) = insert_finds r db.actions rows t i in
          let done = some-injective _ _ (rw (t, found) at e) in
          rw
            (
              ← ap (λ (p : Option PendingAction × Db). p.0) done,
              ← ap (λ (p : Option PendingAction × Db). p.1) done,
            )
            (unfold append_audit_event hit_event in
              record { row = x; answered = refl; found = found; event = refl })

  to_dict_ok :
      (o : Result (Option PendingAction)) (w : World) (r : PendingAction)
      → (continue o (to_dict h) w).0 ≡ ok r
      → (o ≡ ok (some r)) × ((continue o (to_dict h) w).1 ≡ w)
  unfolding to_dict
  to_dict_ok (ok none) w r e = absurd (ground arith)
  to_dict_ok (ok (some x)) w r e = (cc, refl)
  to_dict_ok (err x) w r e = absurd (ground arith)

  transact-IsKeyed :
      (run_id : ℕ) (key : Option String) (t : ℕ → PendingAction) (w : World) (r : PendingAction)
      → truthy key ≡ true
      → ((now : ℕ) → (t now).run_id ≡ run_id)
      → ((now : ℕ) → (t now).idempotency_key ≡ key)
      → (continue
          (transact (λ now. insert_recorded h (t now) now) w).0
          (to_dict h)
          (transact (λ now. insert_recorded h (t now) now) w).1).0
        ≡ ok r
      → IsKeyed run_id key
          (some r)
          (continue
            (transact (λ now. insert_recorded h (t now) now) w).0
            (to_dict h)
            (transact (λ now. insert_recorded h (t now) now) w).1).1.db
  transact-IsKeyed run_id key t w r truth same_run same e =
      let (returned, world) = to_dict_ok _ _ r e in
      rw world (elim (transact-Ran (λ now. insert_recorded h (t now) now) w).effect [
        | inl (failed, _) ↦ absurd (cc (failed, returned))
        | inr (a, answered, ran) ↦
            let now = (transact (λ n. insert_recorded h (t n) n) w).1.clock in
            let same_answer : a ≡ some r = cc (answered, returned) in
            rw (← same_answer, ← same_run now, ← same now)
              (insert_recorded-IsKeyed (t now) now w.db _ a (rw (same now) truth) ran)
      ])

  -- With a row under the key, the transaction answers that row and leaves the table as it is.
  insert_recorded-again :
      (r x : PendingAction) (now : ℕ) (db db' : Db) (a : Option PendingAction)
      → truthy r.idempotency_key ≡ true
      → select (by_key r.run_id r.idempotency_key) db.actions ≡ some x
      → insert_recorded h r now db ≡ some (a, db')
      → (a ≡ some x) × (db'.actions ≡ db.actions)
  unfolding insert_recorded append_audit_event
  insert_recorded-again r x now db db' a t found e =
      let done = some-injective _ _ (rw (insert_again r x db.actions found, t, found) at e) in
      (
        sym (ap (λ (p : Option PendingAction × Db). p.0) done),
        sym (ap (λ (p : Option PendingAction × Db). p.1.actions) done),
      )

  transact-again :
      (t : ℕ → PendingAction) (x : PendingAction) (w : World) (r : PendingAction)
      → ((now : ℕ) → truthy (t now).idempotency_key ≡ true)
      → ((now : ℕ) → select (by_key (t now).run_id (t now).idempotency_key) w.db.actions ≡ some x)
      → (continue
          (transact (λ now. insert_recorded h (t now) now) w).0
          (to_dict h)
          (transact (λ now. insert_recorded h (t now) now) w).1).0
        ≡ ok r
      → (r ≡ x)
        × ((continue
              (transact (λ now. insert_recorded h (t now) now) w).0
              (to_dict h)
              (transact (λ now. insert_recorded h (t now) now) w).1).1.db.actions
            ≡ w.db.actions)
  transact-again t x w r truth found e =
      let (returned, world) = to_dict_ok _ _ r e in
      rw world (elim (transact-Ran (λ now. insert_recorded h (t now) now) w).effect [
        | inl (failed, _) ↦ absurd (cc (failed, returned))
        | inr (a, answered, ran) ↦
            let now = (transact (λ n. insert_recorded h (t n) n) w).1.clock in
            let again = insert_recorded-again (t now) x now w.db _ a (truth now) (found now) ran in
            (cc (answered, returned, again.0), again.1)
      ])

  module _ (action_id session_id run_id : ℕ) (user_id tool_name risk_level : String)
      (arguments : Json) (key : Option String) (truth : truthy key ≡ true) where
    created_under_key :
        (w : World) (r : PendingAction)
        → (create_pending_action h action_id session_id run_id user_id tool_name risk_level
            arguments key w).0
          ≡ ok r
        → IsKeyed run_id key
            (some r)
            (create_pending_action h action_id session_id run_id user_id tool_name risk_level
              arguments key w).1.db
    unfolding create_pending_action
    created_under_key w r =
        transact-IsKeyed run_id key
          (new_action action_id session_id run_id user_id tool_name risk_level arguments key) w r
          truth (λ now. refl) (λ now. refl)

    -- A creation under a non-empty key that returns records the event of a duplicate as the newest
    -- one, also where the row is new.
    pub keyed_create_records_hit :
        (w : World) (r : PendingAction)
        → (create_pending_action h action_id session_id run_id user_id tool_name risk_level
            arguments key w).0
          ≡ ok r
        → newest
            (create_pending_action h action_id session_id run_id user_id tool_name risk_level
              arguments key w).1.db.audit
          ≡ some ("pending_action.idempotency_hit", "deduplicated")
    keyed_create_records_hit w r e = (created_under_key w r e).event

    -- A later creation under the same run and key, of whatever action, from a database that still
    -- has the table that the first one left: if both return, they return the same row, and the
    -- second one leaves the table as it is.
    pub keyed_create_idempotent :
        (w w' : World) (r r' : PendingAction) (action_id' session_id' : ℕ)
        (user_id' tool_name' risk_level' : String) (arguments' : Json)
        → (create_pending_action h action_id session_id run_id user_id tool_name risk_level
            arguments key w).0
          ≡ ok r
        → w'.db.actions
          ≡ (create_pending_action h action_id session_id run_id user_id tool_name risk_level
              arguments key w).1.db.actions
        → (create_pending_action h action_id' session_id' run_id user_id' tool_name' risk_level'
            arguments' key w').0
          ≡ ok r'
        → (r' ≡ r)
          × ((create_pending_action h action_id' session_id' run_id user_id' tool_name' risk_level'
                arguments' key w').1.db.actions
              ≡ w'.db.actions)
    keyed_create_idempotent w w' r r' action_id' session_id' user_id' tool_name' risk_level'
          arguments' e same e' =
        let first = created_under_key w r e in
        let row : first.row ≡ r = cc (first.answered) in
        unfold create_pending_action in
        transact-again
          (new_action action_id' session_id' run_id user_id' tool_name' risk_level' arguments' key)
          r w' r' (λ now. truth) (λ now. rw (same, ← row) first.found) e'
