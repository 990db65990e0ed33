-- ===== src/Retention/Keep.antt =====
-- What a cleanup keeps of the runs that are no test runs.
use mathlib.Core.Option.{some-injective}
use mathlib.Core.Path.{subst}
use ahmed_agent.Base.{
  ℕ, ◌≡◌, refl, sym, ◌∙◌, inl, inr, Bool, true, false, none, some, List, [], ◌∷◌, map, ◌==◌, arith,
  Bool-cases, ==_iff,
}
use ahmed_agent.Base.Table.{select, select_all, delete}
use ahmed_agent.Schema.{Db, Run, Message, ToolEvent, PendingAction}
use ahmed_agent.Audit.{Hashing, append_audit_event}
use ahmed_agent.Runs.{by_id}
use ahmed_agent.Leases.Unique.{Once}
use ahmed_agent.Retention.{
  Deleted, is_any, is_test_run, test_ids, delete_runs, delete_expired, delete_all, cleanup,
}

module _ (id : ℕ) where
  -- A row that a DELETE misses is found after it as before.
  module _ {ℓ} {A : Type ℓ} (of : A → ℕ) (ids : List ℕ) (missed : is_any ids id ≡ false) where
    other_row : (x : A) → (of x == id) ≡ true → is_any ids (of x) ≡ false
    other_row x here =
        subst (λ (n : ℕ). is_any ids n ≡ false) (sym ((==_iff (of x) id).0 here)) missed

    select-delete :
        (xs : List A)
        → select (λ (x : A). of x == id) (delete (λ (x : A). is_any ids (of x)) xs)
          ≡ select (λ (x : A). of x == id) xs
    select-delete [] = refl
    select-delete (x ∷ xs) = ground (arith, other_row x, select-delete xs)

    select_all-delete :
        (xs : List A)
        → select_all (λ (x : A). of x == id) (delete (λ (x : A). is_any ids (of x)) xs)
          ≡ select_all (λ (x : A). of x == id) xs
    select_all-delete [] = refl
    select_all-delete (x ∷ xs) = ground (arith, other_row x, select_all-delete xs)

  -- By the primary key no other run has the id.
  absent_ids :
      (test : Run → Bool) (rs : List Run)
      → select (by_id id) rs ≡ none
      → is_any (map (λ (r : Run). r.run_id) (select_all test rs)) id ≡ false
  absent_ids test [] missing = refl
  absent_ids test (r ∷ rs) missing = ground (arith, absent_ids test rs)

  kept_id :
      (test : Run → Bool) (rs : List Run) (r : Run)
      → Once id rs
      → select (by_id id) rs ≡ some r
      → test r ≡ false
      → is_any (map (λ (x : Run). x.run_id) (select_all test rs)) id ≡ false
  kept_id test [] r once found kept = absurd (cc found)
  kept_id test (x ∷ rs) r (first, once) found kept = elim (Bool-cases (by_id id x)) [
    | inl here ↦
        let same = some-injective _ _ (rw here at found) in
        rw (subst (λ (y : Run). test y ≡ false) (sym same) kept)
          (absent_ids test rs (first ((==_iff x.run_id id).0 here)))
    | inr other ↦ ground (arith, kept_id test rs r once)
  ]

-- The run is still there, with its messages, tool events and pending actions.
abbrev pub IsKept : ℕ → Run → Db → Db → Type 0
IsKept id r db db' =
    (select (by_id id) db'.runs ≡ some r)
    × (select_all (λ (m : Message). m.run_id == id) db'.messages
        ≡ select_all (λ (m : Message). m.run_id == id) db.messages)
    × (select_all (λ (e : ToolEvent). e.run_id == id) db'.tool_events
        ≡ select_all (λ (e : ToolEvent). e.run_id == id) db.tool_events)
    × (select_all (λ (a : PendingAction). a.run_id == id) db'.actions
        ≡ select_all (λ (a : PendingAction). a.run_id == id) db.actions)

delete_runs-IsKept :
    (id : ℕ) (r : Run) (ids : List ℕ) (db : Db) (d : Deleted)
    → is_any ids id ≡ false
    → select (by_id id) db.runs ≡ some r
    → IsKept id r db (delete_runs ids (db, d)).0
unfolding delete_runs
delete_runs-IsKept id r [] db d missed found = (found, refl, refl, refl)
delete_runs-IsKept id r (x ∷ more) db d missed found = (
  select-delete id (λ (y : Run). y.run_id) (x ∷ more) missed db.runs ∙ found,
  select_all-delete id (λ (m : Message). m.run_id) (x ∷ more) missed db.messages,
  select_all-delete id (λ (e : ToolEvent). e.run_id) (x ∷ more) missed db.tool_events,
  select_all-delete id (λ (a : PendingAction). a.run_id) (x ∷ more) missed db.actions,
)

delete_all-IsKept :
    (include_test_data : Bool) (id now : ℕ) (r : Run) (db : Db)
    → Once id db.runs
    → select (by_id id) db.runs ≡ some r
    → is_test_run db.sessions r ≡ false
    → IsKept id r db (delete_all include_test_data now db).0
unfolding delete_all delete_expired
delete_all-IsKept true id now r db once found kept =
    delete_runs-IsKept id r (test_ids db) (delete_expired now db).0 (delete_expired now db).1
      (kept_id id (is_test_run db.sessions) db.runs r once found kept) found
delete_all-IsKept false id now r db once found kept = (found, refl, refl, refl)

-- A cleanup, with or without the test data, keeps every run whose session has no test scope, if its
-- id stands in the table once: the row of the run is as it was, and so are the messages, the tool
-- events and the pending actions of the run.
pub cleanup-IsKept :
    (h : Hashing) (include_test_data : Bool) (id now : ℕ) (r : Run) (db db' : Db)
    (answer : Deleted × ℕ)
    → Once id db.runs
    → select (by_id id) db.runs ≡ some r
    → is_test_run db.sessions r ≡ false
    → cleanup h include_test_data now db ≡ some (answer, db')
    → IsKept id r db db'
unfolding cleanup append_audit_event
cleanup-IsKept h include_test_data id now r db db' answer once found kept ran =
    subst (λ (q : (Deleted × ℕ) × Db). IsKept id r db q.1) (some-injective _ _ ran)
      (delete_all-IsKept include_test_data id now r db once found kept)
