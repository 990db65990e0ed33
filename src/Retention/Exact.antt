-- ===== src/Retention/Exact.antt =====
-- The preview and the cleanup agree.
use mathlib.Core.Path.{subst}
use mathlib.Core.Option.{some-injective}
use ahmed_agent.Base.{
  ℕ, ◌+◌, ◌≡◌, refl, sym, ap, ◌∙◌, Bool, false, none, some, List, [], ◌∷◌, arith, ◌&&◌, ◌||◌, not,
  ◌==◌, ==_iff, if◌then◌else◌,
}
use ahmed_agent.Base.Table.{select, delete, count}
use ahmed_agent.Schema.{Db, Run, Checkpoint, AuditEvent}
use ahmed_agent.Audit.{Hashing, append_audit_event}
use ahmed_agent.Runs.{by_id}
use ahmed_agent.Leases.Unique.{Once}
use ahmed_agent.Retention.{preview, Deleted, expired, candidate_rows, is_due, cleanup}

-- The rows that a DELETE leaves are the ones that it does not name.
module _ {ℓ} {A : Type ℓ} (gone : A → Bool) where
  count-delete :
      (test : A → Bool) (xs : List A)
      → count test (delete gone xs) ≡ count (λ x. test x && not (gone x)) xs
  count-delete test [] = refl
  count-delete test (x ∷ xs) = ground (arith, count-delete test xs)

-- A test as a number.
abbrev one_if : Bool → ℕ
one_if b = if b then 1 else 0

module _ (now : ℕ) where
  -- Both SQL texts ask the same of a run and a checkpoint.
  is_due_step :
      (r : Run) (rs : List Run) (c : Checkpoint)
      → is_due now (r ∷ rs) c ≡ (c.run_id == r.run_id && expired now r c || is_due now rs c)
  unfolding is_due expired
  is_due_step r rs c = refl

  not_due_none : (c : Checkpoint) → is_due now [] c ≡ false
  unfolding is_due
  not_due_none c = refl

  abbrev rows_of : Checkpoint → List Run → ℕ
  rows_of c = count (λ (r : Run). by_id c.run_id r && expired now r c)

  no_rows :
      (c : Checkpoint) (rs : List Run)
      → select (by_id c.run_id) rs ≡ none
      → (rows_of c rs ≡ 0) × (is_due now rs c ≡ false)
  no_rows c [] missing = (refl, not_due_none c)
  no_rows c (r ∷ rs) missing = rw (is_due_step r rs c) (
    ground (arith, no_rows c rs, ==_iff c.run_id r.run_id),
    ground (arith, no_rows c rs, ==_iff c.run_id r.run_id),
  )

  -- By the primary key a checkpoint joins with one run at most.
  one_row :
      (c : Checkpoint) (rs : List Run) → Once c.run_id rs → rows_of c rs ≡ one_if (is_due now rs c)
  one_row c [] once = rw (not_due_none c) refl
  one_row c (r ∷ rs) (first, rest) =
      rw (is_due_step r rs c)
        (ground (arith, first, no_rows c rs, one_row c rs rest, ==_iff c.run_id r.run_id))

  candidate_rows-eq-count :
      (rs : List Run) (cs : List Checkpoint)
      → ((id : ℕ) → Once id rs)
      → candidate_rows now rs cs ≡ count (is_due now rs) cs
  unfolding candidate_rows
  candidate_rows-eq-count rs [] once = refl
  candidate_rows-eq-count rs (c ∷ cs) once =
      rw (one_row c rs (once c.run_id), candidate_rows-eq-count rs cs once) refl

  due_alone :
      (rs : List Run) (c : Checkpoint)
      → ((id : ℕ) → Once id rs)
      → not (is_due now rs c) ≡ (candidate_rows now rs (c ∷ []) == 0)
  due_alone rs c once = rw (candidate_rows-eq-count rs (c ∷ []) once) (ground arith)

count-same :
    {A : Type 0} (test test' : A → Bool) (xs : List A)
    → ((x : A) → test x ≡ test' x)
    → count test xs ≡ count test' xs
count-same test test' [] same = refl
count-same test test' (x ∷ xs) same = rw (same x, count-same test test' xs same) refl

none_left : {A : Type 0} (gone : A → Bool) (xs : List A) → count gone (delete gone xs) ≡ 0
none_left gone [] = refl
none_left gone (x ∷ xs) = ground (arith, none_left gone xs)

-- What a cleanup of the checkpoints leaves and returns. A checkpoint is left exactly if it is no row
-- of the join: the checkpoints left that pass any test are those before that pass it and do not count
-- as a candidate alone.
abbrev pub IsAsTold : ℕ → Db → (Deleted × ℕ) × Db → Type 0
IsAsTold now db ((d, audit_events), db') =
    (d.deleted_checkpoints ≡ (preview now db).checkpoint_candidates)
    × (audit_events ≡ (preview now db).audit_events_preserved + 1)
    × ((test : Checkpoint → Bool)
        → count test db'.checkpoints
          ≡ count (λ c. test c && candidate_rows now db.runs (c ∷ []) == 0) db.checkpoints)
    × ((e : AuditEvent) × (db'.audit ≡ e ∷ db.audit))
    × (db'
        ≡ record db { checkpoints = db'.checkpoints; audit = db'.audit; audit_seq = db'.audit_seq })
    × ((preview now db').checkpoint_candidates ≡ 0)
    × ((preview now db').test_run_candidates ≡ (preview now db).test_run_candidates)

-- At any time, a cleanup without the test data deletes as many checkpoints as the preview told: those
-- that the preview counts, each of them alone, and no other, whatever test one counts the rest by. It
-- adds one audit event to those that are there, and changes nothing else in the database. A preview
-- at the same time afterwards finds no more candidates, and the same test runs. The id of each run
-- stands in the table once at most.
pub preview_exact :
    (h : Hashing) (now : ℕ) (db db' : Db) (d : Deleted) (audit_events : ℕ)
    → ((id : ℕ) → Once id db.runs)
    → cleanup h false now db ≡ some ((d, audit_events), db')
    → IsAsTold now db ((d, audit_events), db')
unfolding cleanup preview append_audit_event
preview_exact h now db db' d audit_events once ran =
    subst (IsAsTold now db) (some-injective _ _ ran) (
      sym (candidate_rows-eq-count now db.runs db.checkpoints once),
      omega arith,
      λ test.
          count-delete (is_due now db.runs) test db.checkpoints
          ∙ count-same _ _ db.checkpoints
              (λ c. ap (λ (b : Bool). test c && b) (due_alone now db.runs c once)),
      (_, refl),
      refl,
      candidate_rows-eq-count now db.runs _ once ∙ none_left (is_due now db.runs) db.checkpoints,
      refl,
    )
