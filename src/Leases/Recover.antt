-- ===== src/Leases/Recover.antt =====
-- How a lost run comes to another worker, and that only one worker gets it.
use mathlib.Core.Option.{some-injective}
use ahmed_agent.Base.{
  ℕ, ◌+◌, ◌*◌, ◌≤◌, ◌≡◌, ◌≢◌, refl, sym, ap, ◌∙◌, inl, inr, true, false, Option, none, some, String,
  List, [], ◌∷◌, arith, eq_iff, ==_iff, Bool-cases, Option-cases, if◌then◌else◌,
}
use native.Mathlib.Decide.{ℕ_discrete}
use ahmed_agent.Base.Table.{select, update, select-update, select_passes}
use ahmed_agent.Schema.{Db, Run, second}
use ahmed_agent.Exec.{ok, World, transact}
use ahmed_agent.Exec.Effects.{transact-Ran}
use ahmed_agent.Runs.{
  by_id, lost, mark_orphaned, mark_orphaned_runs, claimable, claimed, update_claimed,
  claim_orphaned_run, invalid_claim, updated_row,
}
use ahmed_agent.Leases.Protect.{IsHeld, Holds}
use ahmed_agent.Leases.Unique.{Once, Once-update}

-- A row that the claim's test finds is the row of that run.
claimable_row :
    (run_id now : ℕ) (rs : List Run) (r : Run)
    → select (claimable run_id now) rs ≡ some r
    → (r.run_id ≡ run_id) × (claimable run_id now r ≡ true)
unfolding claimable
claimable_row run_id now rs r e =
    let passes = select_passes (claimable run_id now) rs r e in (ground arith, passes)

-- A database that does not fail, at a time.
abbrev pub calm : Db → ℕ → World
calm db now = record { db = db; clock = now; outcomes = [] }

pub unclaimable :
    (run_id now : ℕ) (rs : List Run)
    → select (by_id run_id) rs ≡ none
    → select (claimable run_id now) rs ≡ none
unfolding claimable
unclaimable run_id now [] e = refl
unclaimable run_id now (x ∷ rs) e = ground (arith, unclaimable run_id now rs)

select-claimable :
    (run_id now : ℕ) (rs : List Run) (r : Run)
    → Once run_id rs
    → select (by_id run_id) rs ≡ some r
    → select (claimable run_id now) rs ≡ (if claimable run_id now r then some r else none)
unfolding claimable
select-claimable run_id now [] r once e = absurd (ground arith)
select-claimable run_id now (x ∷ rs) r (first, rest) e = elim (ℕ_discrete x.run_id run_id) [
  | yes here ↦ ground (arith, first here, unclaimable run_id now rs)
  | no there ↦ ground (arith, select-claimable run_id now rs r rest)
]

-- What a claim answers is the row after its update.
pub claim_answer :
    (run_id : ℕ) (worker : String) (lease_seconds now : ℕ) (db : Db) (a : Option Run) (db' : Db)
    → update_claimed run_id worker lease_seconds now db ≡ some (a, db')
    → (a ≡ updated_row (claimed worker lease_seconds now) (select (claimable run_id now) db.runs))
      × (db'.runs ≡ update (claimable run_id now) (claimed worker lease_seconds now) db.runs)
unfolding update_claimed
claim_answer run_id worker lease_seconds now db a db' e =
    let done = some-injective _ _ e in
    (
      sym (ap (λ (p : Option Run × Db). p.0) done),
      sym (ap (λ (p : Option Run × Db). p.1.runs) done),
    )

module _ (run_id : ℕ) (worker : String) (lease_seconds : ℕ) where
  -- What is known when a claim returned a run.
  record Claimed (w : World) (r : Run) (w' : World) : Type 0 where
    before : Run
    found : select (claimable run_id w'.clock) w.db.runs ≡ some before
    row : r ≡ claimed worker lease_seconds w'.clock before
    written :
        w'.db.runs
        ≡ update (claimable run_id w'.clock) (claimed worker lease_seconds w'.clock) w.db.runs

  transact-Claimed :
      (w : World) (r : Run)
      → (transact (update_claimed run_id worker lease_seconds) w).0 ≡ ok (some r)
      → Claimed w r (transact (update_claimed run_id worker lease_seconds) w).1
  transact-Claimed w r e =
      elim (transact-Ran (update_claimed run_id worker lease_seconds) w).effect [
        | inl (failed, same) ↦ absurd (cc (failed, e))
        | inr (a, returned, ran) ↦
            let now = (transact (update_claimed run_id worker lease_seconds) w).1.clock in
            let (answer, written) = claim_answer run_id worker lease_seconds now w.db a _ ran in
            elim (Option-cases (select (claimable run_id now) w.db.runs)) [
              | inl missing ↦ absurd (
                  cc (
                    returned,
                    e,
                    answer,
                    ap (updated_row (claimed worker lease_seconds now)) missing,
                  ))
              | inr (x, found) ↦ record {
                before = x;
                found = found;
                row = cc (
                  returned,
                  e,
                  answer,
                  ap (updated_row (claimed worker lease_seconds now)) found,
                );
                written = written;
              }
            ]
      ]

  claim-Claimed :
      (w : World) (r : Run)
      → (claim_orphaned_run run_id worker lease_seconds w).0 ≡ ok (some r)
      → Claimed w r (claim_orphaned_run run_id worker lease_seconds w).1
  unfolding claim_orphaned_run
  claim-Claimed w r e = elim (Bool-cases (invalid_claim worker lease_seconds)) [
    | inl bad ↦ absurd (cc (rw bad at e))
    | inr good ↦ rw good (transact-Claimed w r (rw good at e))
  ]

  -- The row that a claim updates is the row of its run.
  claimed_row :
      (now : ℕ) (rs : List Run) (x : Run)
      → Once run_id rs
      → select (claimable run_id now) rs ≡ some x
      → select (by_id run_id) rs ≡ some x
  claimed_row now rs x once found = elim (Option-cases (select (by_id run_id) rs)) [
    | inl missing ↦ absurd (cc (unclaimable run_id now rs missing, found))
    | inr (r, here) ↦ ground (arith, select-claimable run_id now rs r once here)
  ]

  not_claimable :
      (now : ℕ) (holder : String) (expiry : ℕ) (x : Run)
      → IsHeld run_id holder expiry x
      → claimable run_id now x ≡ false
  unfolding claimable
  not_claimable now holder expiry x is = ground (arith, is.still_active)

  -- A run that somebody holds under a lease is not handed out: a claim by anybody, at any time
  -- and with any failures, does not return it, provided that its id stands in the table once.
  pub held_not_claimed :
      (w : World) (holder : String) (expiry : ℕ) (r : Run)
      → Once run_id w.db.runs
      → Holds run_id holder expiry w.db
      → (claim_orphaned_run run_id worker lease_seconds w).0 ≢ ok (some r)
  held_not_claimed w holder expiry r once (x, found, is) e =
      let c = claim-Claimed w r e in
      let now = (claim_orphaned_run run_id worker lease_seconds w).1.clock in
      absurd (
        cc (
          c.found,
          rw (not_claimable now holder expiry x is) at
              (select-claimable run_id now w.db.runs x once found),
        ))

  claimed-IsHeld :
      (now : ℕ) (x : Run)
      → x.run_id ≡ run_id
      → IsHeld run_id worker (now + lease_seconds * second) (claimed worker lease_seconds now x)
  unfolding claimed
  claimed-IsHeld now x same = record {
    same_run = same;
    still_running = refl;
    still_active = refl;
    held = refl;
    until = refl;
  }

  -- A claim that returns a run has made the caller its holder, for the lease that it asked for,
  -- with one more attempt and one more version of the lease, and with the run's stage kept.
  claim_holds :
      (w : World) (r : Run)
      → (claim_orphaned_run run_id worker lease_seconds w).0 ≡ ok (some r)
      → IsHeld run_id worker
          ((claim_orphaned_run run_id worker lease_seconds w).1.clock + lease_seconds * second)
          r
        × ((x : Run) × (select
                (claimable run_id (claim_orphaned_run run_id worker lease_seconds w).1.clock)
                w.db.runs
              ≡ some x)
            × (r.attempt_count ≡ x.attempt_count + 1)
            × (r.lease_version ≡ x.lease_version + 1)
            × (r.stage ≡ x.stage))
  unfolding claimed
  claim_holds w r e =
      let c = claim-Claimed w r e in
      let now = (claim_orphaned_run run_id worker lease_seconds w).1.clock in
      let passes = claimable_row run_id now w.db.runs c.before c.found in
      rw c.row (claimed-IsHeld now c.before passes.0, (c.before, c.found, refl, refl, refl))

  -- A claim that returns a run leaves it held by the caller in the table too.
  pub claim-Holds :
      (w : World) (r : Run)
      → Once run_id w.db.runs
      → (claim_orphaned_run run_id worker lease_seconds w).0 ≡ ok (some r)
      → Holds run_id worker
          ((claim_orphaned_run run_id worker lease_seconds w).1.clock + lease_seconds * second)
          (claim_orphaned_run run_id worker lease_seconds w).1.db
  unfolding claimed
  claim-Holds w r once e =
      let c = claim-Claimed w r e in
      let now = (claim_orphaned_run run_id worker lease_seconds w).1.clock in
      let passes = claimable_row run_id now w.db.runs c.before c.found in
      (
        claimed worker lease_seconds now c.before,
        rw c.written (
            select-update (by_id run_id) (claimable run_id now) (claimed worker lease_seconds now)
              (λ x. refl) w.db.runs
            ∙ rw (claimed_row now w.db.runs c.before once c.found, passes.1) refl),
        claimed-IsHeld now c.before passes.0,
      )

  lost_claimed :
      (now later : ℕ) (r : Run)
      → r.run_id ≡ run_id
      → lost now r ≡ true
      → claimable run_id later (mark_orphaned r) ≡ true
  unfolding lost mark_orphaned claimable
  lost_claimed now later r same l = ground arith

  pub scanned_claimable :
      (now : ℕ) (rs : List Run) (r : Run)
      → Once run_id rs
      → select (by_id run_id) rs ≡ some r
      → lost now r ≡ true
      → select (claimable run_id now) (update (lost now) mark_orphaned rs) ≡ some (mark_orphaned r)
  unfolding mark_orphaned
  scanned_claimable now rs r once found l =
      let same = (==_iff r.run_id run_id).0 (select_passes (by_id run_id) rs r found) in
      let here =
        select-update (by_id run_id) (lost now) mark_orphaned (λ x. refl) rs ∙ rw (found, l) refl in
      select-claimable run_id now (update (lost now) mark_orphaned rs) (mark_orphaned r)
        (Once-update run_id (lost now) mark_orphaned (λ x. refl) rs once) here
      ∙ rw (lost_claimed now now r same l) refl

  pub valid_claim :
      worker ≢ ""
      → 30 ≤ lease_seconds
      → lease_seconds ≤ 900
      → invalid_claim worker lease_seconds ≡ false
  valid_claim named low high = ground (arith, eq_iff worker "")

  -- A run whose lease has ended comes to whoever asks for it: with no failure of the database,
  -- the scan marks it as orphaned, and a claim after that returns it, held by the caller and with
  -- one more attempt, if the worker has a name, the lease is between 30 and 900 seconds and the
  -- id of the run stands in the table once.
  pub lost_run_claimed :
      (db : Db) (now : ℕ) (r : Run)
      → Once run_id db.runs
      → select (by_id run_id) db.runs ≡ some r
      → lost now r ≡ true
      → worker ≢ ""
      → 30 ≤ lease_seconds
      → lease_seconds ≤ 900
      → (r' : Run) × ((claim_orphaned_run run_id worker lease_seconds
            (mark_orphaned_runs (calm db now)).1).0
          ≡ ok (some r'))
        × IsHeld run_id worker (now + lease_seconds * second) r'
        × (r'.attempt_count ≡ r.attempt_count + 1)
  unfolding claim_orphaned_run mark_orphaned_runs
  lost_run_claimed db now r once found l named low high = (
    claimed worker lease_seconds now (mark_orphaned r),
    rw (valid_claim named low high) (rw (scanned_claimable now db.runs r once found l) refl),
    claimed-IsHeld now (mark_orphaned r)
        ((==_iff r.run_id run_id).0 (select_passes (by_id run_id) db.runs r found)),
    refl,
  )
