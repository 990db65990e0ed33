-- ===== src/Leases/Protect.antt =====
-- A lease protects its run: while it lasts, no call of anybody else takes the run away.
use mathlib.Core.Option.{some-injective}
use mathlib.Core.Path.{subst}
use ahmed_agent.Base.{
  ℕ, ◌≤◌, ◌<◌, ◌≡◌, ◌≢◌, refl, ap, ◌⊎◌, inl, inr, Bool, true, false, Option, some, String, List, [],
  ◌∷◌, arith, eq_iff, All, ==_iff, Bool-cases, Option-cases, if◌then◌else◌,
}
use ahmed_agent.Base.Json.{Json}
use ahmed_agent.Base.Table.{select, update, select-update}
use ahmed_agent.Schema.{Db, Run, RunStatus, running, active}
use ahmed_agent.Exec.{Exec, Error, World, Transaction, pure, raise, transact, ◌>>=◌}
use ahmed_agent.Exec.Effects.{transact-Ran, continue-pure}
use ahmed_agent.Audit.{Hashing, append_audit_event}
use ahmed_agent.Runs.{
  by_id, new_run, insert_run, create_run, finished, update_finished, finish_run, renewable, renewed,
  update_renewed, renew_run_lease, lost, mark_orphaned, update_orphaned, mark_orphaned_runs,
  claimable, claimed, update_claimed, claim_orphaned_run, releasable, released, update_released,
  release_orphaned_run,
}
use ahmed_agent.Events.{at_stage, insert_checkpoint, record_run_checkpoint}
use ahmed_agent.Leases.{
  RunCall, create, finish, renew, scan, claim, release, checkpoint, after, serve,
}

-- The run is held by the worker under a lease until `expiry`.
pub record IsHeld (run_id : ℕ) (worker : String) (expiry : ℕ) (r : Run) : Type 0 where
  pub same_run : r.run_id ≡ run_id
  pub still_running : r.status ≡ running
  pub still_active : r.recovery_status ≡ active
  pub held : r.worker_id ≡ some worker
  pub until : r.lease_expires_at ≡ some expiry

abbrev pub Holds : ℕ → String → ℕ → Db → Type 0
Holds run_id worker expiry db =
    (r : Run) × (select (by_id run_id) db.runs ≡ some r) × IsHeld run_id worker expiry r

-- A call that is not the worker's own on this run, and does not finish the run.
abbrev pub IsForeign : ℕ → String → RunCall → Type 0
IsForeign run_id worker (finish id status error_code) = id ≢ run_id
IsForeign run_id worker (renew id w lease_seconds) = (id ≢ run_id) ⊎ (w ≢ worker)
IsForeign run_id worker (release id w) = (id ≢ run_id) ⊎ (w ≢ worker)
IsForeign run_id worker _ = Unit

module _ (run_id : ℕ) (worker : String) (expiry : ℕ) where
  holds_update :
      (test : Run → Bool) (change : Run → Run) (rs : List Run) (r : Run)
      → ((x : Run) → (change x).run_id ≡ x.run_id)
      → (test r ≡ true → IsHeld run_id worker expiry (change r))
      → select (by_id run_id) rs ≡ some r
      → IsHeld run_id worker expiry r
      → (r' : Run) × (select (by_id run_id) (update test change rs) ≡ some r')
        × IsHeld run_id worker expiry r'
  holds_update test change rs r same keep found is =
      rw (select-update (by_id run_id) test change (λ x. rw (same x)) rs, found)
        (elim (Bool-cases (test r)) [
          | inl hit ↦ (change r, rw hit refl, keep hit)
          | inr miss ↦ (r, rw miss refl, is)
        ])

  -- A call that keeps the hold while it ends before the lease, and does not turn the clock back.
  record Shields {A : Type 0} (m : Exec A) : Type 0 where
    keeps :
        (w : World)
        → (m w).1.clock < expiry
        → Holds run_id worker expiry w.db
        → Holds run_id worker expiry (m w).1.db
    later : (w : World) → w.clock ≤ (m w).1.clock

  Shields-raise : {A : Type 0} (e : Error) → Shields (raise {A = A} e)
  Shields-raise e = record { keeps = λ w early hold. hold; later = λ w. omega arith }

  Shields-if :
      {A : Type 0} (b : Bool) (m n : Exec A) → Shields m → Shields n → Shields (if b then m else n)
  Shields-if true m n hm hn = hm
  Shields-if false m n hm hn = hn

  Shields-transact :
      {A : Type 0} (t : Transaction A)
      → ((now : ℕ) (db : Db) (a : A) (db' : Db)
          → now < expiry
          → Holds run_id worker expiry db
          → t now db ≡ some (a, db')
          → Holds run_id worker expiry db')
      → Shields (transact t)
  Shields-transact t keep = record {
    keeps = λ w early hold. elim (transact-Ran t w).effect [
      | inl (failed, same) ↦ rw same hold
      | inr (a, returned, ran) ↦ keep _ w.db a _ early hold ran
    ];
    later = λ w. (transact-Ran t w).later;
  }

  Shields-map :
      {A B : Type 0} (m : Exec A) (f : A → B) → Shields m → Shields (m >>= λ a. pure (f a))
  Shields-map m f hm = record {
    keeps = λ w early hold.
        rw (continue-pure (m w).0 f (m w).1)
          (hm.keeps w (rw (continue-pure (m w).0 f (m w).1) at early) hold);
    later = λ w. rw (continue-pure (m w).0 f (m w).1) (hm.later w);
  }

  runs_after :
      {A : Type 0} {a b : A} {db db' : Db}
      → ◌≡◌ {A = Option (A × Db)} (some (a, db)) (some (b, db'))
      → Holds run_id worker expiry db
      → Holds run_id worker expiry db'
  runs_after {A} {a} {b} {db} {db'} e hold =
      subst
        (λ (rs : List Run).
          (r : Run) × (select (by_id run_id) rs ≡ some r) × IsHeld run_id worker expiry r)
        (ap (λ (p : A × Db). p.1.runs) (some-injective _ _ e)) hold

  scanned :
      (now : ℕ) (db : Db) (a : List ℕ) (db' : Db)
      → now < expiry
      → Holds run_id worker expiry db
      → update_orphaned now db ≡ some (a, db')
      → Holds run_id worker expiry db'
  unfolding update_orphaned
  scanned now db a db' early (r, found, is) e = runs_after e (
      holds_update (lost now) mark_orphaned db.runs r (λ x. refl)
        (λ hit. absurd (ground (arith, is.until))) found is)

  renewed_by_other :
      (id : ℕ) (w : String) (lease_seconds now : ℕ) (db : Db) (a : ℕ) (db' : Db)
      → (id ≢ run_id) ⊎ (w ≢ worker)
      → Holds run_id worker expiry db
      → update_renewed id w lease_seconds now db ≡ some (a, db')
      → Holds run_id worker expiry db'
  unfolding update_renewed
  renewed_by_other id w lease_seconds now db a db' other (r, found, is) e = runs_after e (
      holds_update (renewable id w now) (renewed lease_seconds now) db.runs r (λ x. refl)
        (λ hit. absurd (ground (arith, is.held, is.same_run, eq_iff worker w))) found is)

  claimed_by_other :
      (id : ℕ) (w : String) (lease_seconds now : ℕ) (db : Db) (a : Option Run) (db' : Db)
      → Holds run_id worker expiry db
      → update_claimed id w lease_seconds now db ≡ some (a, db')
      → Holds run_id worker expiry db'
  unfolding update_claimed
  claimed_by_other id w lease_seconds now db a db' (r, found, is) e = runs_after e (
      holds_update (claimable id now) (claimed w lease_seconds now) db.runs r (λ x. refl)
        (λ hit. absurd (ground (arith, is.still_active))) found is)

  released_by_other :
      (id : ℕ) (w : String) (now : ℕ) (db : Db) (a : ℕ) (db' : Db)
      → (id ≢ run_id) ⊎ (w ≢ worker)
      → Holds run_id worker expiry db
      → update_released id w now db ≡ some (a, db')
      → Holds run_id worker expiry db'
  unfolding update_released
  released_by_other id w now db a db' other (r, found, is) e = runs_after e (
      holds_update (releasable id w) released db.runs r (λ x. refl)
        (λ hit. absurd (ground (arith, is.held, is.same_run, eq_iff worker w))) found is)

  finished_other :
      (id : ℕ) (status : RunStatus) (error_code : Option String) (now : ℕ) (db : Db) (a : Unit {0})
      (db' : Db)
      → id ≢ run_id
      → Holds run_id worker expiry db
      → update_finished id status error_code now db ≡ some (a, db')
      → Holds run_id worker expiry db'
  unfolding update_finished
  finished_other id status error_code now db a db' other (r, found, is) e = runs_after e (
      holds_update (by_id id) (finished status error_code now) db.runs r (λ x. refl)
        (λ hit. absurd (ground (arith, is.same_run))) found is)

  created_other :
      (x : Run) (now : ℕ) (db : Db) (a : Unit {0}) (db' : Db)
      → Holds run_id worker expiry db
      → insert_run x now db ≡ some (a, db')
      → Holds run_id worker expiry db'
  unfolding insert_run
  created_other x now db a db' (r, found, is) e =
      elim (Option-cases (select (by_id x.run_id) db.runs)) [
        | inr (y, old) ↦ absurd (cc (rw old at e))
        | inl fresh ↦ runs_after (rw fresh at e) (elim (Bool-cases (by_id run_id x)) [
          | inl hit ↦ absurd (cc (found, fresh, (==_iff _ _).0 hit))
          | inr miss ↦ (r, rw miss found, is)
        ])
      ]

  module _ (h : Hashing) where
    checkpointed :
        (session_id id : ℕ) (stage : String) (state : Json) (now : ℕ) (db : Db) (a : Unit {0})
        (db' : Db)
        → Holds run_id worker expiry db
        → insert_checkpoint h session_id id stage state now db ≡ some (a, db')
        → Holds run_id worker expiry db'
    unfolding insert_checkpoint append_audit_event
    checkpointed session_id id stage state now db a db' (r, found, is) e = runs_after e (
        holds_update (by_id id) (at_stage stage now) db.runs r (λ x. refl) (λ hit. ground arith)
          found is)

    create-Shields :
        (id session_id : ℕ) (user_prompt provider_name model_name : String)
        (worker_id : Option String) (lease_seconds : ℕ)
        → Shields
            (create_run id session_id user_prompt provider_name model_name worker_id lease_seconds)
    unfolding create_run
    create-Shields id session_id user_prompt provider_name model_name worker_id lease_seconds =
        Shields-if _ _ _ (Shields-raise _) (
          Shields-transact _ (λ now db a db' early.
            created_other
              (new_run id session_id user_prompt provider_name model_name worker_id lease_seconds
                now)
              now db a db'))

    finish-Shields :
        (id : ℕ) (status : RunStatus) (error_code : Option String)
        → id ≢ run_id
        → Shields (finish_run id status error_code)
    unfolding finish_run
    finish-Shields id status error_code other = Shields-if _ _ _ (Shields-raise _) (
        Shields-transact _
          (λ now db a db' early. finished_other id status error_code now db a db' other))

    renew-Shields :
        (id : ℕ) (w : String) (lease_seconds : ℕ)
        → (id ≢ run_id) ⊎ (w ≢ worker)
        → Shields (renew_run_lease id w lease_seconds)
    unfolding renew_run_lease
    renew-Shields id w lease_seconds other = Shields-if _ _ _ (Shields-raise _) (
        Shields-map _ _ (
          Shields-transact _
            (λ now db a db' early. renewed_by_other id w lease_seconds now db a db' other)))

    claim-Shields :
        (id : ℕ) (w : String) (lease_seconds : ℕ) → Shields (claim_orphaned_run id w lease_seconds)
    unfolding claim_orphaned_run
    claim-Shields id w lease_seconds = Shields-if _ _ _ (Shields-raise _) (
        Shields-transact _ (λ now db a db' early. claimed_by_other id w lease_seconds now db a db'))

    release-Shields :
        (id : ℕ) (w : String) → (id ≢ run_id) ⊎ (w ≢ worker) → Shields (release_orphaned_run id w)
    unfolding release_orphaned_run
    release-Shields id w other =
        Shields-map _ _
          (Shields-transact _ (λ now db a db' early. released_by_other id w now db a db' other))

    checkpoint-Shields :
        (session_id id : ℕ) (stage : String) (state : Json)
        → Shields (record_run_checkpoint h session_id id stage state)
    unfolding record_run_checkpoint
    checkpoint-Shields session_id id stage state = Shields-if _ _ _ (Shields-raise _) (
        Shields-transact _
          (λ now db a db' early. checkpointed session_id id stage state now db a db'))

    -- What one call does, whatever it is.
    record Step (w w' : World) : Type 0 where
      kept : w'.clock < expiry → Holds run_id worker expiry w.db → Holds run_id worker expiry w'.db
      later : w.clock ≤ w'.clock

    Step-of : {A : Type 0} {m : Exec A} (w : World) → Shields m → Step w (m w).1
    Step-of w s = record { kept = s.keeps w; later = s.later w }

    after-Step : (c : RunCall) (w : World) → IsForeign run_id worker c → Step w (after h c w)
    unfolding after mark_orphaned_runs
    after-Step (create id session_id user_prompt provider_name model_name worker_id lease_seconds) w
          other =
        Step-of w (
          create-Shields id session_id user_prompt provider_name model_name worker_id lease_seconds)
    after-Step (finish id status error_code) w other =
        Step-of w (finish-Shields id status error_code other)
    after-Step (renew id v lease_seconds) w other =
        Step-of w (renew-Shields id v lease_seconds other)
    after-Step scan w other = Step-of w (Shields-transact update_orphaned scanned)
    after-Step (claim id v lease_seconds) w other = Step-of w (claim-Shields id v lease_seconds)
    after-Step (release id v) w other = Step-of w (release-Shields id v other)
    after-Step (checkpoint session_id id stage state) w other =
        Step-of w (checkpoint-Shields session_id id stage state)

    serve_later :
        (cs : List RunCall) (w : World)
        → All (IsForeign run_id worker) cs
        → w.clock ≤ (serve h cs w).clock
    unfolding serve
    serve_later [] w f = omega arith
    serve_later (c ∷ cs) w (f, fs) =
        omega (arith, (after-Step c w f).later, serve_later cs (after h c w) fs)

    -- While a worker holds a run under a lease, no sequence of calls that are not its own on that
    -- run and do not finish it takes the run away: as long as the clock shows a time before the
    -- expiry, the run is still running, active and held by that worker until that expiry.
    pub lease_protects :
        (cs : List RunCall) (w : World)
        → All (IsForeign run_id worker) cs
        → (serve h cs w).clock < expiry
        → Holds run_id worker expiry w.db
        → Holds run_id worker expiry (serve h cs w).db
    unfolding serve
    lease_protects [] w f early hold = hold
    lease_protects (c ∷ cs) w (f, fs) early hold =
        let step = after-Step c w f in
        lease_protects cs (after h c w) fs early
          (step.kept (omega (arith, serve_later cs (after h c w) fs)) hold)
