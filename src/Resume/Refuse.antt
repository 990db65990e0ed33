-- ===== src/Resume/Refuse.antt =====
-- The resume route leaves a run alone while its worker has it.
use mathlib.Core.Option.{some-injective}
use mathlib.Core.Path.{subst}
use ahmed_agent.Base.{ℕ, ◌<◌, ◌≡◌, refl, sym, ap, ◌∙◌, ◌⊎◌, inl, inr, Option, some, String, [], ◌∷◌}
use ahmed_agent.Base.Table.{select}
use ahmed_agent.Schema.{Db, Run}
use ahmed_agent.Exec.{World, Result, ok, Transaction, transact}
use ahmed_agent.Exec.Effects.{transact-Ran}
use ahmed_agent.Audit.{Hashing}
use ahmed_agent.Runs.{by_id, mark_orphaned_runs, update_orphaned, load_run_recovery}
use ahmed_agent.Leases.{scan, serve, after}
use ahmed_agent.Leases.Protect.{IsHeld, Holds, lease_protects}
use ahmed_agent.Resume.{
  Resumed, load_failed, lease_active, load_recovery_state, decide, resume_decided, resume_loaded,
  run_resume_route,
}

module _ (h : Hashing) (recovery_worker : String) (run_id : ℕ) (holder : String) (expiry : ℕ) where
  scan-Holds :
      (w : World)
      → Holds run_id holder expiry w.db
      → (mark_orphaned_runs w).1.clock < expiry
      → Holds run_id holder expiry (mark_orphaned_runs w).1.db
  unfolding serve after
  scan-Holds w hold early = lease_protects run_id holder expiry h (scan ∷ []) w (tt, tt) early hold

  decide_held : (r : Run) → IsHeld run_id holder expiry r → decide r r.status ≡ inl lease_active
  unfolding decide
  decide_held r is = rw (is.still_running, is.still_active) refl

  read : Transaction (Option Run)
  read now db = some (select (by_id run_id) db.runs, db)

  abbrev Refused : Result Resumed → Db → Type 0
  Refused answer db =
      ((answer ≡ ok load_failed) ⊎ (answer ≡ ok lease_active)) × Holds run_id holder expiry db

  loaded-Refused :
      (o : Option Run) (w : World) (x : Run)
      → o ≡ some x
      → IsHeld run_id holder expiry x
      → Holds run_id holder expiry w.db
      → Refused
          (resume_loaded h recovery_worker run_id (some o) w).0
          (resume_loaded h recovery_worker run_id (some o) w).1.db
  unfolding resume_loaded resume_decided
  loaded-Refused o w x e is hold = rw (e, decide_held x is) (inr refl, hold)

  -- While a worker holds the run, and the scan of the route runs before the lease ends, the route
  -- answers that the lease is active, or that it could not load the run, and the worker still
  -- holds the run afterwards.
  pub held_run_refused :
      (w : World)
      → Holds run_id holder expiry w.db
      → (mark_orphaned_runs w).1.clock < expiry
      → let done = run_resume_route h recovery_worker (some run_id) w in
        ((done.0 ≡ ok load_failed) ⊎ (done.0 ≡ ok lease_active))
        × Holds run_id holder expiry done.1.db
  unfolding run_resume_route load_recovery_state mark_orphaned_runs load_run_recovery resume_loaded
      resume_decided read
  held_run_refused w hold early =
      let held = scan-Holds w hold early in
      let w1 = (transact update_orphaned w).1 in
      elim (transact-Ran update_orphaned w).effect [
        | inl (failed, same) ↦ rw failed (inl refl, held)
        | inr (ids, returned, ran) ↦ elim (transact-Ran read w1).effect [
          | inl (failed, same) ↦
              rw (returned, failed) (inl refl, subst (Holds run_id holder expiry) (sym same) held)
          | inr (o, loaded, ran') ↦
              let done = some-injective _ _ ran' in
              let (x, found, is) = held in
              rw (returned, loaded)
                (loaded-Refused o (transact read w1).1 x
                  (sym (ap (λ (p : Option Run × Db). p.0) done) ∙ found) is
                  (subst (Holds run_id holder expiry) (ap (λ (p : Option Run × Db). p.1) done)
                    held))
        ]
      ]
