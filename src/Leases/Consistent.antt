-- ===== src/Leases/Consistent.antt =====
-- The well-formedness of runs and their leases, kept by every call.
use ahmed_agent.Base.{◌≤◌, ◌≡◌, ◌≢◌, ◌↔◌, true, List, arith, All, is_some}
use ahmed_agent.Base.Table.{All-update}
use ahmed_agent.Schema.{Db, Run, running, active, resolved}
use ahmed_agent.Exec.{World}
use ahmed_agent.Audit.{Hashing}
use ahmed_agent.Runs.{
  new_run, finished, renewable, renewed, lost, mark_orphaned, claimable, claimed, releasable,
  released,
}
use ahmed_agent.Events.{at_stage}
use ahmed_agent.Leases.{RunCall, serve}
use ahmed_agent.Leases.Invariants.{Laws, serve-keeps}

-- A run has a lease exactly while it is active, a worker only under a lease, is resolved exactly
-- when it does not run, and every attempt has raised the version of its lease.
pub record IsConsistent (r : Run) : Type 0 where
  pub leased : (is_some r.lease_expires_at ≡ true) ↔ (r.recovery_status ≡ active)
  pub worked : is_some r.worker_id ≡ true → is_some r.lease_expires_at ≡ true
  pub ended : (r.recovery_status ≡ resolved) ↔ (r.status ≢ running)
  pub attempted : 1 ≤ r.attempt_count
  pub versioned : r.attempt_count ≤ r.lease_version

abbrev pub RunsAreConsistent : Db → Type 0
RunsAreConsistent db = All IsConsistent db.runs

pub IsConsistent-Laws : Laws (All IsConsistent)
unfolding new_run finished renewable renewed lost mark_orphaned claimable claimed releasable
    released at_stage
IsConsistent-Laws = record {
  on_create = λ _ _ _ _ _ worker _ _ rs fresh h. (ground arith, h);
  on_finish = λ id status code now rs valid.
      All-update IsConsistent _ (finished status code now) (λ r c t. ground arith) rs;
  on_renew = λ id w s now.
      All-update IsConsistent (renewable id w now) (renewed s now) (λ r c t. ground arith);
  on_scan = λ now. All-update IsConsistent (lost now) mark_orphaned (λ r c t. ground arith);
  on_claim = λ id w s now.
      All-update IsConsistent (claimable id now) (claimed w s now) (λ r c t. ground arith);
  on_release = λ id w. All-update IsConsistent (releasable id w) released (λ r c t. ground arith);
  on_checkpoint =
      λ id stage now. All-update IsConsistent _ (at_stage stage now) (λ r c t. ground arith);
}

-- Whatever calls are made, in any order and with any failures of the database: if every run is
-- consistent before, every run is consistent afterwards.
pub serve-RunsAreConsistent :
    (h : Hashing) (cs : List RunCall) (w : World)
    → RunsAreConsistent w.db
    → RunsAreConsistent (serve h cs w).db
serve-RunsAreConsistent h = serve-keeps (All IsConsistent) IsConsistent-Laws h
