-- ===== src/Leases/Exclusive.antt =====
-- One worker at a time has a claimed run.
use ahmed_agent.Base.{ℕ, ◌+◌, ◌*◌, ◌<◌, ◌≡◌, ◌≢◌, some, String, List, ◌∷◌, All}
use ahmed_agent.Schema.{Run, second}
use ahmed_agent.Exec.{ok, World}
use ahmed_agent.Audit.{Hashing}
use ahmed_agent.Runs.{claim_orphaned_run}
use ahmed_agent.Leases.{RunCall, claim, serve}
use ahmed_agent.Leases.Protect.{IsForeign, lease_protects}
use ahmed_agent.Leases.Unique.{Once, serve-Once}
use ahmed_agent.Leases.Recover.{claim-Holds, held_not_claimed}

-- After a claim has returned a run to a worker, and then any calls of others that do not finish
-- the run, up to a time before the worker's lease ends: a claim of the run by anybody does not
-- return it, whatever failures of the database there are. The id of the run stands in the table
-- once at the start.
pub claim_exclusive :
    (h : Hashing) (run_id lease_seconds lease_seconds' : ℕ) (worker other : String) (w : World)
    (r r' : Run) (cs : List RunCall)
    → Once run_id w.db.runs
    → (claim_orphaned_run run_id worker lease_seconds w).0 ≡ ok (some r)
    → All (IsForeign run_id worker) cs
    → (serve h cs (claim_orphaned_run run_id worker lease_seconds w).1).clock
      < (claim_orphaned_run run_id worker lease_seconds w).1.clock + lease_seconds * second
    → (claim_orphaned_run run_id other lease_seconds'
        (serve h cs (claim_orphaned_run run_id worker lease_seconds w).1)).0
      ≢ ok (some r')
unfolding serve
claim_exclusive h run_id lease_seconds lease_seconds' worker other w r r' cs once won foreign
      early =
    held_not_claimed run_id other lease_seconds' _ worker _ r'
      (serve-Once run_id h (claim run_id worker lease_seconds ∷ cs) w once)
      (lease_protects run_id worker _ h cs _ foreign early
        (claim-Holds run_id worker lease_seconds w r once won))
