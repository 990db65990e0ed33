-- ===== src/Leases.antt =====
-- Calls on runs and their leases, by the chat workers, the recovery route and the startup scan,
-- in any order: persistence_runs.py and the checkpoints of persistence_events.py together.
pub mod Invariants
pub mod Consistent
pub mod Unique
pub mod Exclusive
pub mod Protect
pub mod Recover
mod Examples
use ahmed_agent.Base.{ℕ, Option, String, List, [], ◌∷◌}
use ahmed_agent.Base.Json.{Json}
use ahmed_agent.Schema.{RunStatus}
use ahmed_agent.Exec.{World}
use ahmed_agent.Audit.{Hashing}
use ahmed_agent.Runs.{
  create_run, finish_run, renew_run_lease, mark_orphaned_runs, claim_orphaned_run,
  release_orphaned_run,
}
use ahmed_agent.Events.{record_run_checkpoint}

pub data RunCall : Type 0 where
  create : ℕ → ℕ → String → String → String → Option String → ℕ → RunCall
  finish : ℕ → RunStatus → Option String → RunCall
  renew : ℕ → String → ℕ → RunCall
  scan : RunCall
  claim : ℕ → String → ℕ → RunCall
  release : ℕ → String → RunCall
  checkpoint : ℕ → ℕ → String → Json → RunCall

module _ (h : Hashing) where
  -- The world after a call, whether it returned or raised.
  unfoldable pub after : RunCall → World → World
  after (create run_id session_id user_prompt provider_name model_name worker_id lease_seconds) w =
      (create_run run_id session_id user_prompt provider_name model_name worker_id lease_seconds
        w).1
  after (finish run_id status error_code) w = (finish_run run_id status error_code w).1
  after (renew run_id worker lease_seconds) w = (renew_run_lease run_id worker lease_seconds w).1
  after scan w = (mark_orphaned_runs w).1
  after (claim run_id worker lease_seconds) w = (claim_orphaned_run run_id worker lease_seconds w).1
  after (release run_id worker) w = (release_orphaned_run run_id worker w).1
  after (checkpoint session_id run_id stage state) w =
      (record_run_checkpoint h session_id run_id stage state w).1

  unfoldable pub serve : List RunCall → World → World
  unfolding after
  serve [] w = w
  serve (c ∷ cs) w = serve cs (after c w)
