-- ===== src/Leases/Examples.antt =====
-- Leases at concrete inputs: a run of worker "w1" whose lease ends after 50 seconds.
use mathlib.Core.Bool.{false≢true}
use ahmed_agent.Base.{◌+◌, ◌*◌, ◌≡◌, ◌≢◌, refl, none, some, List, [], ◌∷◌, inr, arith, eq_iff}
use ahmed_agent.Base.Json.{obj, end}
use ahmed_agent.Schema.{Db, Run, running, succeeded, active, orphaned, empty, second}
use ahmed_agent.Exec.{World, ok}
use ahmed_agent.Audit.{Hashing}
use ahmed_agent.Runs.{mark_orphaned_runs, claim_orphaned_run, release_orphaned_run}
use ahmed_agent.Events.{record_run_checkpoint}
use ahmed_agent.Leases.{RunCall, finish, scan, claim, release, checkpoint, serve}
use ahmed_agent.Leases.Consistent.{RunsAreConsistent, serve-RunsAreConsistent}
use ahmed_agent.Leases.Protect.{IsHeld, Holds, lease_protects}
use ahmed_agent.Leases.Recover.{calm, lost_run_claimed}
use ahmed_agent.Leases.Exclusive.{claim_exclusive}

abbrev plain : Hashing
plain = record { sha256 = λ s. s; canonical_json = λ p. p.event_type }

abbrev run : Run
run = record {
  run_id = 7;
  session_id = 2;
  status = running;
  user_prompt = "hello";
  provider_name = "gemini";
  model_name = "m";
  error_code = none;
  created_at = 0;
  finished_at = none;
  stage = "response_ready";
  worker_id = some "w1";
  lease_expires_at = some (50 * second);
  lease_version = 1;
  attempt_count = 1;
  last_checkpoint_at = none;
  recovery_status = active;
}

abbrev lost_run : Run
lost_run = record run { worker_id = none; lease_expires_at = none; recovery_status = orphaned }

abbrev held : Db
held = record empty { runs = run ∷ [] }

abbrev open_db : Db
open_db = record empty { runs = lost_run ∷ [] }

abbrev early : World
early = calm held (10 * second)

-- The startup scan, a claim of another worker, a failing transaction, and a checkpoint.
abbrev others : List RunCall
others = scan ∷ claim 7 "w2" 60 ∷ release 7 "w2" ∷ checkpoint 2 7 "completed" (obj end) ∷ []

serve-RunsAreConsistent_example :
    RunsAreConsistent (serve plain (finish 7 succeeded none ∷ others) early).db
serve-RunsAreConsistent_example =
    serve-RunsAreConsistent plain (finish 7 succeeded none ∷ others) early (ground arith)

Holds-early : Holds 7 "w1" (50 * second) held
Holds-early = (
  run,
  refl,
  record { same_run = refl; still_running = refl; still_active = refl; held = refl; until = refl },
)

lease_protects_example : Holds 7 "w1" (50 * second) (serve plain others early).db
unfolding serve mark_orphaned_runs claim_orphaned_run release_orphaned_run record_run_checkpoint
lease_protects_example =
    lease_protects 7 "w1" (50 * second) plain others early
      (tt, (tt, (inr (λ e. false≢true ((eq_iff "w2" "w1").1 e)), (tt, tt)))) (omega arith)
      Holds-early

abbrev taken : World
taken = (claim_orphaned_run 7 "w2" 60 (calm open_db 0)).1

abbrev taken_run : Run
taken_run = record lost_run {
  worker_id = some "w2";
  lease_expires_at = some (60 * second);
  lease_version = 2;
  attempt_count = 2;
  recovery_status = active;
}

claim_exclusive_example :
    (claim_orphaned_run 7 "w3" 60 (serve plain (scan ∷ []) taken)).0 ≢ ok (some taken_run)
unfolding serve mark_orphaned_runs claim_orphaned_run
claim_exclusive_example =
    claim_exclusive plain 7 60 60 "w2" "w3" (calm open_db 0) taken_run taken_run (scan ∷ [])
      (λ e. refl, tt) refl (tt, tt) (omega arith)

lost_run_claimed_example :
    (r' : Run) × ((claim_orphaned_run 7 "w2" 60 (mark_orphaned_runs (calm held (60 * second))).1).0
      ≡ ok (some r'))
    × IsHeld 7 "w2" (60 * second + 60 * second) r'
    × (r'.attempt_count ≡ run.attempt_count + 1)
unfolding claim_orphaned_run mark_orphaned_runs
lost_run_claimed_example =
    lost_run_claimed 7 "w2" 60 held (60 * second) run (λ e. refl, tt) refl refl
      (λ e. false≢true ((eq_iff "w2" "").1 e)) (omega arith) (omega arith)
