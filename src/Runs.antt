-- ===== src/Runs.antt =====
-- persistence_runs.py: runs and their leases. A row-level function is the `SET` part of an UPDATE,
-- a test is its `WHERE` part.
use ahmed_agent.Base.{
  ℕ, ◌+◌, ◌*◌, ◌%◌, Bool, true, false, ◌&&◌, ◌||◌, not, Option, none, some, String, List, ◌∷◌, map,
  ltb, leb, ◌==◌, str_eq, is_some, if◌then◌else◌,
}
use ahmed_agent.Base.Table.{select, select_all, update, count}
use ahmed_agent.Schema.{
  Run, RunStatus, RecoveryStatus, running, succeeded, failed, active, orphaned, resolved, second,
}
use ahmed_agent.Exec.{Exec, Transaction, value_error, raise, pure, transact, ◌>>=◌}

abbrev pub by_id : ℕ → Run → Bool
by_id id r = r.run_id == id

abbrev pub is_running : RunStatus → Bool
is_running running = true
is_running _ = false

abbrev pub is_orphaned : RecoveryStatus → Bool
is_orphaned orphaned = true
is_orphaned _ = false

abbrev pub is_active : RecoveryStatus → Bool
is_active active = true
is_active _ = false

-- `worker_id = $2`, `lease_expires_at > NOW()`, `lease_expires_at <= NOW()`: false for NULL.
abbrev pub held_by : String → Option String → Bool
held_by w none = false
held_by w (some v) = str_eq v w

abbrev pub live : ℕ → Option ℕ → Bool
live now none = false
live now (some t) = ltb now t

abbrev pub lapsed : ℕ → Option ℕ → Bool
lapsed now none = false
lapsed now (some t) = leb t now

-- `lease_seconds < 30 or lease_seconds > 900`; a negative argument is refused like 0.
abbrev pub invalid_lease : ℕ → Bool
invalid_lease lease_seconds = ltb lease_seconds 30 || ltb 900 lease_seconds

abbrev pub lease_end : ℕ → ℕ → Option ℕ
lease_end now lease_seconds = some (now + lease_seconds * second)

-- `updated.endswith("1")` of the command tag `UPDATE n`.
abbrev pub ends_with_one : ℕ → Bool
ends_with_one n = n % 10 == 1

unfoldable pub new_run : ℕ → ℕ → String → String → String → Option String → ℕ → ℕ → Run
new_run run_id session_id user_prompt provider_name model_name worker_id lease_seconds now =
    record {
      run_id = run_id;
      session_id = session_id;
      status = running;
      user_prompt = user_prompt;
      provider_name = provider_name;
      model_name = model_name;
      error_code = none;
      created_at = now;
      finished_at = none;
      stage = "created";
      worker_id = worker_id;
      lease_expires_at = lease_end now lease_seconds;
      lease_version = 1;
      attempt_count = 1;
      last_checkpoint_at = none;
      recovery_status = active;
    }

-- The primary key refuses a run that is there already.
unfoldable pub insert_run : Run → Transaction (Unit {0})
insert_run r now db =
    if is_some (select (by_id r.run_id) db.runs)
    then none
    else some (tt, record db { runs = r ∷ db.runs })

unfoldable pub create_run : ℕ → ℕ → String → String → String → Option String → ℕ → Exec (Unit {0})
unfolding new_run insert_run
create_run run_id session_id user_prompt provider_name model_name worker_id lease_seconds =
    if invalid_lease lease_seconds
    then raise value_error
    else transact λ now.
      insert_run
        (new_run run_id session_id user_prompt provider_name model_name worker_id lease_seconds now)
        now

unfoldable pub finished : RunStatus → Option String → ℕ → Run → Run
finished status error_code now r = record r {
  status = status;
  error_code = error_code;
  finished_at = some now;
  worker_id = none;
  lease_expires_at = none;
  recovery_status = resolved;
}

unfoldable pub update_finished : ℕ → RunStatus → Option String → Transaction (Unit {0})
unfolding finished
update_finished run_id status error_code now db =
    some (tt, record db { runs = update (by_id run_id) (finished status error_code now) db.runs })

-- `status not in {"succeeded", "failed"}`
abbrev pub invalid_status : RunStatus → Bool
invalid_status succeeded = false
invalid_status failed = false
invalid_status _ = true

unfoldable pub finish_run : ℕ → RunStatus → Option String → Exec (Unit {0})
unfolding update_finished
finish_run run_id status error_code =
    if invalid_status status
    then raise value_error
    else transact (update_finished run_id status error_code)

unfoldable pub renewable : ℕ → String → ℕ → Run → Bool
renewable run_id worker now r =
    by_id run_id r
    && is_running r.status
    && held_by worker r.worker_id
    && live now r.lease_expires_at

unfoldable pub renewed : ℕ → ℕ → Run → Run
renewed lease_seconds now r = record r {
  lease_expires_at = lease_end now lease_seconds;
  lease_version = r.lease_version + 1;
}

unfoldable pub update_renewed : ℕ → String → ℕ → Transaction ℕ
unfolding renewable renewed
update_renewed run_id worker lease_seconds now db = some (
  count (renewable run_id worker now) db.runs,
  record db { runs = update (renewable run_id worker now) (renewed lease_seconds now) db.runs },
)

-- `not worker_id or lease_seconds < 30 or lease_seconds > 900`
abbrev pub invalid_claim : String → ℕ → Bool
invalid_claim worker lease_seconds = str_eq worker "" || invalid_lease lease_seconds

unfoldable pub renew_run_lease : ℕ → String → ℕ → Exec Bool
unfolding update_renewed
renew_run_lease run_id worker lease_seconds =
    if invalid_claim worker lease_seconds then raise value_error else (do
      updated ← transact (update_renewed run_id worker lease_seconds)
      pure (ends_with_one updated))

unfoldable pub lost : ℕ → Run → Bool
lost now r = is_running r.status && is_active r.recovery_status && lapsed now r.lease_expires_at

unfoldable pub mark_orphaned : Run → Run
mark_orphaned r = record r {
  recovery_status = orphaned;
  error_code = some "WORKER_LOST";
  worker_id = none;
  lease_expires_at = none;
  finished_at = none;
}

unfoldable pub update_orphaned : Transaction (List ℕ)
unfolding lost mark_orphaned
update_orphaned now db = some (
  map (λ (r : Run). r.run_id) (select_all (lost now) db.runs),
  record db { runs = update (lost now) mark_orphaned db.runs },
)

unfoldable pub mark_orphaned_runs : Exec (List ℕ)
unfolding update_orphaned
mark_orphaned_runs = transact update_orphaned

-- The columns that `load_run_recovery` returns are fields of the row.
unfoldable pub load_run_recovery : ℕ → Exec (Option Run)
load_run_recovery run_id = transact λ now db. some (select (by_id run_id) db.runs, db)

unfoldable pub claimable : ℕ → ℕ → Run → Bool
claimable run_id now r =
    by_id run_id r
    && is_running r.status
    && is_orphaned r.recovery_status
    && (not (is_some r.lease_expires_at) || lapsed now r.lease_expires_at)

unfoldable pub claimed : String → ℕ → ℕ → Run → Run
claimed worker lease_seconds now r = record r {
  status = running;
  recovery_status = active;
  worker_id = some worker;
  lease_expires_at = lease_end now lease_seconds;
  lease_version = r.lease_version + 1;
  attempt_count = r.attempt_count + 1;
}

-- The row that `RETURNING` hands back is the one after the update.
abbrev pub updated_row : (Run → Run) → Option Run → Option Run
updated_row change none = none
updated_row change (some r) = some (change r)

unfoldable pub update_claimed : ℕ → String → ℕ → Transaction (Option Run)
unfolding claimable claimed
update_claimed run_id worker lease_seconds now db = some (
  updated_row (claimed worker lease_seconds now) (select (claimable run_id now) db.runs),
  record db { runs = update (claimable run_id now) (claimed worker lease_seconds now) db.runs },
)

unfoldable pub claim_orphaned_run : ℕ → String → ℕ → Exec (Option Run)
unfolding update_claimed
claim_orphaned_run run_id worker lease_seconds =
    if invalid_claim worker lease_seconds
    then raise value_error
    else transact (update_claimed run_id worker lease_seconds)

unfoldable pub releasable : ℕ → String → Run → Bool
releasable run_id worker r = by_id run_id r && is_running r.status && held_by worker r.worker_id

unfoldable pub released : Run → Run
released r = record r {
  status = running;
  recovery_status = orphaned;
  error_code = some "RECOVERY_REQUIRES_NEW_RUN";
  worker_id = none;
  lease_expires_at = none;
}

unfoldable pub update_released : ℕ → String → Transaction ℕ
unfolding releasable released
update_released run_id worker now db = some (
  count (releasable run_id worker) db.runs,
  record db { runs = update (releasable run_id worker) released db.runs },
)

unfoldable pub release_orphaned_run : ℕ → String → Exec Bool
unfolding update_released
release_orphaned_run run_id worker = do
  updated ← transact (update_released run_id worker)
  pure (ends_with_one updated)
