-- ===== src/Leases/Unique.antt =====
-- The primary key: the id of a run stands in the table at most once.
use ahmed_agent.Base.{ℕ, ◌≡◌, refl, Bool, none, List, [], ◌∷◌, arith}
use ahmed_agent.Base.Table.{select, update, select-update}
use ahmed_agent.Schema.{Run}
use ahmed_agent.Exec.{World}
use ahmed_agent.Audit.{Hashing}
use ahmed_agent.Runs.{
  by_id, new_run, finished, renewable, renewed, lost, mark_orphaned, claimable, claimed, releasable,
  released,
}
use ahmed_agent.Events.{at_stage}
use ahmed_agent.Leases.{RunCall, serve}
use ahmed_agent.Leases.Invariants.{Laws, serve-keeps}

abbrev pub Once : ℕ → List Run → Type 0
Once run_id [] = Unit
Once run_id (r ∷ rs) = (r.run_id ≡ run_id → select (by_id run_id) rs ≡ none) × Once run_id rs

module _ (id : ℕ) where
  pub Once-update :
      (test : Run → Bool) (change : Run → Run)
      → ((r : Run) → (change r).run_id ≡ r.run_id)
      → (rs : List Run) → Once id rs
      → Once id (update test change rs)
  Once-update test change same [] h = tt
  Once-update test change same (r ∷ rs) (first, rest) = (
    λ here.
        rw (select-update (by_id id) test change (λ x. rw (same x)) rs)
          (ground (arith, first, same r)),
    Once-update test change same rs rest,
  )

  Once-create :
      (r : Run) (rs : List Run) → select (by_id r.run_id) rs ≡ none → Once id rs → Once id (r ∷ rs)
  Once-create r rs fresh h = (λ here. rw here at fresh, h)

  Once-Laws : Laws (Once id)
  unfolding new_run finished renewed mark_orphaned claimed released at_stage
  Once-Laws = record {
    on_create = λ run_id session_id prompt provider model worker seconds now rs fresh.
        Once-create (new_run run_id session_id prompt provider model worker seconds now) rs fresh;
    on_finish = λ run_id status code now rs valid.
        Once-update (by_id run_id) (finished status code now) (λ r. refl) rs;
    on_renew = λ run_id w s now. Once-update (renewable run_id w now) (renewed s now) (λ r. refl);
    on_scan = λ now. Once-update (lost now) mark_orphaned (λ r. refl);
    on_claim = λ run_id w s now. Once-update (claimable run_id now) (claimed w s now) (λ r. refl);
    on_release = λ run_id w. Once-update (releasable run_id w) released (λ r. refl);
    on_checkpoint = λ run_id stage now. Once-update (by_id run_id) (at_stage stage now) (λ r. refl);
  }

  -- An id that stands at most once in the table of runs stands there at most once after any calls,
  -- in any order and with any failures of the database.
  pub serve-Once :
      (h : Hashing) (cs : List RunCall) (w : World)
      → Once id w.db.runs
      → Once id (serve h cs w).db.runs
  serve-Once h = serve-keeps (Once id) Once-Laws h
