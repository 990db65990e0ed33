-- ===== src/Leases/Invariants.antt =====
-- Invariants of the table of runs: a property that each statement on the table keeps is kept by
-- every call, whatever the order and the failures.
use mathlib.Core.Option.{some-injective}
use mathlib.Core.Path.{subst}
use ahmed_agent.Base.{
  ℕ, ◌≡◌, refl, ap, false, Option, none, some, String, List, [], ◌∷◌, Option-cases, inl, inr,
}
use ahmed_agent.Base.Json.{Json}
use ahmed_agent.Base.Table.{select, update}
use ahmed_agent.Schema.{Db, Run, RunStatus, running, succeeded, failed, other}
use ahmed_agent.Exec.{World, transact}
use ahmed_agent.Exec.Preserves.{
  Preserves, Preserves-if, Preserves-raise, Preserves-transact, Preserves-bind, Preserves-pure,
}
use ahmed_agent.Audit.{Hashing, append_audit_event}
use ahmed_agent.Runs.{
  by_id, new_run, insert_run, create_run, finished, update_finished, finish_run, renewable, renewed,
  renew_run_lease, lost, mark_orphaned, mark_orphaned_runs, claimable, claimed, claim_orphaned_run,
  releasable, released, release_orphaned_run, invalid_status,
}
use ahmed_agent.Events.{at_stage, record_run_checkpoint}
use ahmed_agent.Leases.{
  RunCall, create, finish, renew, scan, claim, release, checkpoint, after, serve,
}

-- What each statement has to keep.
pub record Laws (P : List Run → Type 0) : Type 0 where
  pub on_create :
      (run_id session_id : ℕ) (user_prompt provider_name model_name : String)
      (worker_id : Option String) (lease_seconds now : ℕ) (rs : List Run)
      → select (by_id run_id) rs ≡ none
      → P rs
      → P (
          new_run run_id session_id user_prompt provider_name model_name worker_id lease_seconds now
          ∷ rs)
  pub on_finish :
      (run_id : ℕ) (status : RunStatus) (error_code : Option String) (now : ℕ) (rs : List Run)
      → invalid_status status ≡ false
      → P rs
      → P (update (by_id run_id) (finished status error_code now) rs)
  pub on_renew :
      (run_id : ℕ) (worker : String) (lease_seconds now : ℕ) (rs : List Run)
      → P rs
      → P (update (renewable run_id worker now) (renewed lease_seconds now) rs)
  pub on_scan : (now : ℕ) (rs : List Run) → P rs → P (update (lost now) mark_orphaned rs)
  pub on_claim :
      (run_id : ℕ) (worker : String) (lease_seconds now : ℕ) (rs : List Run)
      → P rs
      → P (update (claimable run_id now) (claimed worker lease_seconds now) rs)
  pub on_release :
      (run_id : ℕ) (worker : String) (rs : List Run)
      → P rs
      → P (update (releasable run_id worker) released rs)
  pub on_checkpoint :
      (run_id : ℕ) (stage : String) (now : ℕ) (rs : List Run)
      → P rs
      → P (update (by_id run_id) (at_stage stage now) rs)

module _ (P : List Run → Type 0) (laws : Laws P) where
  abbrev OnRuns : Db → Type 0
  OnRuns db = P db.runs

  moved :
      {A : Type 0} {a b : A} {db db' : Db}
      → ◌≡◌ {A = Option (A × Db)} (some (a, db)) (some (b, db'))
      → P db.runs
      → P db'.runs
  moved {A} e h = subst P (ap (λ (p : A × Db). p.1.runs) (some-injective _ _ e)) h

  created :
      (run_id session_id : ℕ) (user_prompt provider_name model_name : String)
      (worker_id : Option String) (lease_seconds now : ℕ) (db : Db) (a : Unit {0}) (db' : Db)
      → P db.runs
      → insert_run
          (new_run run_id session_id user_prompt provider_name model_name worker_id lease_seconds
            now)
          now
          db
        ≡ some (a, db')
      → P db'.runs
  unfolding insert_run new_run
  created run_id session_id user_prompt provider_name model_name worker_id lease_seconds now db a
        db' h e =
      elim (Option-cases (select (by_id run_id) db.runs)) [
        | inr (r, old) ↦ absurd (cc (rw old at e))
        | inl fresh ↦ moved (rw fresh at e) (
            laws.on_create run_id session_id user_prompt provider_name model_name worker_id
              lease_seconds now db.runs fresh h)
      ]

  pub create-keeps :
      (run_id session_id : ℕ) (user_prompt provider_name model_name : String)
      (worker_id : Option String) (lease_seconds : ℕ)
      → Preserves OnRuns (
          create_run run_id session_id user_prompt provider_name model_name worker_id lease_seconds)
  unfolding create_run
  create-keeps run_id session_id user_prompt provider_name model_name worker_id lease_seconds =
      Preserves-if _ _ _ _ (Preserves-raise _ _) (
        Preserves-transact _ _
          (created run_id session_id user_prompt provider_name model_name worker_id lease_seconds))

  finish_valid :
      (run_id : ℕ) (status : RunStatus) (error_code : Option String)
      → invalid_status status ≡ false
      → Preserves OnRuns (transact (update_finished run_id status error_code))
  unfolding update_finished
  finish_valid run_id status error_code valid =
      Preserves-transact _ _
        (λ now db a db' h e. moved e (laws.on_finish run_id status error_code now db.runs valid h))

  pub finish-keeps :
      (run_id : ℕ) (status : RunStatus) (error_code : Option String)
      → Preserves OnRuns (finish_run run_id status error_code)
  unfolding finish_run
  finish-keeps run_id succeeded error_code = finish_valid run_id succeeded error_code refl
  finish-keeps run_id failed error_code = finish_valid run_id failed error_code refl
  finish-keeps run_id running error_code = Preserves-raise _ _
  finish-keeps run_id (other text) error_code = Preserves-raise _ _

  pub renew-keeps :
      (run_id : ℕ) (worker : String) (lease_seconds : ℕ)
      → Preserves OnRuns (renew_run_lease run_id worker lease_seconds)
  unfolding renew_run_lease
  renew-keeps run_id worker lease_seconds = Preserves-if _ _ _ _ (Preserves-raise _ _) (
      Preserves-bind _ _ _
        (Preserves-transact _ _
          (λ now db a db' h e. moved e (laws.on_renew run_id worker lease_seconds now db.runs h)))
        (λ updated. Preserves-pure _ _))

  pub scan-keeps : Preserves OnRuns mark_orphaned_runs
  unfolding mark_orphaned_runs
  scan-keeps = Preserves-transact _ _ (λ now db a db' h e. moved e (laws.on_scan now db.runs h))

  pub claim-keeps :
      (run_id : ℕ) (worker : String) (lease_seconds : ℕ)
      → Preserves OnRuns (claim_orphaned_run run_id worker lease_seconds)
  unfolding claim_orphaned_run
  claim-keeps run_id worker lease_seconds = Preserves-if _ _ _ _ (Preserves-raise _ _) (
      Preserves-transact _ _
        (λ now db a db' h e. moved e (laws.on_claim run_id worker lease_seconds now db.runs h)))

  pub release-keeps :
      (run_id : ℕ) (worker : String) → Preserves OnRuns (release_orphaned_run run_id worker)
  unfolding release_orphaned_run
  release-keeps run_id worker =
      Preserves-bind _ _ _
        (Preserves-transact _ _
          (λ now db a db' h e. moved e (laws.on_release run_id worker db.runs h)))
        (λ updated. Preserves-pure _ _)

  module _ (h : Hashing) where
    pub checkpoint-keeps :
        (session_id run_id : ℕ) (stage : String) (state : Json)
        → Preserves OnRuns (record_run_checkpoint h session_id run_id stage state)
    unfolding record_run_checkpoint append_audit_event
    checkpoint-keeps session_id run_id stage state = Preserves-if _ _ _ _ (Preserves-raise _ _) (
        Preserves-transact _ _
          (λ now db a db' c e. moved e (laws.on_checkpoint run_id stage now db.runs c)))

    pub after-keeps : (c : RunCall) (w : World) → P w.db.runs → P (after h c w).db.runs
    unfolding after
    after-keeps
          (create run_id session_id user_prompt provider_name model_name worker_id lease_seconds)
          w =
        (create-keeps run_id session_id user_prompt provider_name model_name worker_id
            lease_seconds).after
          w
    after-keeps (finish run_id status error_code) w =
        (finish-keeps run_id status error_code).after w
    after-keeps (renew run_id worker lease_seconds) w =
        (renew-keeps run_id worker lease_seconds).after w
    after-keeps scan w = scan-keeps.after w
    after-keeps (claim run_id worker lease_seconds) w =
        (claim-keeps run_id worker lease_seconds).after w
    after-keeps (release run_id worker) w = (release-keeps run_id worker).after w
    after-keeps (checkpoint session_id run_id stage state) w =
        (checkpoint-keeps session_id run_id stage state).after w

    pub serve-keeps : (cs : List RunCall) (w : World) → P w.db.runs → P (serve h cs w).db.runs
    unfolding serve
    serve-keeps [] w p = p
    serve-keeps (c ∷ cs) w p = serve-keeps cs (after h c w) (after-keeps c w p)
