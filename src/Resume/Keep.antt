-- ===== src/Resume/Keep.antt =====
-- What the resume route keeps, on every branch and with any failures of the database.
use ahmed_agent.Base.{ℕ, ◌≡◌, refl, ◌⊎◌, inl, inr, Option, none, some, String, List, All, ap}
use mathlib.Core.Option.{some-injective}
use mathlib.Core.Path.{subst}
use ahmed_agent.Base.Json.{Json}
use ahmed_agent.Schema.{Db, Run, Checkpoint, succeeded}
use ahmed_agent.Exec.{World, transact}
use ahmed_agent.Exec.Preserves.{
  Preserves, Preserves-pure, Preserves-raise, Preserves-transact, Preserves-if, Preserves-bind,
  Preserves-try,
}
use ahmed_agent.Audit.{Hashing, append_audit_event, NewEvent}
use ahmed_agent.Audit.Chain.{IsChained, append-IsChained}
use ahmed_agent.RunState.{RunStage}
use ahmed_agent.Runs.{
  mark_orphaned_runs, load_run_recovery, claim_orphaned_run, release_orphaned_run, finish_run,
  update_orphaned, update_claimed, update_released, update_finished,
}
use ahmed_agent.Events.{record_run_checkpoint, record_recovery_event, insert_checkpoint}
use ahmed_agent.Messages.{run_message_count}
use ahmed_agent.Leases.Invariants.{
  finish-keeps, scan-keeps, claim-keeps, release-keeps, checkpoint-keeps,
}
use ahmed_agent.Leases.Consistent.{RunsAreConsistent, IsConsistent, IsConsistent-Laws}
use ahmed_agent.Resume.{
  Resumed, load_recovery_state, persist_stage, finish_tail, give_back, persist_tail, complete_tail,
  give_up, resume_claimed, resume_decided, resume_loaded, run_resume_route, decide,
}

module _ (h : Hashing) (recovery_worker : String) (P : Db → Type 0) where
  -- What the calls of the route keep, each by itself.
  pub record Kept : Type 0 where
    pub by_scan : Preserves P mark_orphaned_runs
    pub by_claim : (run_id : ℕ) → Preserves P (claim_orphaned_run run_id recovery_worker 120)
    pub by_release : (run_id : ℕ) → Preserves P (release_orphaned_run run_id recovery_worker)
    pub by_finish : (run_id : ℕ) → Preserves P (finish_run run_id succeeded none)
    pub by_checkpoint :
        (session_id run_id : ℕ) (stage : String) (state : Json)
        → Preserves P (record_run_checkpoint h session_id run_id stage state)
    pub by_event :
        (session_id run_id : ℕ) (event_type status : String) (safe_metadata : Json)
        → Preserves P (record_recovery_event h session_id run_id event_type status safe_metadata)

  read_keeps : {A : Type 0} (f : Db → A) → Preserves P (transact λ now db. some (f db, db))
  read_keeps {A} f =
      Preserves-transact P _
        (λ now db a db' p e. subst P (ap (λ (q : A × Db). q.1) (some-injective _ _ e)) p)

  module _ (kept : Kept) where
    load_keeps : (run_id : ℕ) → Preserves P (load_recovery_state run_id)
    unfolding load_recovery_state load_run_recovery
    load_keeps run_id = Preserves-bind _ _ _ kept.by_scan (λ ids. read_keeps _)

    persist_tail_keeps :
        (session_id run_id : ℕ) (stage : RunStage) (n : ℕ)
        → Preserves P (persist_tail h recovery_worker session_id run_id stage n)
    unfolding persist_tail persist_stage finish_tail give_back
    persist_tail_keeps session_id run_id stage n =
        Preserves-if _ _ _ _
          (Preserves-bind _ _ _ (kept.by_release run_id) (λ b. Preserves-pure _ _))
          (Preserves-bind _ _ _
            (Preserves-if _ _ _ _ (kept.by_checkpoint session_id run_id _ _) (Preserves-pure _ _))
            (λ u. Preserves-bind _ _ _ (kept.by_finish run_id) (λ v.
              Preserves-bind _ _ _ (kept.by_checkpoint session_id run_id _ _)
                (λ x. Preserves-pure _ _))))

    pub complete_tail_keeps :
        (session_id run_id : ℕ) (stage : RunStage)
        → Preserves P (complete_tail h recovery_worker session_id run_id stage)
    unfolding complete_tail run_message_count
    complete_tail_keeps session_id run_id stage =
        Preserves-bind _ _ _ (read_keeps _) (λ n. persist_tail_keeps session_id run_id stage n)

    give_up_keeps :
        (session_id run_id : ℕ) → Preserves P (give_up h recovery_worker session_id run_id)
    unfolding give_up
    give_up_keeps session_id run_id =
        Preserves-bind _ _ _ (Preserves-try _ _ _ (kept.by_release run_id) (Preserves-pure _ _))
          (λ u.
            Preserves-bind _ _ _
              (Preserves-try _ _ _ (kept.by_event session_id run_id _ _ _) (Preserves-pure _ _))
              (λ v. Preserves-pure _ _))

    claimed_keeps :
        (run_id : ℕ) (stage : RunStage) (o : Option Run)
        → Preserves P (resume_claimed h recovery_worker run_id stage o)
    unfolding resume_claimed
    claimed_keeps run_id stage none = Preserves-pure _ _
    claimed_keeps run_id stage (some r) =
        Preserves-try _ _ _ (complete_tail_keeps r.session_id run_id stage)
          (give_up_keeps r.session_id run_id)

    decided_keeps :
        (run_id : ℕ) (d : Resumed ⊎ RunStage)
        → Preserves P (resume_decided h recovery_worker run_id d)
    unfolding resume_decided
    decided_keeps run_id (inl answer) = Preserves-pure _ _
    decided_keeps run_id (inr stage) =
        Preserves-bind _ _ _ (kept.by_claim run_id) (λ o. claimed_keeps run_id stage o)

    loaded_keeps :
        (run_id : ℕ) (o : Option (Option Run))
        → Preserves P (resume_loaded h recovery_worker run_id o)
    unfolding resume_loaded
    loaded_keeps run_id none = Preserves-pure _ _
    loaded_keeps run_id (some none) = Preserves-pure _ _
    loaded_keeps run_id (some (some r)) = decided_keeps run_id (decide r r.status)

    pub resume_keeps : (id : Option ℕ) → Preserves P (run_resume_route h recovery_worker id)
    unfolding run_resume_route
    resume_keeps none = Preserves-pure _ _
    resume_keeps (some run_id) =
        Preserves-bind _ _ _
          (Preserves-try _ _ _ (Preserves-bind _ _ _ (load_keeps run_id) (λ r. Preserves-pure _ _))
            (Preserves-pure _ _))
          (λ o. loaded_keeps run_id o)

module _ (h : Hashing) (recovery_worker : String) where
  moved :
      (P : Db → Type 0) {A : Type 0} {a b : A} {db db' : Db}
      → ◌≡◌ {A = Option (A × Db)} (some (a, db)) (some (b, db'))
      → P db
      → P db'
  moved P {A} e p = subst P (ap (λ (q : A × Db). q.1) (some-injective _ _ e)) p

  module _ (P : Db → Type 0)
      (on_runs : (db : Db) (rs : List Run) → P db → P (record db { runs = rs }))
      (on_event : (e : NewEvent) (now : ℕ) (db : Db) → P db → P (append_audit_event h e now db).1)
      (on_checkpoint : (db : Db) (cs : List Checkpoint) (n : ℕ)
        → P db
        → P (record db { checkpoints = cs; checkpoint_seq = n })) where
    -- A property that neither new values of the rows of runs, nor a checkpoint, nor an audit event
    -- can break.
    blind : Kept h recovery_worker P
    unfolding mark_orphaned_runs update_orphaned claim_orphaned_run update_claimed
        release_orphaned_run update_released finish_run update_finished record_run_checkpoint
        insert_checkpoint record_recovery_event
    blind = record {
      by_scan = Preserves-transact _ _ (λ now db a db' p e. moved P e (on_runs db _ p));
      by_claim = λ run_id.
          Preserves-if _ _ _ _ (Preserves-raise _ _)
            (Preserves-transact _ _ (λ now db a db' p e. moved P e (on_runs db _ p)));
      by_release = λ run_id.
          Preserves-bind _ _ _
            (Preserves-transact _ _ (λ now db a db' p e. moved P e (on_runs db _ p)))
            (λ n. Preserves-pure _ _);
      by_finish = λ run_id. Preserves-transact _ _ (λ now db a db' p e. moved P e (on_runs db _ p));
      by_checkpoint = λ session_id run_id stage state. Preserves-if _ _ _ _ (Preserves-raise _ _) (
          Preserves-transact _ _ (λ now db a db' p e.
            moved P e (on_event _ now _ (on_checkpoint _ _ _ (on_runs db _ p)))));
      by_event = λ session_id run_id event_type status safe_metadata.
          Preserves-if _ _ _ _ (Preserves-raise _ _)
            (Preserves-transact _ _ (λ now db a db' p e. moved P e (on_event _ now db p)));
    }

  -- The audit log stays a chain when the resume route runs, whatever it answers.
  resume-IsChained :
      (id : Option ℕ) (w : World)
      → IsChained h w.db.audit
      → IsChained h (run_resume_route h recovery_worker id w).1.db.audit
  resume-IsChained id =
      (resume_keeps h recovery_worker (λ db. IsChained h db.audit)
        (blind (λ db. IsChained h db.audit) (λ db rs p. p)
          (λ e now db p. append-IsChained h e now db p) (λ db cs n p. p))
        id).after

  -- The resume route leaves the tables of messages, sessions, tool events and pending actions as they
  -- are, whatever it answers and whatever fails.
  pub resume_reruns_nothing :
      (id : Option ℕ) (w : World)
      → let db = (run_resume_route h recovery_worker id w).1.db in
        (db.messages ≡ w.db.messages)
        × (db.sessions ≡ w.db.sessions)
        × (db.tool_events ≡ w.db.tool_events)
        × (db.actions ≡ w.db.actions)
  unfolding append_audit_event
  resume_reruns_nothing id w =
      (resume_keeps h recovery_worker _
          (blind
            (λ db.
              (db.messages ≡ w.db.messages)
              × (db.sessions ≡ w.db.sessions)
              × (db.tool_events ≡ w.db.tool_events)
              × (db.actions ≡ w.db.actions))
            (λ db rs p. p) (λ e now db p. p) (λ db cs n p. p))
          id).after
        w (refl, refl, refl, refl)

  -- Every run stays consistent when the resume route runs, whatever it answers.
  resume-RunsAreConsistent :
      (id : Option ℕ) (w : World)
      → RunsAreConsistent w.db
      → RunsAreConsistent (run_resume_route h recovery_worker id w).1.db
  unfolding record_recovery_event append_audit_event
  resume-RunsAreConsistent id =
      (resume_keeps h recovery_worker RunsAreConsistent
        (record {
          by_scan = scan-keeps (All IsConsistent) IsConsistent-Laws;
          by_claim =
              λ run_id. claim-keeps (All IsConsistent) IsConsistent-Laws run_id recovery_worker 120;
          by_release =
              λ run_id. release-keeps (All IsConsistent) IsConsistent-Laws run_id recovery_worker;
          by_finish =
              λ run_id. finish-keeps (All IsConsistent) IsConsistent-Laws run_id succeeded none;
          by_checkpoint = checkpoint-keeps (All IsConsistent) IsConsistent-Laws h;
          by_event = λ session_id run_id event_type status safe_metadata.
              Preserves-if _ _ _ _ (Preserves-raise _ _)
                (Preserves-transact _ _ (λ now db a db' p e. moved RunsAreConsistent e p));
        })
        id).after
