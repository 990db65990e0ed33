-- ===== src/Resume/Decide.antt =====
-- The recovery route and the resume route agree on which runs may be completed.
use ahmed_agent.Base.{
  ◌≡◌, ◌≢◌, refl, ◌↔◌, ◌⊎◌, inl, inr, Bool, true, ◌&&◌, Option, none, some, arith, Bool-cases,
}
use mathlib.Core.Path.{subst}
use ahmed_agent.Schema.{Run, RunStatus, running, succeeded, failed, other}
use ahmed_agent.RunState.{
  RunStage, RecoveryAction, complete_persisted_tail, retry_new_run, manual_review, noop, of_value,
}
use ahmed_agent.Runs.{is_orphaned}
use ahmed_agent.Leases.Consistent.{IsConsistent}
use ahmed_agent.Resume.{completes, route_action, by_action, by_stage, decide, safe_to_resume}

by_action_completes :
    (r : Run) (stage : RunStage) (a : RecoveryAction)
    → completes a ≡ true
    → by_action r stage a ≡ inr stage
unfolding by_action
by_action_completes r stage complete_persisted_tail e = refl
by_action_completes r stage retry_new_run e = absurd (cc e)
by_action_completes r stage manual_review e = absurd (cc e)
by_action_completes r stage noop e = absurd (cc e)

by_action_only :
    (r : Run) (stage stage' : RunStage) (a : RecoveryAction)
    → by_action r stage a ≡ inr stage'
    → completes a ≡ true
unfolding by_action
by_action_only r stage stage' complete_persisted_tail e = refl
by_action_only r stage stage' retry_new_run e = absurd (cc e)
by_action_only r stage stage' manual_review e = absurd (cc e)
by_action_only r stage stage' noop e = absurd (cc e)

by_stage_completes :
    (r : Run) (o : Option RunStage)
    → completes (route_action o) ≡ true
    → (stage : RunStage) × (by_stage r o ≡ inr stage)
unfolding by_stage route_action
by_stage_completes r none e = absurd (cc e)
by_stage_completes r (some stage) e = (stage, by_action_completes r stage _ e)

by_stage_only :
    (r : Run) (o : Option RunStage) (stage : RunStage)
    → by_stage r o ≡ inr stage
    → completes (route_action o) ≡ true
unfolding by_stage route_action
by_stage_only r none stage e = absurd (cc e)
by_stage_only r (some s) stage e = by_action_only r s stage _ e

decide_safe :
    (r : Run) (s : RunStatus)
    → is_orphaned r.recovery_status ≡ true
    → completes (route_action (of_value r.stage)) ≡ true
    → s ≡ running
    → (stage : RunStage) × (decide r s ≡ inr stage)
unfolding decide
decide_safe r running o c e = rw o (by_stage_completes r (of_value r.stage) c)
decide_safe r succeeded o c e = absurd (cc e)
decide_safe r failed o c e = absurd (cc e)
decide_safe r (other text) o c e = absurd (cc e)

decide_only :
    (r : Run) (stage : RunStage)
    → decide r running ≡ inr stage
    → (is_orphaned r.recovery_status ≡ true) × (completes (route_action (of_value r.stage)) ≡ true)
unfolding decide
decide_only r stage e = elim (Bool-cases (is_orphaned r.recovery_status)) [
  | inl o ↦ (o, by_stage_only r (of_value r.stage) stage (rw o at e))
  | inr o ↦ absurd (cc (rw o at e))
]

running_or_not : (s : RunStatus) → (s ≡ running) ⊎ (s ≢ running)
running_or_not running = inl refl
running_or_not succeeded = inr (λ e. absurd (cc e))
running_or_not failed = inr (λ e. absurd (cc e))
running_or_not (other text) = inr (λ e. absurd (cc e))

orphaned_runs :
    (r : Run) → IsConsistent r → is_orphaned r.recovery_status ≡ true → r.status ≡ running
orphaned_runs r c o = elim (running_or_not r.status) [
  | inl e ↦ e
  | inr e ↦ absurd (cc (rw (c.ended.1 e) at o))
]

both : (a b : Bool) → (a && b) ≡ true → (a ≡ true) × (b ≡ true)
both a b e = ground arith

-- For a consistent row: the recovery route says that it is safe to resume exactly when the run is
-- running and the resume route goes on to claim it in order to complete some stage.
pub safe_to_resume_exact :
    (r : Run)
    → IsConsistent r
    → (safe_to_resume r ≡ true)
      ↔ ((r.status ≡ running) × ((stage : RunStage) × (decide r r.status ≡ inr stage)))
unfolding safe_to_resume
safe_to_resume_exact r c = (
  λ e.
      let (o, tail) = both _ _ e in
      let runs = orphaned_runs r c o in (runs, decide_safe r r.status o tail runs),
  λ (runs, (stage, e)).
      let (o, tail) = decide_only r stage (subst (λ s. decide r s ≡ inr stage) runs e) in
      rw (o, tail) refl,
)
