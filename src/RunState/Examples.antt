-- ===== src/RunState/Examples.antt =====
-- Runs of run_state.py at concrete inputs.
use ahmed_agent.Base.{◌≡◌, refl, List, [], ◌∷◌}
use ahmed_agent.RunState.{
  RunStage, created, context_loaded, model_running, response_ready, response_persisted, completed,
  failed, new, transitions,
}
use ahmed_agent.RunState.Progress.{remaining, completed_entered_all}

-- A caller that repeats a stage and asks for one too early.
abbrev asked : List RunStage
asked =
    context_loaded ∷ context_loaded ∷ response_ready ∷ model_running ∷ response_ready
    ∷ response_persisted ∷ completed ∷ failed ∷ []

completed_entered_all_example : (transitions new asked).1 ≡ remaining created
unfolding transitions
completed_entered_all_example = completed_entered_all asked refl
