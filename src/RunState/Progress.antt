-- ===== src/RunState/Progress.antt =====
-- How a run moves through its stages.
use ahmed_agent.Base.{
  ℕ, ◌+◌, ◌<◌, ◌≡◌, refl, ◌≢◌, ◌⊎◌, ◌↔◌, true, false, some, String, List, [], ◌∷◌, arith, eq_iff,
}
use ahmed_agent.RunState.{
  RunStage, created, context_loaded, model_running, response_ready, response_persisted, completed,
  failed, complete_persisted_tail, retry_new_run, manual_review, noop, value, of_value,
  recovery_action, RunState, new, transition, transitions,
}

-- The order in which a run meets its stages.
abbrev pub rank : RunStage → ℕ
rank created = 0
rank context_loaded = 1
rank model_running = 2
rank response_ready = 3
rank response_persisted = 4
rank completed = 5
rank failed = 5

abbrev pub IsTerminal : RunStage → Type 0
IsTerminal s = (s ≡ completed) ⊎ (s ≡ failed)

of_value-value_at : (s : RunStage) → of_value (value s) ≡ some s
unfolding of_value value
of_value-value_at created = refl
of_value-value_at _ = refl

value-of_value : (s : RunStage) (text : String) → of_value text ≡ some s → value s ≡ text
unfolding of_value value
value-of_value s text h = ground (
  arith,
  eq_iff text "created",
  eq_iff text "context_loaded",
  eq_iff text "model_running",
  eq_iff text "response_ready",
  eq_iff text "response_persisted",
  eq_iff text "completed",
  eq_iff text "failed",
)

-- `RunStage(stage.value)` is the stage again, and whatever text `RunStage` accepts is the value of
-- the stage that it gives.
of_value-value :
    (s : RunStage) (text : String)
    → (of_value (value s) ≡ some s) × (of_value text ≡ some s → value s ≡ text)
of_value-value s text = (of_value-value_at s, value-of_value s text)

-- A transition is accepted exactly when the run is not terminal and the next stage is `failed` or
-- the next in order; an accepted one enters that stage, a refused one changes nothing.
transition_exact :
    (s : RunState) (next : RunStage)
    → ((transition s next).1 ≡ true
        ↔ (rank s.stage < 5) × ((next ≡ failed) ⊎ (rank next ≡ rank s.stage + 1)))
      × ((transition s next).1 ≡ true → (transition s next).0.stage ≡ next)
      × ((transition s next).1 ≡ false → (transition s next).0 ≡ s)
unfolding transition
transition_exact s next = ground arith

-- The stages that are left for a run at this stage before it is completed.
abbrev pub remaining : RunStage → List RunStage
remaining created =
    context_loaded ∷ model_running ∷ response_ready ∷ response_persisted ∷ completed ∷ []
remaining context_loaded = model_running ∷ response_ready ∷ response_persisted ∷ completed ∷ []
remaining model_running = response_ready ∷ response_persisted ∷ completed ∷ []
remaining response_ready = response_persisted ∷ completed ∷ []
remaining response_persisted = completed ∷ []
remaining _ = []

completed_from :
    (s : RunState) (asked : List RunStage)
    → (transitions s asked).0.stage ≡ completed
    → (s.stage ≢ failed) × ((transitions s asked).1 ≡ remaining s.stage)
unfolding transitions
completed_from s [] h = ground arith
completed_from s (next ∷ rest) h = ground (arith, completed_from (transition s next).0 rest)

-- Whatever stages are asked of a new run, in whatever order, repeated or not: if the run ends as
-- completed, then it has entered each of the five stages after `created` once, in order, and
-- nothing else.
pub completed_entered_all :
    (asked : List RunStage)
    → (transitions new asked).0.stage ≡ completed
    → (transitions new asked).1 ≡ remaining created
completed_entered_all asked h = (completed_from new asked h).1

-- A completed or failed run stays as it is, whatever is asked: no stage is entered.
terminal_absorbs :
    (s : RunState) (asked : List RunStage) → IsTerminal s.stage → transitions s asked ≡ (s, [])
unfolding transitions
terminal_absorbs s [] h = refl
terminal_absorbs s (next ∷ rest) h = ground (arith, terminal_absorbs s rest)

-- Each recovery action belongs to a range of the order: a run before the model call is retried as
-- a new one, a run in the model call needs a person, one with its response is completed, and
-- nothing is done for a terminal one.
recovery_action-rank :
    (s : RunStage)
    → (recovery_action s ≡ retry_new_run ↔ rank s < 2)
      × (recovery_action s ≡ manual_review ↔ rank s ≡ 2)
      × (recovery_action s ≡ complete_persisted_tail ↔ (2 < rank s) × (rank s < 5))
      × (recovery_action s ≡ noop ↔ IsTerminal s)
unfolding recovery_action
recovery_action-rank s = ground arith
