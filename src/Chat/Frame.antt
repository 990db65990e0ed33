-- ===== src/Chat/Frame.antt =====
-- What the calls of a chat request leave of its run and of the messages.
use mathlib.Core.Path.{subst}
use ahmed_agent.Base.{
  ℕ, ◌≡◌, refl, sym, ap, ◌∙◌, inl, inr, Bool, true, false, Option, some, String, List, [], ◌∷◌,
  ◌==◌, Bool-cases, if◌then◌else◌,
}
use ahmed_agent.Base.Json.{Json}
use ahmed_agent.Base.Table.{select, update, updated, select-update, select_passes}
use ahmed_agent.Schema.{Db, Run, RunStatus, Message}
use ahmed_agent.Exec.{value_error}
use ahmed_agent.Exec.Ensures.{
  Ensures, NoError, Handled, Ensures-pure, Ensures-raise, Ensures-statements, Ensures-bind,
  Ensures-either, Ensures-ignore,
}
use ahmed_agent.Audit.{Hashing, append_audit_event}
use ahmed_agent.RunState.{RunStage, RunState, transition}
use ahmed_agent.Runs.{by_id, renew_run_lease, update_renewed, renewed, renewable, invalid_claim}
use ahmed_agent.Events.{record_run_checkpoint, insert_checkpoint, at_stage, invalid_stage}
use ahmed_agent.Chat.{
  save_checkpoint, heartbeat, Activity, tool_event, pending_action, beat, act, while_running,
}
use ahmed_agent.Events.Frame.{record_tool_event-keeps}
use ahmed_agent.Actions.Frame.{create_pending_action-keeps}
use ahmed_agent.Chat.Request.{Accepted, RawHistory}

-- The run is stored with such a status, and the messages are such.
abbrev pub HoldsRow : ℕ → (RunStatus → Type 0) → List Run → Type 0
HoldsRow run_id S rs = (r : Run) × (select (by_id run_id) rs ≡ some r) × S r.status

abbrev pub Holds : ℕ → (RunStatus → Type 0) → (List Message → Type 0) → Db → Type 0
Holds run_id S M db = HoldsRow run_id S db.runs × M db.messages

-- An UPDATE that keeps the ids of the rows.
pub update_row :
    (run_id : ℕ) (S S' : RunStatus → Type 0) (test : Run → Bool) (change : Run → Run)
    → ((r : Run) → (change r).run_id ≡ r.run_id)
    → ((r : Run) → by_id run_id r ≡ true → S r.status → S' (if test r then change r else r).status)
    → (rs : List Run) → HoldsRow run_id S rs
    → HoldsRow run_id S' (update test change rs)
update_row run_id S S' test change same keep rs (r, found, s) = (
  if test r then change r else r,
  select-update (by_id run_id) test change (λ x. ap (λ (n : ℕ). n == run_id) (same x)) rs
      ∙ ap (updated test change) found,
  keep r (select_passes (by_id run_id) rs r found) s,
)

module _ (h : Hashing) (worker_id : String) (strip model_name : String → String)
    (parse_message_history : RawHistory → Option (Option (List Json))) (a : Accepted)
    (S : RunStatus → Type 0) (M : List Message → Type 0) where
  abbrev Kept : Db → Type 0
  Kept = Holds a.run_id S M

  kept_status :
      (b : Bool) (r r' : Run) → r'.status ≡ r.status → S r.status → S (if b then r' else r).status
  kept_status true r r' e s = subst S (sym e) s
  kept_status false r r' e s = s

  checkpoint_frame :
      (stage : String) (state : Json)
      → Ensures Handled Kept
          (record_run_checkpoint h a.session_id a.run_id stage state)
          (λ u. Kept)
          Kept
  unfolding record_run_checkpoint insert_checkpoint append_audit_event at_stage
  checkpoint_frame stage state = elim (Bool-cases (invalid_stage stage)) [
    | inl bad ↦ rw bad (Ensures-raise _ _ _ _ value_error tt (λ db p. p))
    | inr good ↦ rw good (
        Ensures-statements _ _ _ _ _ tt (λ db p. p)
          (λ now db (row, m). (
            update_row a.run_id S S (by_id a.run_id) (at_stage stage now) (λ r. refl)
                (λ r is s. kept_status (by_id a.run_id r) r (at_stage stage now r) refl s) db.runs
                row,
            m,
          )))
  ]

  pub save_checkpoint_frame :
      (F : Db → Type 0) (s : RunState) (next_stage : RunStage) (state : Json)
      → Ensures NoError Kept
          (save_checkpoint h worker_id strip model_name parse_message_history a s next_stage state)
          (λ s'. Kept)
          F
  unfolding save_checkpoint
  save_checkpoint_frame F s next_stage state = elim (Bool-cases (transition s next_stage).1) [
    | inr refused ↦ rw refused (Ensures-pure _ _ _ _ _ (λ db p. p))
    | inl entered ↦ rw entered (
        Ensures-bind _ _ (λ u. Kept) _ _ _ _
          (Ensures-either _ _ _ _ Kept _ _ (checkpoint_frame _ state)
            (Ensures-pure _ _ _ _ tt (λ db p. p)))
          (λ u. Ensures-pure _ _ _ _ _ (λ db p. p)))
  ]

  heartbeat_frame :
      (F : Db → Type 0) (beating : Bool)
      → Ensures NoError Kept
          (heartbeat h worker_id strip model_name parse_message_history a beating)
          (λ b. Kept)
          F
  unfolding heartbeat renew_run_lease update_renewed renewed
  heartbeat_frame F false = Ensures-pure _ _ _ _ _ (λ db p. p)
  heartbeat_frame F true =
      Ensures-either _ _ _ _ Kept _ _
        (elim (Bool-cases (invalid_claim worker_id 120)) [
          | inl bad ↦ rw bad (Ensures-raise _ _ _ _ value_error tt (λ db p. p))
          | inr good ↦ rw good (
              Ensures-bind _ _ (λ n. Kept) _ _ _ _
                (Ensures-statements _ _ _ _ _ tt (λ db p. p)
                  (λ now db (row, m). (
                    update_row a.run_id S S (renewable a.run_id worker_id now) (renewed 120 now)
                        (λ r. refl)
                        (λ r is s.
                          kept_status (renewable a.run_id worker_id now r) r (renewed 120 now r)
                            refl s)
                        db.runs row,
                    m,
                  )))
                (λ n. Ensures-pure _ _ _ _ _ (λ db p. p)))
        ])
        (Ensures-pure _ _ _ _ false (λ db p. p))

  act_frame :
      (F : Db → Type 0) (user_id : String) (beating : Bool) (activity : Activity)
      → Ensures NoError Kept
          (act h worker_id strip model_name parse_message_history a user_id beating activity)
          (λ b. Kept)
          F
  unfolding act append_audit_event
  act_frame F user_id beating (tool_event tool_name status duration_ms safe_metadata) =
      Ensures-bind _ _ (λ u. Kept) _ _ _ _
        (Ensures-ignore _ _ _ _ (record_tool_event-keeps Kept (λ db es p. p) _ _ _ _ _))
        (λ u. Ensures-pure _ _ _ _ beating (λ db p. p))
  act_frame F user_id beating (pending_action action_id tool_name risk_level arguments key) =
      Ensures-bind _ _ (λ u. Kept) _ _ _ _
        (Ensures-ignore _ _ _ _
          (create_pending_action-keeps h Kept (λ db rs p. p) (λ e now db p. p) _ _ _ _ _ _ _ _))
        (λ u. Ensures-pure _ _ _ _ beating (λ db p. p))
  act_frame F user_id beating beat = heartbeat_frame F beating

  pub while_running_frame :
      (F : Db → Type 0) (user_id : String) (beating : Bool) (activities : List Activity)
      → Ensures NoError Kept
          (while_running h worker_id strip model_name parse_message_history a user_id beating
            activities)
          (λ u. Kept)
          F
  unfolding while_running
  while_running_frame F user_id beating [] = Ensures-pure _ _ _ _ tt (λ db p. p)
  while_running_frame F user_id beating (activity ∷ rest) =
      Ensures-bind _ _ (λ b. Kept) _ _ _ _ (act_frame F user_id beating activity)
        (λ still. while_running_frame F user_id still rest)
