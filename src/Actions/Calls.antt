-- ===== src/Actions/Calls.antt =====
-- Sequences of calls on pending actions, by any clients, with any outcomes of the database.
use ahmed_agent.Base.{ℕ, Option, String, List, [], ◌∷◌}
use ahmed_agent.Base.Json.{Json}
use ahmed_agent.Exec.{World}
use ahmed_agent.Audit.{Hashing}
use ahmed_agent.Actions.{
  create_pending_action, approve_pending_action, claim_pending_action_execution,
  complete_pending_action, reject_pending_action,
}

pub data ActionCall : Type 0 where
  create : ℕ → ℕ → ℕ → String → String → String → Json → Option String → ActionCall
  approve : ℕ → String → ActionCall
  claim : ℕ → String → ActionCall
  complete : ℕ → String → ActionCall
  reject : ℕ → String → ActionCall

module _ (h : Hashing) where
  -- The world after a call, whether it returned or raised.
  unfoldable pub after : ActionCall → World → World
  after (create action_id session_id run_id user_id tool_name risk_level arguments key) w =
      (create_pending_action h action_id session_id run_id user_id tool_name risk_level arguments
        key w).1
  after (approve action_id user_id) w = (approve_pending_action h action_id user_id w).1
  after (claim action_id user_id) w = (claim_pending_action_execution h action_id user_id w).1
  after (complete action_id user_id) w = (complete_pending_action h action_id user_id w).1
  after (reject action_id user_id) w = (reject_pending_action h action_id user_id w).1

  unfoldable pub serve : List ActionCall → World → World
  unfolding after
  serve [] w = w
  serve (c ∷ cs) w = serve cs (after c w)
