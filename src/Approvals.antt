-- ===== src/Approvals.antt =====
-- server.py: the routes that approve and reject a pending action, from the parsed id on; who may
-- call them is decided before (Auth), and `user_id` is the user that was let in.
pub mod Tell
pub mod Refuse
mod Examples
use ahmed_agent.Base.{ℕ, Bool, true, false, not, Option, none, some, String, str_eq, if◌then◌else◌}
use ahmed_agent.Schema.{PendingAction, ActionStatus, expired, rejected, executed}
use ahmed_agent.Auth.{Request, Store, Guarded, with_owner}
use ahmed_agent.Exec.{World, Exec, pure, try_except, ◌>>=◌}
use ahmed_agent.Audit.{Hashing}
use ahmed_agent.Actions.{
  Reply, Answer, not_found, forbidden, action, approve_pending_action,
  claim_pending_action_execution, complete_pending_action, reject_pending_action,
}

-- What `_execute_approved_action` returns: a status with the flag `executed`, and whether
-- `side_effect` is there.
pub data Execution : Type 0 where
  unsupported_action : Execution
  ran : Reply → Bool → Bool → Execution

-- The answers of the two routes.
pub data Routed : Type 0 where
  invalid_id unknown_action not_yours unavailable unsupported : Routed
  closed : ActionStatus → Routed
  approved_action : Reply → Bool → Bool → Routed
  rejected_action : Reply → Routed

unfoldable pub http_status : Routed → ℕ
http_status invalid_id = 400
http_status unknown_action = 404
http_status not_yours = 403
http_status unavailable = 503
http_status unsupported = 422
http_status (closed s) = 409
http_status (approved_action s done side_effect) = 200
http_status (rejected_action s) = 200

-- `status in {"not_found", "forbidden"}`
abbrev pub is_refused : Reply → Bool
is_refused not_found = true
is_refused forbidden = true
is_refused (action s) = false

-- `status == "executed"`
abbrev pub is_executed : Reply → Bool
is_executed (action executed) = true
is_executed _ = false

-- `claim.get("tool_name") == "test_sensitive_action"`
abbrev pub is_supported : Option PendingAction → Bool
is_supported none = false
is_supported (some r) = str_eq r.tool_name "test_sensitive_action"

unfoldable pub report : Execution → Routed
report unsupported_action = unsupported
report (ran status done side_effect) = approved_action status done side_effect

unfoldable pub after_rejection : Reply → Routed
after_rejection not_found = unknown_action
after_rejection forbidden = not_yours
after_rejection (action s) = rejected_action (action s)

module _ (h : Hashing) where
  unfoldable pub execute_claimed : ℕ → String → Answer → Exec Execution
  execute_claimed action_id user_id claim =
      if is_refused claim.reply
      then pure (ran claim.reply false false)
      else if not claim.should_execute
      then pure (ran claim.reply (is_executed claim.reply) false)
      else if not (is_supported claim.row)
      then pure unsupported_action
      else (do
        completed ← complete_pending_action h action_id user_id
        pure (ran completed.reply (is_executed completed.reply) true))

  unfoldable pub execute_approved_action : ℕ → String → Exec Execution
  unfolding execute_claimed
  execute_approved_action action_id user_id = do
    claim ← claim_pending_action_execution h action_id user_id
    execute_claimed action_id user_id claim

  -- The rest of the route after `approve_pending_action`.
  unfoldable pub after_approval : ℕ → String → Reply → Exec Routed
  unfolding execute_approved_action report
  after_approval action_id user_id not_found = pure unknown_action
  after_approval action_id user_id forbidden = pure not_yours
  after_approval action_id user_id (action expired) = pure (closed expired)
  after_approval action_id user_id (action rejected) = pure (closed rejected)
  after_approval action_id user_id (action s) = do
    execution ← execute_approved_action action_id user_id
    pure (report execution)

  -- `none` where the id is no UUID.
  unfoldable pub approve_action : String → Option ℕ → Exec Routed
  unfolding after_approval
  approve_action user_id none = pure invalid_id
  approve_action user_id (some action_id) =
      try_except
        (do
          approval ← approve_pending_action h action_id user_id
          after_approval action_id user_id approval.reply)
        (pure unavailable)

  unfoldable pub reject_action : String → Option ℕ → Exec Routed
  unfolding after_rejection
  reject_action user_id none = pure invalid_id
  reject_action user_id (some action_id) =
      try_except
        (do
          rejection ← reject_pending_action h action_id user_id
          pure (after_rejection rejection.reply))
        (pure unavailable)

  -- The routes from `authorize_owner` on; the id of the action is `none` where it is no UUID, in the
  -- audit event as in the path.
  module _ (compare_digest : String → String → Option Bool) (owner_token : String)
      (uuid_text : ℕ → String) where
    unfoldable pub approve_route :
        Option ℕ → Request → Store × World → Guarded Routed × (Store × World)
    unfolding approve_action
    approve_route action_id q state =
        with_owner compare_digest owner_token h uuid_text "/actions/approve" action_id
          (λ user_id. approve_action user_id action_id) q state

    unfoldable pub reject_route :
        Option ℕ → Request → Store × World → Guarded Routed × (Store × World)
    unfolding reject_action
    reject_route action_id q state =
        with_owner compare_digest owner_token h uuid_text "/actions/reject" action_id
          (λ user_id. reject_action user_id action_id) q state
