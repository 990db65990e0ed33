-- ===== src/Approvals/Tell.antt =====
-- What the answers of the two routes tell of the stored action.
use mathlib.Core.Path.{subst}
use ahmed_agent.Base.{inl, inr, ℕ, ◌≡◌, refl, Bool, true, false, none, some, String, Bool-cases}
use ahmed_agent.Base.Table.{select}
use ahmed_agent.Schema.{Db, rejected, expired, executing}
use ahmed_agent.Exec.{World, ok, pure, ◌>>=◌}
use ahmed_agent.Exec.Returns.{Returns, Returns-pure, Returns-try, Returns-bind, Returns-weaken}
use ahmed_agent.Exec.Fails.{OnlyFails, OnlyFails-pure, OnlyFails-bind, try_answers}
use ahmed_agent.Audit.{Hashing}
use ahmed_agent.Actions.{
  Reply, Answer, not_found, forbidden, action, by_id, approve_pending_action,
  claim_pending_action_execution, complete_pending_action, reject_pending_action,
}
use ahmed_agent.Actions.Answers.{
  IsStored, Means, HandsOut, approve-Means, claim-Means, complete-Means, reject-Means,
  approve-OnlyFails, claim-OnlyFails, complete-OnlyFails, reject-OnlyFails,
}
use ahmed_agent.Approvals.{
  Execution, Routed, unsupported_action, ran, invalid_id, unknown_action, not_yours, unavailable,
  unsupported, closed, approved_action, rejected_action, is_executed, is_refused, is_supported,
  execute_claimed, execute_approved_action, report, after_approval, approve_action, after_rejection,
  reject_action,
}

module _ (action_id : ℕ) (user_id : String) where
  -- `executed` is told exactly of an action that is stored as executed.
  abbrev pub TellsStatus : Reply → Bool → Db → Type 0
  TellsStatus reply done db = Means action_id user_id reply db × (done ≡ is_executed reply)

  abbrev pub Tells : Routed → Db → Type 0
  Tells invalid_id db = Unit
  Tells unavailable db = Unit
  Tells not_yours db = Unit
  Tells unknown_action db = select (by_id action_id) db.actions ≡ none
  Tells unsupported db = IsStored action_id user_id executing db
  Tells (closed s) db = IsStored action_id user_id s db
  Tells (approved_action reply done side_effect) db = TellsStatus reply done db
  Tells (rejected_action reply) db = Means action_id user_id reply db

  abbrev Ends : Execution → Db → Type 0
  Ends unsupported_action db = IsStored action_id user_id executing db
  Ends (ran reply done side_effect) db = TellsStatus reply done db

  refused_not_executed : (r : Reply) → is_refused r ≡ true → false ≡ is_executed r
  refused_not_executed not_found e = refl
  refused_not_executed forbidden e = refl
  refused_not_executed (action s) e = absurd (cc e)

  module _ (h : Hashing) where
    execute_claimed-Ends :
        (claim : Answer)
        → Returns
            (λ db. Means action_id user_id claim.reply db × HandsOut claim)
            (execute_claimed h action_id user_id claim)
            Ends
    unfolding execute_claimed
    execute_claimed-Ends claim = elim (Bool-cases (is_refused claim.reply)) [
      | inl refused ↦
          rw refused (Returns-pure _ _ _ (λ db p. (p.0, refused_not_executed _ refused)))
      | inr known ↦ rw known (elim (Bool-cases claim.should_execute) [
        | inr kept ↦ rw kept (Returns-pure _ _ _ (λ db p. (p.0, refl)))
        | inl handed ↦ rw handed (elim (Bool-cases (is_supported claim.row)) [
          | inr foreign ↦ rw foreign (
              Returns-pure _ _ _ (λ db p. subst (λ r. Means action_id user_id r db) (p.1 refl) p.0))
          | inl supported ↦ rw supported (
              Returns-bind _ (λ a db. Means action_id user_id a.reply db × Unit {0}) _
                (complete_pending_action h action_id user_id) _
                (Returns-weaken _ _ _ (complete-Means h action_id user_id))
                (λ a. Returns-pure _ _ _ (λ db p. (p.0, refl))))
        ])
      ])
    ]

    execute-Ends : Returns (λ db. Unit) (execute_approved_action h action_id user_id) Ends
    unfolding execute_approved_action
    execute-Ends =
        Returns-bind _ _ _ (claim_pending_action_execution h action_id user_id) _
          (claim-Means h action_id user_id) execute_claimed-Ends

    report-Tells : (e : Execution) (db : Db) → Ends e db → Tells (report e) db
    unfolding report
    report-Tells unsupported_action db p = p
    report-Tells (ran reply done side_effect) db p = p

    executed-Tells :
        Returns
          (λ db. Unit)
          (execute_approved_action h action_id user_id >>= λ execution. pure (report execution))
          Tells
    executed-Tells =
        Returns-bind _ Ends _ (execute_approved_action h action_id user_id) _ execute-Ends
          (λ e. Returns-pure _ _ _ (report-Tells e))

    after_approval-Tells :
        (reply : Reply)
        → Returns
            (λ db. Means action_id user_id reply db × Unit {0})
            (after_approval h action_id user_id reply)
            Tells
    unfolding after_approval
    after_approval-Tells not_found = Returns-pure _ _ _ (λ db p. p.0)
    after_approval-Tells forbidden = Returns-pure _ _ _ (λ db p. tt)
    after_approval-Tells (action expired) = Returns-pure _ _ _ (λ db p. p.0)
    after_approval-Tells (action rejected) = Returns-pure _ _ _ (λ db p. p.0)
    after_approval-Tells (action s) = Returns-weaken _ _ _ executed-Tells

    approve_action-Tells : Returns (λ db. Unit) (approve_action h user_id (some action_id)) Tells
    unfolding approve_action
    approve_action-Tells =
        Returns-try _ _ _ _
          (Returns-bind _ _ _ (approve_pending_action h action_id user_id) _
            (approve-Means h action_id user_id) (λ a. after_approval-Tells a.reply))
          (Returns-pure _ _ _ (λ db p. tt))

    after_rejection-Tells :
        (reply : Reply) (db : Db)
        → Means action_id user_id reply db
        → Tells (after_rejection reply) db
    unfolding after_rejection
    after_rejection-Tells not_found db p = p
    after_rejection-Tells forbidden db p = tt
    after_rejection-Tells (action s) db p = p

    reject_action-Tells : Returns (λ db. Unit) (reject_action h user_id (some action_id)) Tells
    unfolding reject_action
    reject_action-Tells =
        Returns-try _ _ _ _
          (Returns-bind _ _ _ (reject_pending_action h action_id user_id) _
            (reject-Means h action_id user_id)
            (λ a. Returns-pure _ _ _ (λ db p. after_rejection-Tells a.reply db p.0)))
          (Returns-pure _ _ _ (λ db p. tt))

    execute_claimed-OnlyFails :
        (claim : Answer) → OnlyFails (execute_claimed h action_id user_id claim)
    unfolding execute_claimed
    execute_claimed-OnlyFails claim = elim (Bool-cases (is_refused claim.reply)) [
      | inl refused ↦ rw refused (OnlyFails-pure _)
      | inr known ↦ rw known (elim (Bool-cases claim.should_execute) [
        | inr kept ↦ rw kept (OnlyFails-pure _)
        | inl handed ↦ rw handed (elim (Bool-cases (is_supported claim.row)) [
          | inr foreign ↦ rw foreign (OnlyFails-pure _)
          | inl supported ↦ rw supported (
              OnlyFails-bind (complete_pending_action h action_id user_id) _
                (complete-OnlyFails h action_id user_id) (λ c. OnlyFails-pure _))
        ])
      ])
    ]

    execute-OnlyFails : OnlyFails (execute_approved_action h action_id user_id)
    unfolding execute_approved_action
    execute-OnlyFails =
        OnlyFails-bind (claim_pending_action_execution h action_id user_id) _
          (claim-OnlyFails h action_id user_id) execute_claimed-OnlyFails

    after_approval-OnlyFails :
        (reply : Reply) → OnlyFails (after_approval h action_id user_id reply)
    unfolding after_approval
    after_approval-OnlyFails not_found = OnlyFails-pure _
    after_approval-OnlyFails forbidden = OnlyFails-pure _
    after_approval-OnlyFails (action expired) = OnlyFails-pure _
    after_approval-OnlyFails (action rejected) = OnlyFails-pure _
    after_approval-OnlyFails (action s) =
        OnlyFails-bind (execute_approved_action h action_id user_id) _ execute-OnlyFails
          (λ e. OnlyFails-pure _)

    -- Both routes answer whatever fails, and tell what is stored: an approval says `executed` exactly
    -- of an action that is stored as executed, the 422 for another tool leaves the action stored as
    -- executing, a 409 and a rejection name the stored status, and 404 is answered only where no
    -- such action is stored.
    pub routes_Tell :
        (w : World)
        → ((a : Routed) × ((approve_action h user_id (some action_id) w).0 ≡ ok a)
            × Tells a (approve_action h user_id (some action_id) w).1.db)
          × ((a : Routed) × ((reject_action h user_id (some action_id) w).0 ≡ ok a)
              × Tells a (reject_action h user_id (some action_id) w).1.db)
    unfolding approve_action reject_action
    routes_Tell w =
        let (a, approves) =
          try_answers _ _
            (OnlyFails-bind (approve_pending_action h action_id user_id) _
              (approve-OnlyFails h action_id user_id) (λ a. after_approval-OnlyFails a.reply))
            (λ w'. (unavailable, refl)) w in
        let (b, rejects) =
          try_answers _ _
            (OnlyFails-bind (reject_pending_action h action_id user_id) _
              (reject-OnlyFails h action_id user_id) (λ a. OnlyFails-pure _))
            (λ w'. (unavailable, refl)) w in
        (
          (a, approves, approve_action-Tells.leaves w tt a approves),
          (b, rejects, reject_action-Tells.leaves w tt b rejects),
        )
