-- ===== src/Approvals/Refuse.antt =====
-- The routes on an action of another user.
use ahmed_agent.Auth.{
  Store, Request, Authorization, throttled, unauthenticated, authenticated, raised, Guarded,
  turned_away, entered, owner_user, go_on, with_owner, authorize_owner,
}
use ahmed_agent.Auth.Frame.{OnlyAudits, authorize_owner-OnlyAudits}
use ahmed_agent.Base.{
  Option, Bool, ℕ, ap, ◌≡◌, refl, ◌∙◌, ◌⊎◌, inl, inr, false, some, String, str_eq,
}
use ahmed_agent.Base.Table.{select}
use ahmed_agent.Schema.{Db, PendingAction}
use ahmed_agent.Exec.{World, Exec, ok, err, persistence_error, pure, try_except, ◌>>=◌}
use ahmed_agent.Audit.{Hashing}
use ahmed_agent.Actions.{by_id, Answer, forbidden, approve_pending_action, reject_pending_action}
use ahmed_agent.Actions.Answers.{approve_foreign, reject_foreign}
use ahmed_agent.Approvals.{
  Routed, approve_route, reject_route, not_yours, unavailable, approve_action, after_approval,
  reject_action, after_rejection,
}

module _ {B : Type 0} (m : Exec Answer) (f : Answer → Exec B) (refused failed : B)
    (stops : (a : Answer) → a.reply ≡ forbidden → f a ≡ pure refused) where
  -- A route that starts with a refused call, and stops at it.
  stopped :
      (w : World)
      → ((m w).0 ≡ err persistence_error)
        ⊎ ((a : Answer) × ((m w).0 ≡ ok a) × (a.reply ≡ forbidden))
      → (((try_except (m >>= f) (pure failed) w).0 ≡ ok refused)
          ⊎ ((try_except (m >>= f) (pure failed) w).0 ≡ ok failed))
        × ((try_except (m >>= f) (pure failed) w).1.db ≡ (m w).1.db)
  stopped w (inl fails) = rw fails (inr refl, refl)
  stopped w (inr (a, returns, is)) = rw (returns, stops a is) (inl refl, refl)

-- After the authorization nothing in the database changes.
foreign_untouched_within :
    (h : Hashing) (action_id : ℕ) (user_id : String) (w : World) (r : PendingAction)
    → select (by_id action_id) w.db.actions ≡ some r
    → str_eq r.user_id user_id ≡ false
    → ((((approve_action h user_id (some action_id) w).0 ≡ ok not_yours)
          ⊎ ((approve_action h user_id (some action_id) w).0 ≡ ok unavailable))
        × ((approve_action h user_id (some action_id) w).1.db ≡ w.db))
      × ((((reject_action h user_id (some action_id) w).0 ≡ ok not_yours)
            ⊎ ((reject_action h user_id (some action_id) w).0 ≡ ok unavailable))
          × ((reject_action h user_id (some action_id) w).1.db ≡ w.db))
unfolding approve_action reject_action after_approval after_rejection
foreign_untouched_within h action_id user_id w r found foreign =
    let (approves, kept) = approve_foreign h action_id user_id r foreign w found in
    let (rejects, kept') = reject_foreign h action_id user_id r foreign w found in
    let (a, same) =
      stopped (approve_pending_action h action_id user_id)
        (λ (x : Answer). after_approval h action_id user_id x.reply) not_yours unavailable
        (λ x is. rw is refl) w approves in
    let (b, same') =
      stopped (reject_pending_action h action_id user_id)
        (λ (x : Answer). pure (after_rejection x.reply)) not_yours unavailable (λ x is. rw is refl)
        w rejects in
    ((a, same ∙ kept), (b, same' ∙ kept'))

-- Turned away, or answered with 403, or with 503 if the database fails.
abbrev pub IsRefused : Guarded Routed → Type 0
IsRefused g =
    ((a : Authorization) × (g ≡ turned_away a))
    ⊎ (g ≡ entered (ok not_yours))
    ⊎ (g ≡ entered (ok unavailable))

-- A route that refuses whoever is let in changes the audit log at most.
entered-IsRefused :
    (route : String → Exec Routed) (before : Db) (answer : Authorization × (Store × World))
    (compare_digest : String → String → Option Bool) (owner_token : String)
    → OnlyAudits before answer.1.1.db
    → ((((route owner_user answer.1.1).0 ≡ ok not_yours)
          ⊎ ((route owner_user answer.1.1).0 ≡ ok unavailable))
        × ((route owner_user answer.1.1).1.db ≡ answer.1.1.db))
    → IsRefused (go_on compare_digest owner_token route answer).0
      × OnlyAudits before (go_on compare_digest owner_token route answer).1.1.db
entered-IsRefused route before (throttled, state) c o audits h = (inl (throttled, refl), audits)
entered-IsRefused route before (unauthenticated, state) c o audits h =
    (inl (unauthenticated, refl), audits)
entered-IsRefused route before (raised, state) c o audits h = (inl (raised, refl), audits)
entered-IsRefused route before (authenticated, (store, w)) c o audits (inl is, same) =
    (inr (inl (ap entered is)), rw same audits)
entered-IsRefused route before (authenticated, (store, w)) c o audits (inr is, same) =
    (inr (inr (ap entered is)), rw same audits)

-- A request to either route that names another user's action is turned away by the authorization, or
-- gets the answer 403, or 503 if the database fails; and in the database nothing but the audit log
-- changes.
pub foreign_action_untouched :
    (h : Hashing) (compare_digest : String → String → Option Bool) (owner_token : String)
    (uuid_text : ℕ → String) (action_id : ℕ) (q : Request) (store : Store) (w : World)
    (r : PendingAction)
    → select (by_id action_id) w.db.actions ≡ some r
    → str_eq r.user_id owner_user ≡ false
    → (IsRefused
          (approve_route h compare_digest owner_token uuid_text (some action_id) q (store, w)).0
        × OnlyAudits w.db
            (approve_route h compare_digest owner_token uuid_text
              (some action_id)
              q
              (store, w)).1.1.db)
      × (IsRefused
            (reject_route h compare_digest owner_token uuid_text (some action_id) q (store, w)).0
          × OnlyAudits w.db
              (reject_route h compare_digest owner_token uuid_text
                (some action_id)
                q
                (store, w)).1.1.db)
unfolding approve_route reject_route with_owner
foreign_action_untouched h compare_digest owner_token uuid_text action_id q store w r found
      foreign =
    let approving =
      authorize_owner compare_digest owner_token h uuid_text "/actions/approve" (some action_id) q
        (store, w) in
    let rejecting =
      authorize_owner compare_digest owner_token h uuid_text "/actions/reject" (some action_id) q
        (store, w) in
    let audits =
      authorize_owner-OnlyAudits compare_digest owner_token h uuid_text "/actions/approve"
        (some action_id) q store w in
    let audits' =
      authorize_owner-OnlyAudits compare_digest owner_token h uuid_text "/actions/reject"
        (some action_id) q store w in
    let within =
      foreign_untouched_within h action_id owner_user approving.1.1 r
        (ap (λ (db : Db). select (by_id action_id) db.actions) audits ∙ found) foreign in
    let within' =
      foreign_untouched_within h action_id owner_user rejecting.1.1 r
        (ap (λ (db : Db). select (by_id action_id) db.actions) audits' ∙ found) foreign in
    (
      entered-IsRefused (λ user_id. approve_action h user_id (some action_id)) w.db approving
          compare_digest owner_token audits within.0,
      entered-IsRefused (λ user_id. reject_action h user_id (some action_id)) w.db rejecting
          compare_digest owner_token audits' within'.1,
    )
