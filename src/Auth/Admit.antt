-- ===== src/Auth/Admit.antt =====
-- Who is let in.
use ahmed_agent.Base.{
  ℕ, ◌≡◌, ◌≢◌, refl, Bool, true, false, Option, none, some, String, arith, ltb, eq_iff, Bool-cases,
  inl, inr,
}
use ahmed_agent.Auth.{
  Store, Request, client_key, authenticated, clear_failures, get_authenticated_user, after_compare,
  after_delay, throttle_delay, decide,
}
use ahmed_agent.Auth.Throttle.{put_self}

module _ (compare_digest : String → String → Option Bool) (owner_token : String) where
  -- What is known when an attempt is let in.
  abbrev pub Admitted : String → Request → Store → Type 0
  Admitted key q store =
      (compare_digest q.token owner_token ≡ some true)
      × (q.separator ≡ true)
      × (q.scheme ≡ "bearer")
      × (owner_token ≢ "")
      × (q.token ≢ "")
      × (store key ≡ none)

  user_exact :
      (q : Request)
      → get_authenticated_user compare_digest owner_token q ≡ some true
      → (compare_digest q.token owner_token ≡ some true)
        × (q.separator ≡ true)
        × (q.scheme ≡ "bearer")
        × (owner_token ≢ "")
        × (q.token ≢ "")
  unfolding get_authenticated_user
  user_exact q e =
      ground (arith, eq_iff q.scheme "bearer", eq_iff owner_token "", eq_iff q.token "")

  compared :
      (key : String) (q : Request) (store : Store) (o : Option Bool)
      → get_authenticated_user compare_digest owner_token q ≡ o
      → (after_compare compare_digest owner_token key q.recorded store o).0 ≡ authenticated
      → Admitted key q (after_compare compare_digest owner_token key q.recorded store o).1
  unfolding after_compare clear_failures
  compared key q store none is e = absurd (cc e)
  compared key q store (some false) is e = absurd (cc e)
  compared key q store (some true) is e =
      let (a, b, c, d, f) = user_exact q is in (a, b, c, d, f, put_self key none store)

  delayed :
      (key : String) (q : Request) (d : Option ℕ × Store)
      → (after_delay compare_digest owner_token key q d).0 ≡ authenticated
      → Admitted key q (after_delay compare_digest owner_token key q d).1
  unfolding after_delay
  delayed key q (none, store) e = absurd (cc e)
  delayed key q (some delay, store) e = elim (Bool-cases (ltb 0 delay)) [
    | inl early ↦ absurd (cc (rw early at e))
    | inr over ↦ rw over (compared key q store _ refl (rw over at e))
  ]

  -- An attempt is let in only with a bearer token that the comparison accepts against a configured,
  -- non-empty owner token; the failures of its client are then forgotten.
  pub let_in_exact :
      (q : Request) (store : Store)
      → (decide compare_digest owner_token q store).0 ≡ authenticated
      → Admitted (client_key q.host) q (decide compare_digest owner_token q store).1
  unfolding decide
  let_in_exact q store e =
      delayed (client_key q.host) q (throttle_delay (client_key q.host) q.checked q.measured store)
        e
