-- ===== src/Exec/Effects.antt =====
-- What a transaction leaves behind, whatever the outcomes.
use ahmed_agent.Base.{
  ◌+◌, ◌≤◌, ◌≡◌, refl, ◌⊎◌, inl, inr, Bool, true, false, Option, none, some, List, [], ◌∷◌, arith,
}
use ahmed_agent.Schema.{Db}
use ahmed_agent.Exec.{
  continue, pure, Result, ok, err, persistence_error, Outcome, World, Transaction, commit, perform,
  transact_at, transact,
}

module _ {A : Type 0} (t : Transaction A) where
  -- Either nothing is written and the call raises, or the statements ran at the `NOW()` that the
  -- clock then shows. The clock does not go back.
  pub record Ran (w : World) (r : Result A) (w' : World) : Type 0 where
    pub later : w.clock ≤ w'.clock
    pub effect :
        ((r ≡ err persistence_error) × (w'.db ≡ w.db))
        ⊎ ((a : A) × (r ≡ ok a) × (t w'.clock w.db ≡ some (a, w'.db)))

  commit-Ran :
      (o : Option (A × Db)) (w : World) → t w.clock w.db ≡ o → Ran w (commit o w).0 (commit o w).1
  commit-Ran none w e = record { later = omega arith; effect = inl (refl, refl) }
  commit-Ran (some (a, db)) w e = record { later = omega arith; effect = inr (a, refl, e) }

  perform-Ran : (fails : Bool) (w : World) → Ran w (perform fails t w).0 (perform fails t w).1
  perform-Ran true w = record { later = omega arith; effect = inl (refl, refl) }
  perform-Ran false w = commit-Ran (t w.clock w.db) w refl

  transact_at-Ran :
      (os : List Outcome) (w : World) → Ran w (transact_at os t w).0 (transact_at os t w).1
  transact_at-Ran [] w = perform-Ran false w
  transact_at-Ran (o ∷ os) w =
      let ran = perform-Ran o.fails (record w { clock = w.clock + o.elapsed; outcomes = os }) in
      record { later = omega (arith, ran.later); effect = ran.effect }

  pub transact-Ran : (w : World) → Ran w (transact t w).0 (transact t w).1
  transact-Ran w = transact_at-Ran w.outcomes w

-- The world after a call that only computes with the answer of the one before it.
pub continue-pure :
    {A B : Type 0} (r : Result A) (f : A → B) (w : World) → (continue r (λ a. pure (f a)) w).1 ≡ w
continue-pure (ok a) f w = refl
continue-pure (err e) f w = refl
