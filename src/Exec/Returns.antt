-- ===== src/Exec/Returns.antt =====
-- What holds when a call returns, one rule for each way to build a call; nothing is said of a call
-- that raises.
use ahmed_agent.Base.{ℕ, ◌≡◌, refl, sym, inl, inr, Bool, true, false, some, if◌then◌else◌}
use ahmed_agent.Schema.{Db}
use ahmed_agent.Exec.{
  Error, Result, ok, err, persistence_error, value_error, type_error, other_error, World, Exec,
  Transaction, pure, raise, transact, continue, handle, try_except, ◌>>=◌,
}
use ahmed_agent.Exec.Effects.{transact-Ran}

-- From a database with `P`, a return of `a` leaves one with `Q a`.
pub record Returns {A : Type 0} (P : Db → Type 0) (m : Exec A) (Q : A → Db → Type 0) : Type 0 where
  pub leaves : (w : World) → P w.db → (a : A) → (m w).0 ≡ ok a → Q a (m w).1.db

module _ {A : Type 0} (P : Db → Type 0) (Q : A → Db → Type 0) where
  pub Returns-pure : (a : A) → ((db : Db) → P db → Q a db) → Returns P (pure a) Q
  Returns-pure a q = record { leaves = λ w p b e. rw (returned (sym e)) (q w.db p) }
    where
      returned : {a b : A} → ◌≡◌ {A = Result A} (ok a) (ok b) → a ≡ b
      returned e = cc e

  pub Returns-raise : (e : Error) → Returns P (raise {A = A} e) Q
  Returns-raise e = record { leaves = λ w p b r. absurd (cc r) }

  pub Returns-if :
      (b : Bool) (m n : Exec A)
      → (b ≡ true → Returns P m Q)
      → (b ≡ false → Returns P n Q)
      → Returns P (if b then m else n) Q
  Returns-if true m n hm hn = hm refl
  Returns-if false m n hm hn = hn refl

  pub Returns-transact :
      (t : Transaction A)
      → ((now : ℕ) (db : Db) (a : A) (db' : Db) → P db → t now db ≡ some (a, db') → Q a db')
      → Returns P (transact t) Q
  Returns-transact t keep = record {
    leaves = λ w p a e. elim (transact-Ran t w).effect [
      | inl (failed, same) ↦ absurd (cc (failed, e))
      | inr (b, returned, ran) ↦
          keep (transact t w).1.clock w.db a (transact t w).1.db p (cc (returned, e, ran))
    ];
  }

  -- A rule with no condition serves under every condition.
  pub Returns-weaken : (m : Exec A) → Returns (λ db. Unit) m Q → Returns P m Q
  Returns-weaken m hm = record { leaves = λ w p. hm.leaves w tt }

  -- Nothing is known of the database where the handler starts.
  pub Returns-try :
      (m k : Exec A) → Returns P m Q → Returns (λ db. Unit) k Q → Returns P (try_except m k) Q
  Returns-try m k hm hk = record { leaves = λ w p a e. handled (m w).0 (m w).1 (hm.leaves w p) a e }
    where
      handled :
          (r : Result A) (w : World)
          → ((a : A) → r ≡ ok a → Q a w.db)
          → (a : A) → (handle r k w).0 ≡ ok a
          → Q a (handle r k w).1.db
      handled (ok b) w q a e = q a e
      handled (err persistence_error) w q a e = hk.leaves w tt a e
      handled (err value_error) w q a e = absurd (cc e)
      handled (err type_error) w q a e = absurd (cc e)
      handled (err other_error) w q a e = absurd (cc e)

module _ {A B : Type 0} (P : Db → Type 0) (R : A → Db → Type 0) (Q : B → Db → Type 0) where
  pub Returns-bind :
      (m : Exec A) (f : A → Exec B)
      → Returns P m R
      → ((a : A) → Returns (R a) (f a) Q)
      → Returns P (m >>= f) Q
  Returns-bind m f hm hf = record {
    leaves = λ w p b e. continued (m w).0 (m w).1 (hm.leaves w p) b e;
  }
    where
      continued :
          (r : Result A) (w : World)
          → ((a : A) → r ≡ ok a → R a w.db)
          → (b : B) → (continue r f w).0 ≡ ok b
          → Q b (continue r f w).1.db
      continued (ok a) w q b e = (hf a).leaves w (q a refl) b e
      continued (err e') w q b e = absurd (cc e)
