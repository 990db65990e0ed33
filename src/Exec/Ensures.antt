-- ===== src/Exec/Ensures.antt =====
-- How a call ends, in all cases, one rule for each way to build a call.
use mathlib.Core.Path.{subst}
use mathlib.Core.Option.{some-injective}
use ahmed_agent.Base.{◌≡◌, refl, sym, ℕ, inl, inr, ◌⊎◌, Option, none, some}
use ahmed_agent.Schema.{Db}
use ahmed_agent.Exec.{
  Error, Result, ok, err, persistence_error, value_error, type_error, other_error, World, Exec,
  Transaction, pure, raise, transact, continue, handle, handle_either, try_except, try_either,
  attempt, attempt_either, ignore, ◌>>=◌,
}
use ahmed_agent.Exec.Effects.{transact-Ran}
use ahmed_agent.Exec.Preserves.{Preserves}

-- From a database with `P` the call returns some `a` and leaves `Q a`, or raises one of the errors
-- `E` and leaves `F`.
abbrev pub EndsIn :
    {A : Type 0} → (Error → Type 0) → (A → Db → Type 0) → (Db → Type 0) → Result A → World → Type 0
EndsIn {A} E Q F r w =
    ((a : A) × (r ≡ ok a) × Q a w.db) ⊎ ((e : Error) × (r ≡ err e) × E e × F w.db)

pub record Ensures {A : Type 0} (E : Error → Type 0) (P : Db → Type 0) (m : Exec A)
    (Q : A → Db → Type 0) (F : Db → Type 0) : Type 0 where
  pub ends : (w : World) → P w.db → EndsIn E Q F (m w).0 (m w).1

-- The errors of a call that raises none, only `PersistenceError`, that or `ValueError`, or where
-- `C` holds any exception but `TypeError`.
abbrev pub NoError : Error → Type 0
NoError e = ⊥

abbrev pub Failing : Error → Type 0
Failing e = e ≡ persistence_error

abbrev pub Raised : Type 0 → Error → Type 0
Raised C persistence_error = Unit
Raised C value_error = Unit
Raised C type_error = ⊥
Raised C other_error = C

abbrev pub Handled : Error → Type 0
Handled = Raised ⊥

abbrev pub RaisedIn : {A : Type 0} → Type 0 → Result A → Type 0
RaisedIn C (ok a) = Unit
RaisedIn C (err e) = Raised C e

-- The error that a call raised, as it is matched on.
pub Raised-err :
    {A : Type 0} (C : Type 0) (e e' : Error)
    → ◌≡◌ {A = Result A} (err e) (err e')
    → Raised C e'
    → Raised C e
Raised-err C e e' is h = subst (λ (r : Result _). RaisedIn C r) (sym is) h

module _ {A : Type 0} (E : Error → Type 0) (P : Db → Type 0) (Q : A → Db → Type 0)
    (F : Db → Type 0) where
  pub Ensures-pure : (a : A) → ((db : Db) → P db → Q a db) → Ensures E P (pure a) Q F
  Ensures-pure a q = record { ends = λ w p. inl (a, refl, q w.db p) }

  pub Ensures-raise : (e : Error) → E e → ((db : Db) → P db → F db) → Ensures E P (raise e) Q F
  Ensures-raise e allowed f = record { ends = λ w p. inr (e, refl, allowed, f w.db p) }

  -- Where the transaction fails, nothing is written.
  pub Ensures-transact :
      (t : Transaction A)
      → E persistence_error
      → ((db : Db) → P db → F db)
      → ((now : ℕ) (db : Db) (a : A) (db' : Db) → P db → t now db ≡ some (a, db') → Q a db')
      → Ensures E P (transact t) Q F
  Ensures-transact t allowed f keep = record {
    ends = λ w p. elim (transact-Ran t w).effect [
      | inl (failed, same) ↦ inr (persistence_error, failed, allowed, rw same (f w.db p))
      | inr (a, returned, ran) ↦
          inl (a, returned, keep (transact t w).1.clock w.db a (transact t w).1.db p ran)
    ];
  }

  -- Statements that no constraint can refuse.
  pub Ensures-statements :
      (f : ℕ → Db → A × Db)
      → E persistence_error
      → ((db : Db) → P db → F db)
      → ((now : ℕ) (db : Db) → P db → Q (f now db).0 (f now db).1)
      → Ensures E P (transact (λ now db. some (f now db))) Q F
  Ensures-statements f allowed frame keep =
      Ensures-transact (λ now db. some (f now db)) allowed frame
        (λ now db a db' p e.
          subst (λ (q : A × Db). Q q.0 q.1) (some-injective _ _ e) (keep now db p))

  -- A call that raises nothing keeps every promise about errors.
  pub Ensures-no_error :
      (F' : Db → Type 0) (m : Exec A) → Ensures NoError P m Q F' → Ensures E P m Q F
  Ensures-no_error F' m hm = record {
    ends = λ w p. elim (hm.ends w p) [ inl done ↦ inl done | inr (e, is, never, _) ↦ absurd never ];
  }

  pub Ensures-weaken :
      (P' : Db → Type 0) (m : Exec A)
      → ((db : Db) → P' db → P db)
      → Ensures E P m Q F
      → Ensures E P' m Q F
  Ensures-weaken P' m weaker hm = record { ends = λ w p. hm.ends w (weaker w.db p) }

module _ {A : Type 0} (E : Error → Type 0) (P : Db → Type 0) (Q : A → Db → Type 0)
    (F G : Db → Type 0) (m k : Exec A) where
  pub Ensures-try : Ensures Failing P m Q G → Ensures E G k Q F → Ensures E P (try_except m k) Q F
  Ensures-try hm hk = record { ends = λ w p. handled (m w).0 (m w).1 (hm.ends w p) }
    where
      handled :
          (r : Result A) (w : World)
          → EndsIn Failing Q G r w
          → EndsIn E Q F (handle r k w).0 (handle r k w).1
      handled (ok a) w (inl done) = inl done
      handled (ok a) w (inr (e, is, _, _)) = absurd (cc is)
      handled (err persistence_error) w (inl (a, is, _)) = absurd (cc is)
      handled (err persistence_error) w (inr (e, _, _, g)) = hk.ends w g
      handled (err value_error) w (inl (a, is, _)) = absurd (cc is)
      handled (err value_error) w (inr (e, is, one, _)) = absurd (cc (is, one))
      handled (err type_error) w (inl (a, is, _)) = absurd (cc is)
      handled (err type_error) w (inr (e, is, one, _)) = absurd (cc (is, one))
      handled (err other_error) w (inl (a, is, _)) = absurd (cc is)
      handled (err other_error) w (inr (e, is, one, _)) = absurd (cc (is, one))

  pub Ensures-either :
      Ensures Handled P m Q G → Ensures E G k Q F → Ensures E P (try_either m k) Q F
  Ensures-either hm hk = record { ends = λ w p. handled (m w).0 (m w).1 (hm.ends w p) }
    where
      handled :
          (r : Result A) (w : World)
          → EndsIn Handled Q G r w
          → EndsIn E Q F (handle_either r k w).0 (handle_either r k w).1
      handled (ok a) w (inl done) = inl done
      handled (ok a) w (inr (e, is, _, _)) = absurd (cc is)
      handled (err persistence_error) w (inl (a, is, _)) = absurd (cc is)
      handled (err persistence_error) w (inr (e, _, _, g)) = hk.ends w g
      handled (err value_error) w (inl (a, is, _)) = absurd (cc is)
      handled (err value_error) w (inr (e, _, _, g)) = hk.ends w g
      handled (err type_error) w (inl (a, is, _)) = absurd (cc is)
      handled (err type_error) w (inr (e, is, one, _)) = absurd (Raised-err ⊥ type_error e is one)
      handled (err other_error) w (inl (a, is, _)) = absurd (cc is)
      handled (err other_error) w (inr (e, is, one, _)) = absurd (Raised-err ⊥ other_error e is one)

module _ {A B : Type 0} (E : Error → Type 0) (P : Db → Type 0) (R : A → Db → Type 0)
    (Q : B → Db → Type 0) (F : Db → Type 0) where
  pub Ensures-bind :
      (m : Exec A) (f : A → Exec B)
      → Ensures E P m R F
      → ((a : A) → Ensures E (R a) (f a) Q F)
      → Ensures E P (m >>= f) Q F
  Ensures-bind m f hm hf = record { ends = λ w p. continued (m w).0 (m w).1 (hm.ends w p) }
    where
      continued :
          (r : Result A) (w : World)
          → EndsIn E R F r w
          → EndsIn E Q F (continue r f w).0 (continue r f w).1
      continued (ok a) w (inl (b, is, q)) =
          (hf a).ends w (subst (λ x. R x w.db) (returned (sym is)) q)
        where
          returned : {x y : A} → ◌≡◌ {A = Result A} (ok x) (ok y) → x ≡ y
          returned e = cc e
      continued (ok a) w (inr (e, is, _, _)) = absurd (cc is)
      continued (err e') w (inl (a, is, _)) = absurd (cc is)
      continued (err e') w (inr (e, is, one, f')) = inr (e, cc is, one, f')

-- What an attempt leaves.
abbrev pub Attempted : {A : Type 0} → (A → Db → Type 0) → (Db → Type 0) → Option A → Db → Type 0
Attempted Q F none db = F db
Attempted Q F (some a) db = Q a db

module _ {A : Type 0} (E : Error → Type 0) (P : Db → Type 0) (Q : A → Db → Type 0)
    (F G : Db → Type 0) (m : Exec A) where
  pub Ensures-attempt : Ensures Failing P m Q F → Ensures E P (attempt m) (Attempted Q F) G
  Ensures-attempt hm =
      Ensures-try E P (Attempted Q F) G F (m >>= λ a. pure (some a)) (pure none)
        (Ensures-bind Failing P Q (Attempted Q F) F m _ hm
          (λ a. Ensures-pure _ _ _ _ (some a) (λ db p. p)))
        (Ensures-pure _ _ _ _ none (λ db p. p))

  pub Ensures-attempt_either :
      Ensures Handled P m Q F → Ensures E P (attempt_either m) (Attempted Q F) G
  Ensures-attempt_either hm =
      Ensures-either E P (Attempted Q F) G F (m >>= λ a. pure (some a)) (pure none)
        (Ensures-bind Handled P Q (Attempted Q F) F m _ hm
          (λ a. Ensures-pure _ _ _ _ (some a) (λ db p. p)))
        (Ensures-pure _ _ _ _ none (λ db p. p))

pub Ensures-ignore :
    {A : Type 0} (E : Error → Type 0) (P F : Db → Type 0) (m : Exec A)
    → Preserves P m
    → Ensures E P (ignore m) (λ u. P) F
Ensures-ignore E P F m hm = record { ends = λ w p. inl (tt, refl, hm.after w p) }
