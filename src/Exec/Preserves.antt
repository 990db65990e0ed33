-- ===== src/Exec/Preserves.antt =====
-- Properties of the database that persistence calls keep, one rule for each way to build a call.
use ahmed_agent.Base.{
  ℕ, ◌+◌, ◌≡◌, refl, Bool, true, false, Option, none, some, List, [], ◌∷◌, if◌then◌else◌,
}
use ahmed_agent.Schema.{Db}
use ahmed_agent.Exec.{
  Error, Result, ok, err, Outcome, World, Transaction, Exec, pure, raise, commit, perform,
  transact_at, transact, continue, handle, try_except, handle_either, try_either, attempt,
  attempt_either, ignore, persistence_error, value_error, type_error, other_error, ◌>>=◌,
}

-- Whatever the outcomes, `m` keeps `P`, when it returns and when it raises.
pub record Preserves {A : Type 0} (P : Db → Type 0) (m : Exec A) : Type 0 where
  pub after : (w : World) → P w.db → P (m w).1.db

module _ {A : Type 0} (P : Db → Type 0) where
  pub Preserves-pure : (a : A) → Preserves P (pure a)
  Preserves-pure a = record { after = λ w h. h }

  pub Preserves-raise : (e : Error) → Preserves P (raise {A = A} e)
  Preserves-raise e = record { after = λ w h. h }

  module _ (t : Transaction A)
      (keep : (now : ℕ) (db : Db) (a : A) (db' : Db)
        → P db
        → t now db ≡ some (a, db')
        → P db') where
    commit_keeps :
        (r : Option (A × Db)) (w : World) → P w.db → t w.clock w.db ≡ r → P (commit r w).1.db
    commit_keeps none w h e = h
    commit_keeps (some (a, db')) w h e = keep w.clock w.db a db' h e

    perform_keeps : (fails : Bool) (w : World) → P w.db → P (perform fails t w).1.db
    perform_keeps true w h = h
    perform_keeps false w h = commit_keeps (t w.clock w.db) w h refl

    transact_at_keeps : (os : List Outcome) (w : World) → P w.db → P (transact_at os t w).1.db
    transact_at_keeps [] w h = perform_keeps false w h
    transact_at_keeps (o ∷ os) w h =
        perform_keeps o.fails (record w { clock = w.clock + o.elapsed; outcomes = os }) h

    -- A transaction keeps what its statements keep; one that fails or is refused changes nothing.
    pub Preserves-transact : Preserves P (transact t)
    Preserves-transact = record { after = λ w h. transact_at_keeps w.outcomes w h }

  pub Preserves-if :
      (b : Bool) (m n : Exec A) → Preserves P m → Preserves P n → Preserves P (if b then m else n)
  Preserves-if true m n hm hn = hm
  Preserves-if false m n hm hn = hn

module _ {A B : Type 0} (P : Db → Type 0) where
  pub Preserves-bind :
      (m : Exec A) (f : A → Exec B)
      → Preserves P m
      → ((a : A) → Preserves P (f a))
      → Preserves P (m >>= f)
  Preserves-bind m f hm hf = record { after = λ w h. continue_keeps (m w).0 (m w).1 (hm.after w h) }
    where
      continue_keeps : (r : Result A) (w : World) → P w.db → P (continue r f w).1.db
      continue_keeps (ok a) w h = (hf a).after w h
      continue_keeps (err e) w h = h

module _ {A : Type 0} (P : Db → Type 0) where
  pub Preserves-try : (m k : Exec A) → Preserves P m → Preserves P k → Preserves P (try_except m k)
  Preserves-try m k hm hk = record { after = λ w h. handle_keeps (m w).0 (m w).1 (hm.after w h) }
    where
      handle_keeps : (r : Result A) (w : World) → P w.db → P (handle r k w).1.db
      handle_keeps (ok a) w h = h
      handle_keeps (err persistence_error) w h = hk.after w h
      handle_keeps (err value_error) w h = h
      handle_keeps (err type_error) w h = h
      handle_keeps (err other_error) w h = h

  pub Preserves-either :
      (m k : Exec A) → Preserves P m → Preserves P k → Preserves P (try_either m k)
  Preserves-either m k hm hk = record { after = λ w h. handle_keeps (m w).0 (m w).1 (hm.after w h) }
    where
      handle_keeps : (r : Result A) (w : World) → P w.db → P (handle_either r k w).1.db
      handle_keeps (ok a) w h = h
      handle_keeps (err persistence_error) w h = hk.after w h
      handle_keeps (err value_error) w h = hk.after w h
      handle_keeps (err type_error) w h = h
      handle_keeps (err other_error) w h = h

  pub Preserves-ignore : (m : Exec A) → Preserves P m → Preserves P (ignore m)
  Preserves-ignore m hm = record { after = λ w h. hm.after w h }

module _ {A : Type 0} (P : Db → Type 0) where
  pub Preserves-attempt : (m : Exec A) → Preserves P m → Preserves P (attempt m)
  Preserves-attempt m hm =
      Preserves-try P _ _ (Preserves-bind P m _ hm (λ a. Preserves-pure P (some a)))
        (Preserves-pure P none)

  pub Preserves-attempt_either : (m : Exec A) → Preserves P m → Preserves P (attempt_either m)
  Preserves-attempt_either m hm =
      Preserves-either P _ _ (Preserves-bind P m _ hm (λ a. Preserves-pure P (some a)))
        (Preserves-pure P none)

module _ {A B : Type 0} (P : Db → Type 0) where
  pub Preserves-elim :
      (o : Option B) (k : Exec A) (f : B → Exec A)
      → Preserves P k
      → ((b : B) → Preserves P (f b))
      → Preserves P (elim o [ none ↦ k | some b ↦ f b ])
  Preserves-elim none k f hk hf = hk
  Preserves-elim (some b) k f hk hf = hf b

pub ruleset preserves_rules = (
  Preserves-pure, Preserves-raise, Preserves-transact, Preserves-if, Preserves-bind, Preserves-try,
)
