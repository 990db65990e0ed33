-- ===== src/Exec/Fails.antt =====
-- Calls that raise nothing but `PersistenceError`, so that a handler of it always answers.
use ahmed_agent.Base.{◌≡◌, refl, ◌⊎◌, inl, inr, Bool, true, false, if◌then◌else◌}
use ahmed_agent.Exec.{
  Result, ok, err, persistence_error, value_error, type_error, other_error, World, Exec,
  Transaction, pure, transact, continue, handle, try_except, ◌>>=◌,
}
use ahmed_agent.Exec.Effects.{transact-Ran}

abbrev pub IsAnswer : {A : Type 0} → Result A → Type 0
IsAnswer {A} r = (a : A) × (r ≡ ok a)

pub record OnlyFails {A : Type 0} (m : Exec A) : Type 0 where
  pub either : (w : World) → IsAnswer (m w).0 ⊎ ((m w).0 ≡ err persistence_error)

module _ {A : Type 0} where
  pub OnlyFails-pure : (a : A) → OnlyFails (pure a)
  OnlyFails-pure a = record { either = λ w. inl (a, refl) }

  pub OnlyFails-transact : (t : Transaction A) → OnlyFails (transact t)
  OnlyFails-transact t = record {
    either = λ w. elim (transact-Ran t w).effect [
      | inl (failed, same) ↦ inr failed
      | inr (a, returned, ran) ↦ inl (a, returned)
    ];
  }

  pub OnlyFails-if :
      (b : Bool) (m n : Exec A) → OnlyFails m → OnlyFails n → OnlyFails (if b then m else n)
  OnlyFails-if true m n hm hn = hm
  OnlyFails-if false m n hm hn = hn

  pub try_answers :
      (m k : Exec A)
      → OnlyFails m
      → ((w : World) → IsAnswer (k w).0)
      → (w : World) → IsAnswer (try_except m k w).0
  try_answers m k hm hk w = handled (m w).0 (m w).1 (hm.either w)
    where
      handled :
          (r : Result A) (w : World)
          → IsAnswer r ⊎ (r ≡ err persistence_error)
          → IsAnswer (handle r k w).0
      handled (ok a) w e = (a, refl)
      handled (err persistence_error) w e = hk w
      handled (err value_error) w (inl (a, e)) = absurd (cc e)
      handled (err value_error) w (inr e) = absurd (cc e)
      handled (err type_error) w (inl (a, e)) = absurd (cc e)
      handled (err type_error) w (inr e) = absurd (cc e)
      handled (err other_error) w (inl (a, e)) = absurd (cc e)
      handled (err other_error) w (inr e) = absurd (cc e)

module _ {A B : Type 0} where
  pub OnlyFails-bind :
      (m : Exec A) (f : A → Exec B)
      → OnlyFails m
      → ((a : A) → OnlyFails (f a))
      → OnlyFails (m >>= f)
  OnlyFails-bind m f hm hf = record { either = λ w. continued (m w).0 (m w).1 (hm.either w) }
    where
      continued :
          (r : Result A) (w : World)
          → IsAnswer r ⊎ (r ≡ err persistence_error)
          → IsAnswer (continue r f w).0 ⊎ ((continue r f w).0 ≡ err persistence_error)
      continued (ok a) w e = (hf a).either w
      continued (err e') w (inl (a, e)) = absurd (cc e)
      continued (err e') w (inr e) = inr (cc e)
