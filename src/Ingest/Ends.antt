-- ===== src/Ingest/Ends.antt =====
-- Rules for calls that return or raise `PersistenceError` or `ValueError`, or where `C` holds another
-- exception than `TypeError`.
use ahmed_agent.Base.{ℕ, ◌≡◌, inl, inr, refl, Bool, true, false, some, if◌then◌else◌}
use ahmed_agent.Schema.{Db}
use ahmed_agent.Exec.{
  Error, Exec, World, Result, ok, err, persistence_error, value_error, type_error, other_error,
  raise, transact, handle, try_except,
}
use ahmed_agent.Exec.Ensures.{
  EndsIn, Ensures, Raised, Raised-err, Ensures-raise, Ensures-statements,
}

-- A call that ends in `Q` or raises.
abbrev pub Ends : {A : Type 0} → Type 0 → (Db → Type 0) → Exec A → (A → Db → Type 0) → Type 0
Ends C P m Q = Ensures (Raised C) P m Q (λ db. Unit)

abbrev pub Anything : {A : Type 0} → A → Db → Type 0
Anything a db = Unit

module _ {A : Type 0} (C : Type 0) (P : Db → Type 0) (Q : A → Db → Type 0) where
  pub Ends-statements :
      (f : ℕ → Db → A × Db)
      → ((now : ℕ) (db : Db) → P db → Q (f now db).0 (f now db).1)
      → Ends C P (transact (λ now db. some (f now db))) Q
  Ends-statements f keep = Ensures-statements (Raised C) P Q (λ db. Unit) f tt (λ db p. tt) keep

  pub Ends-guarded :
      (F : Db → Type 0) (b : Bool) (m : Exec A)
      → ((db : Db) → P db → F db)
      → Ensures (Raised C) P m Q F
      → Ensures (Raised C) P (if b then raise value_error else m) Q F
  Ends-guarded F true m frame h = Ensures-raise (Raised C) P Q F value_error tt frame
  Ends-guarded F false m frame h = h

  pub Ends-if :
      (b : Bool) (m k : Exec A)
      → (b ≡ true → Ends C P m Q)
      → (b ≡ false → Ends C P k Q)
      → Ends C P (if b then m else k) Q
  Ends-if true m k hm hk = hm refl
  Ends-if false m k hm hk = hk refl

  -- The handler runs where the call raises `PersistenceError`; a `ValueError` passes.
  pub Ends-try :
      (G : Db → Type 0) (m k : Exec A)
      → Ensures (Raised C) P m Q G
      → Ends C G k Q
      → Ends C P (try_except m k) Q
  Ends-try G m k hm hk = record { ends = λ w p. handled (m w).0 (m w).1 (hm.ends w p) }
    where
      handled :
          (r : Result A) (w : World)
          → EndsIn (Raised C) Q G r w
          → EndsIn (Raised C) Q (λ db. Unit) (handle r k w).0 (handle r k w).1
      handled (ok a) w (inl done) = inl done
      handled (ok a) w (inr (e, is, _, _)) = absurd (cc is)
      handled (err persistence_error) w (inl (a, is, _)) = absurd (cc is)
      handled (err persistence_error) w (inr (e, _, _, g)) = hk.ends w g
      handled (err value_error) w (inl (a, is, _)) = absurd (cc is)
      handled (err value_error) w (inr (e, is, one, _)) = inr (value_error, refl, tt, tt)
      handled (err type_error) w (inl (a, is, _)) = absurd (cc is)
      handled (err type_error) w (inr (e, is, one, _)) = absurd (Raised-err C type_error e is one)
      handled (err other_error) w (inl (a, is, _)) = absurd (cc is)
      handled (err other_error) w (inr (e, is, one, _)) =
          inr (other_error, refl, Raised-err C other_error e is one, tt)

module _ {A : Type 0} (C C' : Type 0) (Q : A → Db → Type 0) where
  weaken_error : (e : Error) → (C → C') → Raised C e → Raised C' e
  weaken_error persistence_error so h = tt
  weaken_error value_error so h = tt
  weaken_error type_error so h = absurd h
  weaken_error other_error so h = so h

  EndsIn-weaken :
      (r : Result A) (w : World)
      → (C → C')
      → EndsIn (Raised C) Q (λ db. Unit) r w
      → EndsIn (Raised C') Q (λ db. Unit) r w
  EndsIn-weaken r w so (inl done) = inl done
  EndsIn-weaken r w so (inr (e, is, h, _)) = inr (e, is, weaken_error e so h, tt)

  -- Where more can be raised.
  pub Ends-weaken : (P : Db → Type 0) (m : Exec A) → (C → C') → Ends C P m Q → Ends C' P m Q
  Ends-weaken P m so h = record { ends = λ w p. EndsIn-weaken (m w).0 (m w).1 so (h.ends w p) }
