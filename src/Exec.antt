-- ===== src/Exec.antt =====
-- What a persistence function of persistence_*.py does with the database: it validates its
-- arguments, runs its statements in one transaction, and turns every failure of the database into
-- `PersistenceError`. PostgreSQL is not modelled: its failures and the time that passes before a
-- transaction are a given sequence of outcomes, and a transaction that fails changes nothing.
pub mod Preserves
pub mod Effects
pub mod Returns
pub mod Fails
pub mod Ensures
use ahmed_agent.Base.{ℕ, ◌+◌, Bool, true, false, Option, none, some, List, [], ◌∷◌}
use ahmed_agent.Schema.{Db}

-- The exceptions that leave a persistence function.
pub data Error : Type 0 where
  persistence_error value_error type_error other_error : Error

pub data Result {ℓ} (A : Type ℓ) : Type ℓ where
  ok : A → Result A
  err : Error → Result A

-- What the database does with the next transaction.
pub record Outcome : Type 0 where
  pub fails : Bool
  pub elapsed : ℕ  -- microseconds before it starts

pub record World : Type 0 where
  pub db : Db
  pub clock : ℕ
  pub outcomes : List Outcome

-- The statements of one transaction, at its `NOW()`; `none` where a constraint refuses them.
abbrev pub Transaction : Type 0 → Type 0
Transaction A = ℕ → Db → Option (A × Db)

abbrev pub Exec : Type 0 → Type 0
Exec A = World → Result A × World

module _ {A : Type 0} where
  abbrev pub pure : A → Exec A
  pure a w = (ok a, w)

  abbrev pub raise : Error → Exec A
  raise e w = (err e, w)

  -- What the statements return is kept; where a constraint refuses them, all is rolled back.
  abbrev pub commit : Option (A × Db) → Exec A
  commit none w = (err persistence_error, w)
  commit (some (a, db)) w = (ok a, record w { db = db })

  abbrev pub perform : Bool → Transaction A → Exec A
  perform true t w = (err persistence_error, w)
  perform false t w = commit (t w.clock w.db) w

  -- `async with connection.transaction()`; the transactions after the last given outcome do not
  -- fail and take no time.
  abbrev pub transact_at : List Outcome → Transaction A → Exec A
  transact_at [] t w = perform false t w
  transact_at (o ∷ os) t w =
      perform o.fails t (record w { clock = w.clock + o.elapsed; outcomes = os })

  abbrev pub transact : Transaction A → Exec A
  transact t w = transact_at w.outcomes t w

module _ {A B : Type 0} where
  abbrev pub continue : Result A → (A → Exec B) → Exec B
  continue (ok a) f w = f a w
  continue (err e) f w = (err e, w)

infixl 5 ◌>>=◌ ◌>>◌
abbrev pub ◌>>=◌ : {A B : Type 0} → Exec A → (A → Exec B) → Exec B
◌>>=◌ m f w = let (r, w') = m w in continue r f w'

abbrev pub ◌>>◌ : {A B : Type 0} → Exec A → Exec B → Exec B
m >> k = m >>= λ _. k

-- `try: … except PersistenceError: …`
abbrev pub handle : {A : Type 0} → Result A → Exec A → Exec A
handle (err persistence_error) k w = k w
handle r k w = (r, w)

abbrev pub try_except : {A : Type 0} → Exec A → Exec A → Exec A
try_except m k w = let (r, w') = m w in handle r k w'

-- `except (PersistenceError, ValueError)`
abbrev pub handle_either : {A : Type 0} → Result A → Exec A → Exec A
handle_either (ok a) k w = (ok a, w)
handle_either (err persistence_error) k w = k w
handle_either (err value_error) k w = k w
handle_either (err type_error) k w = (err type_error, w)
handle_either (err other_error) k w = (err other_error, w)

abbrev pub try_either : {A : Type 0} → Exec A → Exec A → Exec A
try_either m k w = let (r, w') = m w in handle_either r k w'

-- A call whose `PersistenceError` decides what comes next.
abbrev pub attempt : {A : Type 0} → Exec A → Exec (Option A)
attempt m = try_except (m >>= λ a. pure (some a)) (pure none)

abbrev pub attempt_either : {A : Type 0} → Exec A → Exec (Option A)
attempt_either m = try_either (m >>= λ a. pure (some a)) (pure none)

-- A call whose result does not matter here.
abbrev pub ignore : {A : Type 0} → Exec A → Exec (Unit {0})
ignore m w = (ok tt, (m w).1)
