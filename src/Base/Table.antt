-- ===== src/Base/Table.antt =====
-- Tables of the database as lists of rows, with the statements that the queries use.
use Prim.Native.Nat.{ℕ, ◌+◌, ◌≤◌}
use mathlib.Core.Path.{◌≡◌, refl}
use mathlib.Core.Bool.{Bool, true, false}
use mathlib.Core.Option.{Option, none, some}
use mathlib.Core.List.{List, [], ◌∷◌}
use native.Mathlib.Omega.{arith}
use ahmed_agent.Base.Tests.{if◌then◌else◌, is_some}
use ahmed_agent.Base.Lists.{All}

module _ {ℓ} {A : Type ℓ} where
  -- `SELECT … WHERE test`, by a unique key: the first row that passes.
  abbrev pub select : (A → Bool) → List A → Option A
  select test [] = none
  select test (r ∷ rs) = if test r then some r else select test rs

  -- `UPDATE … SET change WHERE test`.
  abbrev pub update : (A → Bool) → (A → A) → List A → List A
  update test change [] = []
  update test change (r ∷ rs) = (if test r then change r else r) ∷ update test change rs

  -- The rows of a `SELECT … WHERE test`, in the table's order.
  abbrev pub select_all : (A → Bool) → List A → List A
  select_all test [] = []
  select_all test (r ∷ rs) = let rest = select_all test rs in if test r then r ∷ rest else rest

  -- `DELETE … WHERE test` keeps the other rows.
  abbrev pub delete : (A → Bool) → List A → List A
  delete test [] = []
  delete test (r ∷ rs) = let rest = delete test rs in if test r then rest else r ∷ rest

  -- The number of rows that a statement touches, as its command tag reports it.
  abbrev pub count : (A → Bool) → List A → ℕ
  count test [] = 0
  count test (r ∷ rs) = (if test r then 1 else 0) + count test rs

module _ {ℓ κ} {A : Type ℓ} (P : A → Type κ) (test : A → Bool) (change : A → A) where
  pub All-update :
      ((r : A) → P r → test r ≡ true → P (change r))
      → (rs : List A) → All P rs
      → All P (update test change rs)
  All-update keep [] h = tt
  All-update keep (r ∷ rs) (p, ps) = (kept (test r) refl, All-update keep rs ps)
    where
      kept : (b : Bool) → test r ≡ b → P (if b then change r else r)
      kept true e = keep r p e
      kept false e = p

-- What the UPDATE of a row makes of it.
abbrev pub updated {ℓ} : {A : Type ℓ} → (A → Bool) → (A → A) → Option A → Option A
updated test change none = none
updated test change (some r) = some (if test r then change r else r)

module _ {ℓ} {A : Type ℓ} (test change_test : A → Bool) (change : A → A) where
  -- A lookup by a column that the update leaves alone finds the row, updated.
  pub select-update :
      ((r : A) → test (change r) ≡ test r)
      → (rs : List A)
      → select test (update change_test change rs) ≡ updated change_test change (select test rs)
  select-update same [] = refl
  select-update same (r ∷ rs) = ground (arith, same r, select-update same rs)

  -- After an update of all rows that pass, and into rows that fail, no row passes.
  pub select-update-none :
      ((r : A) → change_test r ≡ true → test (change r) ≡ false)
      → ((r : A) → change_test r ≡ false → test r ≡ false)
      → (rs : List A) → select test (update change_test change rs) ≡ none
  select-update-none hit miss [] = refl
  select-update-none hit miss (r ∷ rs) =
      ground (arith, hit r, miss r, select-update-none hit miss rs)

module _ {ℓ} {A : Type ℓ} (test : A → Bool) where
  -- The row that a lookup finds passes its test.
  pub select_passes : (rs : List A) (r : A) → select test rs ≡ some r → test r ≡ true
  select_passes [] r e = ground arith
  select_passes (x ∷ rs) r e = ground (arith, select_passes rs r)

module _ {ℓ} {A : Type ℓ} (test other : A → Bool) where
  -- A row that a lookup finds is found by each lookup whose test it passes.
  pub select_found :
      (rs : List A) (r : A)
      → select test rs ≡ some r
      → other r ≡ true
      → is_some (select other rs) ≡ true
  select_found [] r e h = ground arith
  select_found (x ∷ rs) r e h = ground (arith, select_found rs r)

  -- A DELETE of other rows leaves what a lookup finds.
  pub select-delete :
      ((r : A) → test r ≡ true → other r ≡ false)
      → (rs : List A) → select test (delete other rs) ≡ select test rs
  select-delete apart [] = refl
  select-delete apart (r ∷ rs) = ground (arith, apart r, select-delete apart rs)

  pub select-delete-none :
      ((r : A) → test r ≡ true → other r ≡ true)
      → (rs : List A) → select test (delete other rs) ≡ none
  select-delete-none all [] = refl
  select-delete-none all (r ∷ rs) = ground (arith, all r, select-delete-none all rs)

module _ {ℓ} {A : Type ℓ} (test : A → Bool) where
  -- A DELETE raises no count.
  pub count-delete : (gone : A → Bool) (rs : List A) → count test (delete gone rs) ≤ count test rs
  count-delete gone [] = omega arith
  count-delete gone (r ∷ rs) = ground (arith, count-delete gone rs)

  pub count-update :
      (hit : A → Bool) (change : A → A)
      → ((r : A) → test (change r) ≡ test r)
      → (rs : List A) → count test (update hit change rs) ≡ count test rs
  count-update hit change same [] = refl
  count-update hit change same (r ∷ rs) = ground (arith, same r, count-update hit change same rs)

  pub count_none : (rs : List A) → is_some (select test rs) ≡ false → count test rs ≡ 0
  count_none [] e = refl
  count_none (r ∷ rs) e = ground (arith, count_none rs)

  -- What is found after a DELETE was not deleted, and passes the test.
  pub select-delete_passes :
      (gone : A → Bool) (rs : List A)
      → is_some (select test (delete gone rs)) ≡ true
      → (r : A) × (test r ≡ true) × (gone r ≡ false) × (is_some (select test rs) ≡ true)
  select-delete_passes gone [] e = absurd (cc e)
  select-delete_passes gone (r ∷ rs) e =
      passes (gone r) (test r) (select-delete_passes gone rs) refl refl e
    where
      later :
          (r' : A) × (test r' ≡ true) × (gone r' ≡ false) × (is_some (select test rs) ≡ true)
          → (r' : A) × (test r' ≡ true)
            × (gone r' ≡ false)
            × (is_some (if test r then some r else select test rs) ≡ true)
      later (r', t, g, found) = (r', t, g, ground (arith, found))

      passes :
          (g t : Bool)
          → (is_some (select test (delete gone rs)) ≡ true
              → (r' : A) × (test r' ≡ true) × (gone r' ≡ false) × (is_some (select test rs) ≡ true))
          → gone r ≡ g
          → test r ≡ t
          → is_some (select test (if g then delete gone rs else r ∷ delete gone rs)) ≡ true
          → (r' : A) × (test r' ≡ true)
            × (gone r' ≡ false)
            × (is_some (if test r then some r else select test rs) ≡ true)
      passes true t rest eg et e = later (rest e)
      passes false true rest eg et e = (r, et, eg, ground (arith, et))
      passes false false rest eg et e = later (rest (rw et at e))
