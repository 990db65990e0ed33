-- ===== src/Base/Json.antt =====
-- JSON values, as the metadata and argument columns hold them. A number is kept as an integer or,
-- where the source computes a float, as its text.
use Prim.Native.Nat.{ℕ}
use Prim.Native.String.{String}
use mathlib.Core.Bool.{Bool, true, false, ◌||◌}
use mathlib.Core.Path.{◌≡◌, refl}
use text.Mathlib.Text.{◌==◌ as str_eq}
use ahmed_agent.Base.Tests.{◌==◌, if◌then◌else◌}

mutual
  pub data Json : Type 0 where
    null : Json
    bool : Bool → Json
    int : ℕ → Json
    float : String → Json
    str : String → Json
    arr : Items → Json
    obj : Fields → Json

  pub data Items : Type 0 where
    nil : Items
    cons : Json → Items → Items

  pub data Fields : Type 0 where
    end : Fields
    field : String → Json → Fields → Fields

-- The text of a float that is zero.
abbrev pub is_zero_text : String → Bool
is_zero_text s = str_eq s "0.0" || str_eq s "-0.0"

-- `value or {}`
unfoldable pub or_object : Json → Json
or_object null = obj end
or_object (bool b) = if b then bool b else obj end
or_object (int n) = if n == 0 then obj end else int n
or_object (float s) = if is_zero_text s then obj end else float s
or_object (str s) = if str_eq s "" then obj end else str s
or_object (arr nil) = obj end
or_object (arr (cons x xs)) = arr (cons x xs)
or_object (obj fields) = obj fields

or_object_or :
    (b : Bool) (j : Json)
    → or_object j ≡ (if b then obj end else j)
    → or_object (if b then obj end else j) ≡ (if b then obj end else j)
unfolding or_object
or_object_or true j e = refl
or_object_or false j e = e

pub or_object_idem : (j : Json) → or_object (or_object j) ≡ or_object j
unfolding or_object
or_object_idem null = refl
or_object_idem (bool true) = refl
or_object_idem (bool false) = refl
or_object_idem (int n) = or_object_or (n == 0) (int n) refl
or_object_idem (float s) = or_object_or (is_zero_text s) (float s) refl
or_object_idem (str s) = or_object_or (str_eq s "") (str s) refl
or_object_idem (arr nil) = refl
or_object_idem (arr (cons x xs)) = refl
or_object_idem (obj fields) = refl
