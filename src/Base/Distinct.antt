-- ===== src/Base/Distinct.antt =====
-- Lists of names without a repetition.
use mathlib.Core.Path.{◌≡◌, refl}
use mathlib.Core.Bool.{Bool, true, false, not, ◌&&◌, ◌||◌}
use mathlib.Core.List.{List, [], ◌∷◌, ◌++◌}
use Prim.Native.String.{String}
use native.Mathlib.Omega.{arith}
use text.Mathlib.TextEquality.{eq_iff}
use emly_updater.Base.Text.{str_eq, contains}

-- no name stands twice
abbrev pub distinct : List String → Bool
distinct [] = true
distinct (x ∷ xs) = not (contains xs x) && distinct xs

pub contains-append :
    (xs : List String) (y x : String) → contains (xs ++ y ∷ []) x ≡ (contains xs x || str_eq y x)
contains-append [] y x = ground arith
contains-append (z ∷ xs) y x = ground (arith, contains-append xs y x)

pub distinct-append :
    (xs : List String) (y : String)
    → distinct xs ≡ true
    → contains xs y ≡ false
    → distinct (xs ++ y ∷ []) ≡ true
distinct-append [] y d f = refl
distinct-append (x ∷ xs) y d f = ground (
  arith,
  contains-append xs y x,
  eq_iff x y,
  eq_iff y x,
  distinct-append xs y (ground arith) (ground arith),
)
