-- ===== src/Base/Results.antt =====
-- Go's `(value, error)` results, with the chain of early returns as a `do` block.
use mathlib.Core.Path.{◌≡◌, refl}
use mathlib.Core.Logic.{◌⊎◌, inl, inr}

pub data Result (E A : Type 0) : Type 0 where
  ok : A → Result E A
  err : E → Result E A

infixl 5 ◌>>=◌ ◌>>◌
abbrev pub ◌>>=◌ : {E A B : Type 0} → Result E A → (A → Result E B) → Result E B
ok a >>= f = f a
err e >>= f = err e

abbrev pub ◌>>◌ : {E B : Type 0} → Result E (Unit {0}) → Result E B → Result E B
m >> k = m >>= λ _. k

-- A chain that succeeds has a first part that succeeds.
pub >>=-eq-ok :
    {X Y Z : Type 0} (first : Result X Y) (rest : Y → Result X Z) {z : Z}
    → (first >>= rest) ≡ ok z
    → (y : Y) × (first ≡ ok y) × (rest y ≡ ok z)
>>=-eq-ok (err e) rest p = cc
>>=-eq-ok (ok y) rest p = (y, refl, p)

pub Result-cases :
    {E A : Type 0} (r : Result E A) → ((a : A) × (r ≡ ok a)) ⊎ ((e : E) × (r ≡ err e))
Result-cases (ok a) = inl (a, refl)
Result-cases (err e) = inr (e, refl)
