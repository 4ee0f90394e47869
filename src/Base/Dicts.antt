-- ===== src/Base/Dicts.antt =====
-- Go maps with string keys, as association lists. A lookup finds the first entry of its key.
use Prim.Native.String.{String}
use mathlib.Core.Path.{◌≡◌, refl, subst}
use mathlib.Core.Logic.{inl, inr}
use mathlib.Core.Option.{Option, none, some}
use mathlib.Core.List.{List, [], ◌∷◌}
use native.Mathlib.Omega.{arith}
use text.Mathlib.Text.{◌==◌ as str_eq}
use text.Mathlib.TextEquality.{eq_iff}
use emly_updater.Base.Tests.{if◌then◌else◌, Bool-cases}
use emly_updater.Base.Lists.{In, here, there}

abbrev pub Dict {ℓ} : Type ℓ → Type ℓ
Dict V = List (String × V)

module _ {ℓ} {V : Type ℓ} where
  -- m[k], with its comma-ok result
  unfoldable pub lookup : String → Dict V → Option V
  lookup k [] = none
  lookup k ((j, v) ∷ m) = if str_eq j k then some v else lookup k m

  -- delete(m, k)
  unfoldable pub delete : String → Dict V → Dict V
  delete k [] = []
  delete k ((j, v) ∷ m) = let rest = delete k m in if str_eq j k then rest else (j, v) ∷ rest

  -- m[k] = v
  unfoldable pub insert : String → V → Dict V → Dict V
  insert k v [] = (k, v) ∷ []
  insert k v ((j, w) ∷ m) =
      let rest = insert k v m in if str_eq j k then (k, v) ∷ m else (j, w) ∷ rest

  pub lookup-delete :
      (gone x : String) (dict : Dict V)
      → lookup x (delete gone dict) ≡ (if str_eq gone x then none else lookup x dict)
  unfolding lookup delete
  lookup-delete gone x [] = ground arith
  lookup-delete gone x ((y, u) ∷ dict) =
      let rest = lookup-delete gone x dict in
      ground (arith, eq_iff gone x, eq_iff y gone, eq_iff y x, rest)

  pub lookup-insert :
      (new x : String) (u : V) (dict : Dict V)
      → lookup x (insert new u dict) ≡ (if str_eq new x then some u else lookup x dict)
  unfolding lookup insert
  lookup-insert new x u [] = refl
  lookup-insert new x u ((y, t) ∷ dict) =
      let rest = lookup-insert new x u dict in
      ground (arith, eq_iff new x, eq_iff y new, eq_iff y x, rest)

  pub lookup-nil : (j : String) → lookup j [] ≡ none
  unfolding lookup
  lookup-nil j = refl

  pub lookup-In : (k : String) {v : V} (m : Dict V) → lookup k m ≡ some v → In (k, v) m
  unfolding lookup
  lookup-In k [] h = cc
  lookup-In k {v} ((j, w) ∷ m) h = elim (Bool-cases (str_eq j k)) [
    | inl e ↦
        let same : ◌≡◌ {A = String × V} (j, w) (k, v) = ground (arith, eq_iff j k) in
        subst (λ x. In x ((j, w) ∷ m)) same here
    | inr e ↦ there (lookup-In k m (rw e at h))
  ]

pub ruleset dict_laws = (lookup-nil, lookup-delete, lookup-insert)
