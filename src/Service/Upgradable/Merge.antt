-- ===== src/Service/Upgradable/Merge.antt =====
-- internal/service/clientcmd.go: the packages reported, and the loop that cuts them to the budget.
use emly_updater.Base.{
  distinct, ℕ, suc, zero, ◌-◌, ◌/◌, ◌≡◌, refl, inl, inr, ◌≤◌, ◌<◌, String, Bool, true, false, ◌&&◌,
  ◌||◌, some, List, [], ◌∷◌, ◌++◌, length, take, all, In, here, there, is_empty, leb, ◌==◌,
  if◌then◌else◌, contains, arith, eq_iff, or-false, Bool-cases,
}
use emly_updater.Service.Upgradable.{
  Package, UpgradablePackage, Scope, machine, user, key, add_each, merge_upgradable, cut,
  result_payload_budget,
}

module _ (to_lower : String → String) where
  abbrev pub keys : List UpgradablePackage → List String
  keys [] = []
  keys (p ∷ ps) = key to_lower p.found ∷ keys ps

  keys-append :
      (ps qs : List UpgradablePackage) (k : String)
      → contains (keys (ps ++ qs)) k ≡ (contains (keys ps) k || contains (keys qs) k)
  keys-append [] qs k = refl
  keys-append (p ∷ ps) qs k = ground (arith, keys-append ps qs k)

  -- The keys met after one half are those before it and those of what it added, which are new.
  add_each-seen :
      (scope : Scope) (seen : List String) (ks : List Package) (k : String)
      → (contains (add_each to_lower scope seen ks).1 k
          ≡ (contains seen k || contains (keys (add_each to_lower scope seen ks).0) k))
        × ((contains seen k && contains (keys (add_each to_lower scope seen ks).0) k) ≡ false)
  unfolding add_each
  add_each-seen scope seen [] k = (ground arith, ground arith)
  add_each-seen scope seen (p ∷ ks) k = elim (Bool-cases (contains seen (key to_lower p))) [
    | inl e ↦ rw e (add_each-seen scope seen ks k)
    | inr e ↦
        let ih = add_each-seen scope (key to_lower p ∷ seen) ks k in
        rw e (
          ground (arith, ih, eq_iff (key to_lower p) k),
          ground (arith, ih, eq_iff (key to_lower p) k),
        )
  ]

  add_each-distinct :
      (scope : Scope) (seen : List String) (ks : List Package)
      → distinct (keys (add_each to_lower scope seen ks).0) ≡ true
  unfolding add_each
  add_each-distinct scope seen [] = refl
  add_each-distinct scope seen (p ∷ ks) = elim (Bool-cases (contains seen (key to_lower p))) [
    | inl e ↦ rw e (add_each-distinct scope seen ks)
    | inr e ↦ rw e (
        ground (
          arith,
          add_each-distinct scope (key to_lower p ∷ seen) ks,
          add_each-seen scope (key to_lower p ∷ seen) ks (key to_lower p),
          eq_iff (key to_lower p) (key to_lower p),
        ))
  ]

  add_each_has :
      (scope : Scope) (seen : List String) (ks : List Package) {p : Package}
      → In p ks
      → contains (add_each to_lower scope seen ks).1 (key to_lower p) ≡ true
  unfolding add_each
  add_each_has scope seen [] m = elim m [ ]
  add_each_has scope seen (p ∷ ks) here = elim (Bool-cases (contains seen (key to_lower p))) [
    | inl e ↦ rw e (ground (arith, e, add_each-seen scope seen ks (key to_lower p)))
    | inr e ↦ rw e (
        ground (
          arith,
          add_each-seen scope (key to_lower p ∷ seen) ks (key to_lower p),
          eq_iff (key to_lower p) (key to_lower p),
        ))
  ]
  add_each_has scope seen (p ∷ ks) (there m) = elim (Bool-cases (contains seen (key to_lower p))) [
    | inl e ↦ rw e (add_each_has scope seen ks m)
    | inr e ↦ rw e (add_each_has scope (key to_lower p ∷ seen) ks m)
  ]

  distinct-keys_append :
      (ps qs : List UpgradablePackage)
      → distinct (keys ps) ≡ true
      → distinct (keys qs) ≡ true
      → ((k : String) → (contains (keys ps) k && contains (keys qs) k) ≡ false)
      → distinct (keys (ps ++ qs)) ≡ true
  distinct-keys_append [] qs d e apart = e
  distinct-keys_append (p ∷ ps) qs d e apart = ground (
    arith,
    keys-append ps qs (key to_lower p.found),
    apart (key to_lower p.found),
    eq_iff (key to_lower p.found) (key to_lower p.found),
    distinct-keys_append ps qs (ground arith) e (λ k. ground (arith, apart k)),
  )

  each_found :
      (f : Package → Bool) (ks : List Package)
      → ((p : Package) → In p ks → f p ≡ true)
      → all f ks ≡ true
  each_found f [] h = refl
  each_found f (k ∷ ks) h = ground (arith, h k here, each_found f ks (λ p m. h p (there m)))

  -- The merged list reports no package twice (by the key of its id and version), and every package
  -- of either half is in it.
  pub merge_upgradable-distinct :
      (ms us : List Package)
      → (distinct (keys (merge_upgradable to_lower ms us)) ≡ true)
        × (all
              (λ (p : Package). contains (keys (merge_upgradable to_lower ms us)) (key to_lower p))
              ms
            ≡ true)
        × (all
              (λ (p : Package). contains (keys (merge_upgradable to_lower ms us)) (key to_lower p))
              us
            ≡ true)
  unfolding merge_upgradable
  merge_upgradable-distinct ms us =
      let first = add_each to_lower machine [] ms in
      let second = add_each to_lower user first.1 us in
      (
        distinct-keys_append first.0 second.0 (add_each-distinct machine [] ms)
            (add_each-distinct user first.1 us)
            (λ k. ground (arith, add_each-seen machine [] ms k, add_each-seen user first.1 us k)),
        each_found _ ms (λ p m. ground (
          arith,
          keys-append first.0 second.0 (key to_lower p),
          add_each_has machine [] ms m,
          add_each-seen machine [] ms (key to_lower p),
        )),
        each_found _ us (λ p m. ground (
          arith,
          keys-append first.0 second.0 (key to_lower p),
          add_each_has user first.1 us m,
          add_each-seen machine [] ms (key to_lower p),
          add_each-seen user first.1 us (key to_lower p),
        )),
      )

length-take : (n : ℕ) (ps : List UpgradablePackage) → length (take n ps) ≤ n
length-take zero ps = omega arith
length-take (suc n) [] = omega arith
length-take (suc n) (p ∷ ps) = omega (arith, length-take n ps)

cut_positive : (n : ℕ) → 1 ≤ (if n == 0 then 1 else n)
cut_positive n = ground arith

nonempty : (ps : List UpgradablePackage) → is_empty ps ≡ false → 1 ≤ length ps
nonempty [] h = cc
nonempty (p ∷ ps) h = omega arith

shorter :
    (fuel n : ℕ) (ps : List UpgradablePackage)
    → is_empty ps ≡ false
    → 1 ≤ n
    → length ps < suc fuel
    → length (take (length ps - n) ps) < fuel
shorter fuel n ps some_left positive enough =
    omega (arith, length-take (length ps - n) ps, nonempty ps some_left, positive, enough)

-- The loop that drops packages ends within as many rounds as there are packages, and one: what it
-- leaves fits the budget, or is empty.
pub cut-fits :
    (fuel : ℕ) (size : List UpgradablePackage → ℕ) (ps : List UpgradablePackage) (truncated : Bool)
    → length ps < fuel
    → (qs : List UpgradablePackage) × (t : Bool) × (cut fuel size ps truncated ≡ some (qs, t))
      × ((leb (size qs) result_payload_budget || is_empty qs) ≡ true)
unfolding cut
cut-fits zero size ps truncated enough = absurd (omega (arith, enough))
cut-fits (suc fuel) size ps truncated enough =
    elim (Bool-cases (leb (size ps) result_payload_budget || is_empty ps)) [
      | inl e ↦ (ps, truncated, rw e refl, e)
      | inr e ↦
          let (qs, t, found, fits) =
            cut-fits fuel size
              (take (length ps - (if length ps / 10 == 0 then 1 else length ps / 10)) ps) true
              (shorter fuel _ ps (or-false (leb (size ps) result_payload_budget) (is_empty ps) e).1
                (cut_positive (length ps / 10)) enough) in
          (qs, t, rw e found, fits)
    ]
