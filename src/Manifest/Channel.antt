-- ===== src/Manifest/Channel.antt =====
-- Laws of the version order and of the channel targets (manifest.go).
use emly_updater.Base.{
  ◌≡◌, refl, ◌⊎◌, inl, inr, ◌↔◌, String, Bool, true, false, ◌||◌, some, Result, ok, err, is_blank,
  str_eq, arith, Option-cases, ◌∙◌, ap,
}
use emly_updater.Manifest.{
  VersionLib, IsStrictOrder, Error, no_target, Manifest, less, channel_version, forced,
}

module _ {V : Type 0} (lib : VersionLib V) where
  pub less-parsed :
      (a b : String) {c : Bool}
      → less lib a b ≡ ok c
      → (va vb : V) × (lib.new_version a ≡ some va)
        × (lib.new_version b ≡ some vb)
        × (lib.less_than va vb ≡ c)
  unfolding less
  less-parsed a b h = elim (Option-cases (lib.new_version a)) [
    | inl ea ↦ absurd (ground arith)
    | inr (va, ea) ↦ elim (Option-cases (lib.new_version b)) [
      | inl eb ↦ absurd (ground arith)
      | inr (vb, eb) ↦ (va, vb, ea, eb, ground arith)
    ]
  ]

  pub less-of_parsed :
      (a b : String) (va vb : V)
      → lib.new_version a ≡ some va
      → lib.new_version b ≡ some vb
      → less lib a b ≡ ok (lib.less_than va vb)
  unfolding less
  less-of_parsed a b va vb ea eb = ground arith

  module _ (order : IsStrictOrder lib) where
    -- A version that was compared is not older than itself.
    pub less_self :
        (a b : String) {c : Bool}
        → less lib a b ≡ ok c
        → (less lib a a ≡ ok false) × (less lib b b ≡ ok false)
    less_self a b h =
        let (va, vb, ea, eb, e) = less-parsed a b h in
        (
          less-of_parsed a a va va ea ea ∙ ap ok (order.irreflexive va),
          less-of_parsed b b vb vb eb eb ∙ ap ok (order.irreflexive vb),
        )

    -- A beta client is never given a version behind an offered stable release, and the
    -- download it is given is the one of that version.
    pub channel_version-not_behind :
        (m : Manifest) (v d : String)
        → channel_version lib m "beta" ≡ ok (v, d)
        → is_blank m.stable_version ≡ false
        → is_blank m.stable_download ≡ false
        → (less lib v m.stable_version ≡ ok false)
          × (((v ≡ m.stable_version) × (d ≡ m.stable_download))
              ⊎ ((v ≡ m.beta_version) × (d ≡ m.beta_download)))
    unfolding channel_version
    channel_version-not_behind m v d h sv sd =
        settle (less lib m.beta_version m.stable_version) refl
      where
        settle :
            (r : Result Error Bool)
            → less lib m.beta_version m.stable_version ≡ r
            → (less lib v m.stable_version ≡ ok false)
              × (((v ≡ m.stable_version) × (d ≡ m.stable_download))
                  ⊎ ((v ≡ m.beta_version) × (d ≡ m.beta_download)))
        settle (ok true) e =
            let (_, s) = less_self m.beta_version m.stable_version e in
            (ground (arith, s), ground arith)
        settle (ok false) e = (ground arith, ground arith)
        settle (err x) e = absurd (ground arith)

  -- Whatever is not the beta channel is given the stable target, version and download together,
  -- and fails only where the manifest lacks one of the two; so does a beta request whose
  -- manifest has no beta target.
  pub channel_version_complete :
      (m : Manifest) (c : String)
      → ((str_eq c "beta" ≡ false)
          → is_blank m.stable_version ≡ false
          → is_blank m.stable_download ≡ false
          → channel_version lib m c ≡ ok (m.stable_version, m.stable_download))
        × ((str_eq c "beta" ≡ true)
            → (is_blank m.beta_version || is_blank m.beta_download) ≡ true
            → channel_version lib m c ≡ err (no_target c))
  unfolding channel_version
  channel_version_complete m c = (λ a b d. ground arith, λ a b. ground arith)

  -- A critical manifest forces the update whatever the versions; otherwise it is forced exactly
  -- when a minimum is set and the installed version is older.
  pub forced_iff :
      (m : Manifest) (i : String)
      → (forced lib m i ≡ ok true) ↔ (
          (m.is_critical ≡ true)
          ⊎ ((is_blank m.min_required_version ≡ false)
              × (less lib i m.min_required_version ≡ ok true)))
  unfolding forced
  forced_iff m i = (λ h. ground arith, λ h. ground arith)
