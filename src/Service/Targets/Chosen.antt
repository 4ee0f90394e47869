-- ===== src/Service/Targets/Chosen.antt =====
-- internal/service/service.go: the target that a resolution chooses.
use emly_updater.Base.{
  ℕ, ◌≡◌, inl, inr, String, Bool, false, Option, some, ok, List, ◌∷◌, In, lookup, is_blank, arith,
  Option-cases, Result-cases,
}
use emly_updater.Manifest.{VersionLib, Manifest, Target, channel_version}
use emly_updater.Source.Http.{resolve_target as target_of}
use emly_updater.Source.Resolver.{World, Resolution, resolve_with}
use emly_updater.Source.Resolver.Laws.{resolve_with-Served}
use emly_updater.Service.Preferred.{preferred_chain}
use emly_updater.Service.Targets.{
  Settings, urls_of, new_resolver, with_target, after_resolve, resolve_target_with,
}

module _ {V : Type 0} (lib : VersionLib V) where
  -- the manifest and the target of a source agree, and the target has a checksum
  abbrev pub Targets : String → Manifest → Target → Type 0
  Targets channel m t =
      (channel_version lib m channel ≡ ok (t.version, t.download_ref))
      × (lookup t.version m.sha256_checksums ≡ some t.sha256)
      × (is_blank t.sha256 ≡ false)

  target_of-Targets :
      (m : Manifest) (channel : String) (t : Target)
      → target_of lib m channel ≡ ok t
      → Targets channel m t
  unfolding target_of
  target_of-Targets m channel t h = elim (Result-cases (channel_version lib m channel)) [
    | inr (e, p) ↦ absurd (ground arith)
    | inl ((version, url), p) ↦ elim (Option-cases (lookup version m.sha256_checksums)) [
      | inl q ↦ absurd (ground arith)
      | inr (sha, q) ↦ ground arith
    ]
  ]

  with_target-inv :
      (channel source : String) (m : Manifest) (x : String × Manifest) (t : Target)
      → with_target lib channel x ≡ ok (source, m, t)
      → (x.0 ≡ source) × (x.1 ≡ m) × (target_of lib m channel ≡ ok t)
  unfolding with_target
  with_target-inv channel source m (s, doc) t h = elim (Result-cases (target_of lib doc channel)) [
    | inr (e, p) ↦ absurd (ground arith)
    | inl (u, p) ↦ ground arith
  ]

  after_resolve-inv :
      (url : String → String) (chain : List String) (channel : String) (note : Bool)
      (p : Option String) (r : Resolution String Manifest) (source : String) (m : Manifest)
      (t : Target)
      → (after_resolve lib url chain channel note p r).result ≡ ok (source, m, t)
      → (r.result ≡ ok (source, m)) × (target_of lib m channel ≡ ok t)
  unfolding after_resolve
  after_resolve-inv url chain channel note p r source m t h = elim (Result-cases r.result) [
    | inr (e, q) ↦ absurd (ground arith)
    | inl ((s, doc), q) ↦ ground (arith, with_target-inv channel source m (s, doc) t)
  ]

  -- A target that is resolved is the one of the channel in a manifest that the source, the head of the
  -- chain or another of its addresses, served in this resolution, and it has the checksum that this
  -- manifest lists for its version, which is not empty.
  pub resolve_target_with-Targets :
      (w : World String Manifest) (url : String → String) (settings : Settings)
      (chain : List String) (channel : String) (note : Bool) (p : Option String) (source : String)
      (m : Manifest) (t : Target)
      → (resolve_target_with lib w url settings chain channel note p).result ≡ ok (source, m, t)
      → let urls = urls_of url (preferred_chain chain p).0 in
        In source (urls.0 ∷ urls.1) × ((n : ℕ) × (w.fetch n source ≡ ok m)) × Targets channel m t
  unfolding resolve_target_with new_resolver
  resolve_target_with-Targets w url settings chain channel note p source m t h =
      let names = (preferred_chain chain p).0 in
      let r = new_resolver url settings names in
      let (served, found) =
        after_resolve-inv url chain channel note (preferred_chain chain p).1 (resolve_with w r)
          source m t h in
      let (member, fetched) = rw served at (resolve_with-Served w r) in
      (member, fetched, target_of-Targets m channel t found)
