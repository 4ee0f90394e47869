-- ===== src/Service/Targets.antt =====
-- internal/service/service.go: newResolver and resolveTargetWith. A source is known by its manifest
-- address; `url` is ManifestURL, "" for a name that is not listed.
pub mod Chosen
use emly_updater.Base.{
  ℕ, ◌≡◌, String, Bool, true, false, not, Option, none, some, Result, ok, err, List, [], ◌∷◌,
  filter, map, is_blank, if◌then◌else◌,
}
use emly_updater.Manifest.{VersionLib, Manifest, Target}
use emly_updater.Manifest as Manifest
use emly_updater.Source.Http.{resolve_target as target_of}
use emly_updater.Source.Resolver.{
  World, Resolver, Resolution, FetchError, is_not_found, resolve_with,
}
use emly_updater.Service.Preferred.{preferred_chain, note_preferred_server}

pub record Settings : Type 0 where
  pub attempts : ℕ
  pub base_backoff : ℕ

pub data Error : Type 0 where
  unreachable : FetchError → Error
  no_target : Manifest.Error → Error

-- What a resolution gives, and the preference that it leaves.
pub record Resolved : Type 0 where
  pub result : Result Error (String × Manifest × Target)
  pub preferred : Option String

-- The addresses of the chain; a policy with none keeps a source that fails.
unfoldable pub urls_of : (String → String) → List String → String × List String
urls_of url chain = elim (filter (λ (u : String). not (is_blank u)) (map url chain)) [
  | [] ↦ ("", [])
  | u ∷ us ↦ (u, us)
]

unfoldable pub new_resolver : (String → String) → Settings → List String → Resolver String
unfolding urls_of
new_resolver url settings chain =
    let (first, rest) = urls_of url chain in
    record {
      primary = first;
      fallbacks = rest;
      attempts = settings.attempts;
      base_backoff = settings.base_backoff;
    }

-- errors.Is(resolver.PrimaryErr, source.ErrNotFound)
primary_not_found : Option FetchError → Bool
primary_not_found none = false
primary_not_found (some e) = is_not_found e

module _ {V : Type 0} (lib : VersionLib V) where
  unfoldable pub with_target :
      String → String × Manifest → Result Error (String × Manifest × Target)
  with_target channel (source, m) = elim (target_of lib m channel) [
    | err e ↦ err (no_target e)
    | ok t ↦ ok (source, m, t)
  ]

  -- `chain` is that of the cycle, `p` what is preferred before; a diagnostic passes false for `note`.
  unfoldable pub after_resolve :
      (String → String)
      → List String
      → String
      → Bool
      → Option String
      → Resolution String Manifest
      → Resolved
  unfolding with_target primary_not_found
  after_resolve url chain channel note p r = elim r.result [
    | err e ↦ record { result = err (unreachable e); preferred = p }
    | ok (source, m) ↦ record {
      result = with_target channel (source, m);
      preferred =
          if note
          then (note_preferred_server url chain (primary_not_found r.primary_err) source p).0
          else p;
    }
  ]

  unfoldable pub resolve_target_with :
      World String Manifest
      → (String → String)
      → Settings
      → List String
      → String
      → Bool
      → Option String
      → Resolved
  unfolding after_resolve
  resolve_target_with w url settings chain channel note p =
      let (names, p') = preferred_chain chain p in
      after_resolve url chain channel note p' (resolve_with w (new_resolver url settings names))
