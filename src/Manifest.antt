-- ===== src/Manifest.antt =====
-- internal/manifest: the update manifests, the channel targets and the version order.
-- Versions are parsed and compared by hashicorp/go-version, which is the argument `VersionLib`.
pub mod Channel
pub mod Updater
use emly_updater.Base.{
  ◌≡◌, String, Bool, true, false, not, ◌&&◌, ◌||◌, Option, none, some, Result, ok, err, ◌>>=◌, Dict,
  is_blank, str_eq, if◌then◌else◌,
}

-- goversion.NewVersion and Version.LessThan
pub record VersionLib (V : Type 0) : Type 0 where
  pub new_version : String → Option V
  pub less_than : V → V → Bool

-- LessThan is a strict order.
pub record IsStrictOrder {V : Type 0} (lib : VersionLib V) : Type 0 where
  pub irreflexive : (v : V) → lib.less_than v v ≡ false
  pub transitive :
      (u v w : V) → lib.less_than u v ≡ true → lib.less_than v w ≡ true → lib.less_than u w ≡ true
  -- incomparability is transitive
  pub weak :
      (u v w : V) → lib.less_than u w ≡ true → (lib.less_than u v || lib.less_than v w) ≡ true

pub data Error : Type 0 where
  invalid_version : String → Error
  no_target : String → Error
  bad_json : Error
  missing_stable : Error
  no_download : String → Error
  no_checksum : String → Error

pub record DetailedNote : Type 0 where
  pub severity_type : String
  pub description : Dict String

pub record Manifest : Type 0 where
  pub stable_version : String
  pub beta_version : String
  pub stable_download : String
  pub beta_download : String
  pub is_critical : Bool
  pub min_required_version : String
  pub sha256_checksums : Dict String
  pub release_notes : Dict String
  pub detailed_release_notes : Dict DetailedNote

pub record Target : Type 0 where
  pub version : String
  pub download_ref : String
  pub sha256 : String

-- What follows json.Unmarshal in `Parse`; `none` is a decoding error.
unfoldable pub checked : Option Manifest → Result Error Manifest
checked none = err bad_json
checked (some m) =
    if is_blank m.stable_version || is_blank m.stable_download then err missing_stable else ok m

module _ {V : Type 0} (lib : VersionLib V) where
  unfoldable pub parsed : String → Result Error V
  parsed s = elim (lib.new_version s) [ none ↦ err (invalid_version s) | some v ↦ ok v ]

  unfoldable pub less : String → String → Result Error Bool
  unfolding parsed
  less a b = do va ← parsed a; vb ← parsed b; ok (lib.less_than va vb)

  -- the stable target, unless the beta is not strictly older
  newest : Manifest → Bool → Result Error (String × String)
  newest m outdated =
      if outdated
      then ok (m.stable_version, m.stable_download)
      else ok (m.beta_version, m.beta_download)

  unfoldable pub channel_version : Manifest → String → Result Error (String × String)
  unfolding newest
  channel_version m channel =
      if not (str_eq channel "beta")
      then (if is_blank m.stable_version || is_blank m.stable_download
          then err (no_target channel)
          else ok (m.stable_version, m.stable_download))
      else if is_blank m.beta_version || is_blank m.beta_download
      then err (no_target channel)
      else if not (is_blank m.stable_version) && not (is_blank m.stable_download)
      then less m.beta_version m.stable_version >>= newest m
      else ok (m.beta_version, m.beta_download)

  unfoldable pub forced : Manifest → String → Result Error Bool
  forced m installed =
      if m.is_critical
      then ok true
      else if is_blank m.min_required_version
      then ok false
      else less installed m.min_required_version
