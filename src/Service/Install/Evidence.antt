-- ===== src/Service/Install/Evidence.antt =====
-- internal/service/service.go, install: what stands for a setup that may be started.
use emly_updater.Base.{
  ℕ, ◌≡◌, ◌⊎◌, inl, inr, ◌∙◌, some, ok, String, Bool, true, false, not, ◌&&◌, none, some, [], ◌∷◌,
  arith, is_blank, lookup, all, all-append, Option-cases, ltb,
}
use emly_updater.Manifest.{VersionLib, Manifest}
use emly_updater.Source.Resolver.{World as Net}
use emly_updater.State.{Pending}
use emly_updater.Download.{Lib, Files, verify_file}
use emly_updater.Download.Verified.{has_checksum, verify_file-content, verify_file-again}
use emly_updater.Service.Install.Balance.{Claimed}
use emly_updater.Service.Install.{run_setup_and_verify}
use emly_updater.Service.World.{Config, Env, World, Action, ran, killed, act, Attempt, setup_failed}

-- A setup that is started has a checksum that is listed for its version, and is not empty, and it runs
-- under a claim while no destructive command is committed; EMLy is killed only for a forced update.
abbrev pub allowed : (String → String → Bool) → Lib → Action → Bool
allowed listed lib (ran version content sha256 installing pending) =
    listed version sha256
    && not (is_blank sha256)
    && has_checksum lib sha256 content
    && ltb 0 installing
    && not pending
allowed listed lib (killed forced) = forced
allowed listed lib _ = true

-- What the manifests that a network serves list, `listed` has.
abbrev pub Lists : (String → String → Bool) → Net String Manifest → Type 0
Lists listed net =
    (n : ℕ) (source version sha256 : String) (m : Manifest)
    → net.fetch n source ≡ ok m
    → lookup version m.sha256_checksums ≡ some sha256
    → listed version sha256 ≡ true

abbrev pub IsTrusted : (String → String → Bool) → Lib → World → Type 0
IsTrusted listed lib w = all (allowed listed lib) w.actions ≡ true

-- what is at the path has the checksum, or nothing is there; and the checksum is listed
abbrev pub Backed : (String → String → Bool) → Lib → Pending → Files → Type 0
Backed listed lib p files =
    ((lookup p.setup_path files ≡ none) ⊎ (verify_file lib p.setup_path p.sha256 true files ≡ none))
    × (listed p.version p.sha256 ≡ true)

verify_file-nonblank :
    (lib : Lib) (path expected : String) (r : Bool) (files : Files)
    → verify_file lib path expected r files ≡ none
    → is_blank expected ≡ false
unfolding verify_file
verify_file-nonblank lib path expected r files h = ground arith

pub act-IsTrusted :
    (listed : String → String → Bool) (lib : Lib) (a : Action) (w : World)
    → allowed listed lib a ≡ true
    → IsTrusted listed lib w
    → IsTrusted listed lib (act a w)
act-IsTrusted listed lib a w h t =
    ground (arith, all-append (allowed listed lib) w.actions (a ∷ []))

-- A file that is as it was, or gone, is as trustworthy as before.
pub Backed-kept :
    (listed : String → String → Bool) (lib : Lib) (p : Pending) (files files' : Files)
    → (lookup p.setup_path files' ≡ none) ⊎ (lookup p.setup_path files' ≡ lookup p.setup_path files)
    → Backed listed lib p files
    → Backed listed lib p files'
Backed-kept listed lib p files files' (inl gone) (b, l) = (inl gone, l)
Backed-kept listed lib p files files' (inr same) (inl none_there, l) = (inl (same ∙ none_there), l)
Backed-kept listed lib p files files' (inr same) (inr good, l) =
    let (c, at, _) = verify_file-content lib p.setup_path p.sha256 true files good in
    (
      inr (
          verify_file-again lib p.setup_path p.setup_path p.sha256 c true files files' good at
            (same ∙ at)),
      l,
    )

module _ {V : Type 0} (lib : VersionLib V) (cfg : Config) (env : Env) where
  pub run-gone :
      (a : Attempt) (p : Pending) (w : World)
      → lookup p.setup_path w.files ≡ none
      → run_setup_and_verify lib cfg env a p w ≡ (w, some setup_failed)
  unfolding run_setup_and_verify
  run-gone a p w h = ground arith

  pub run-there :
      (a : Attempt) (p : Pending) (w : World) (content : String)
      → lookup p.setup_path w.files ≡ some content
      → (run_setup_and_verify lib cfg env a p w).0
        ≡ act (ran p.version content p.sha256 w.power.installing w.power.pending) w
  unfolding run_setup_and_verify
  run-there a p w content h = ground arith

module _ {V : Type 0} (lib : VersionLib V) (cfg : Config) (env : Env)
    (listed : String → String → Bool) where
  pub allowed-ran :
      (p : Pending) (content : String) (n : ℕ) (w : World)
      → Claimed n w.power
      → lookup p.setup_path w.files ≡ some content
      → verify_file cfg.lib p.setup_path p.sha256 true w.files ≡ none
      → listed p.version p.sha256 ≡ true
      → allowed listed cfg.lib (ran p.version content p.sha256 w.power.installing w.power.pending)
        ≡ true
  allowed-ran p content n w c at good l =
      let (d, found, fits) = verify_file-content cfg.lib p.setup_path p.sha256 true w.files good in
      ground (arith, verify_file-nonblank cfg.lib p.setup_path p.sha256 true w.files good)

  pub run-IsTrusted :
      (a : Attempt) (p : Pending) (n : ℕ) (w : World)
      → Claimed n w.power
      → Backed listed cfg.lib p w.files
      → IsTrusted listed cfg.lib w
      → IsTrusted listed cfg.lib (run_setup_and_verify lib cfg env a p w).0
  run-IsTrusted a p n w c b t = elim (Option-cases (lookup p.setup_path w.files)) [
    | inl gone ↦ rw (run-gone lib cfg env a p w gone) t
    | inr (content, at) ↦ elim b.0 [
      | inl gone ↦ absurd (ground arith)
      | inr good ↦ rw (run-there lib cfg env a p w content at) (
          act-IsTrusted listed cfg.lib
            (ran p.version content p.sha256 w.power.installing w.power.pending) w
            (allowed-ran p content n w c at good b.1) t)
    ]
  ]
