-- ===== src/Service/Install.antt =====
-- internal/service/service.go: install, forceRedownload and runSetupAndVerify, with the runs of
-- internal/installer/installer.go. The toast and the repair of the file associations that follow a
-- success are left out, and so is logging.
pub mod Balance
pub mod Evidence
pub mod Trusted
pub mod Cached
pub mod Outcomes
use emly_updater.Base.{
  ℕ, ◌+◌, ◌≡◌, String, Bool, true, false, not, ◌&&◌, ◌||◌, Option, none, some, Result, ok, err,
  List, [], ◌∷◌, ◌++◌, Dict, lookup, is_blank, is_some, ltb, if◌then◌else◌,
}
use emly_updater.Manifest.{VersionLib, Manifest, less}
use emly_updater.Manifest as Manifest
use emly_updater.State.{Pending, Dir, set_pending, clear_pending}
use emly_updater.State as StateFile
use emly_updater.Download.{
  Lib, Manager, Files, Listing, ensure, verify_file, cleanup_except, remove,
}
use emly_updater.Download as Download
use emly_updater.Source.Resolver.{World as Net}
use emly_updater.Service.Announcements.{UpdateFailedKey, mark_update_failed}
use emly_updater.Service.Power.{
  commit_destructive, clear_destructive_pending, add_pending, remove_pending, begin_install,
  end_install, destructive_pending_now,
}
use emly_updater.Service.Power as Power
use emly_updater.Service.Targets.{Settings, resolve_target_with}
use emly_updater.Service.Targets as Targets
use emly_updater.Service.World.{
  Info, Move, moves, Point, at_gate, at_apply, at_kill, at_install, at_setup, at_reinstall, Call,
  drops_invalid, drops_satisfied, drops_corrupt, queues, refuses, wipes, requeues, completes, idles,
  Round, poll, redownload, Attempt, first, clean, UpdateEvent, Action, ran, uninstalled, killed,
  told, available, started, applied, failed, World, act, Config, Env, Failure, setup_failed,
  not_verified, Error, skipped, refused, install_failed, not_resolved, not_downloaded, bad_version,
  stopped,
}

unfoldable pub install_failure_code : Failure → String
install_failure_code not_verified = "version_mismatch"
install_failure_code setup_failed = "setup_exit_code"

abbrev pub write : StateFile.Dir × Option StateFile.Error × Bool → World → World
write r w = record w { store = r.0 }

-- emitUpdateFailed, for EMLy
unfoldable pub emit_failed : UpdateEvent → World → World
emit_failed e w =
    let key : UpdateFailedKey = record {
      target = "emly";
      to_version = e.to_version;
      attempt = e.attempt;
      code = e.code;
    } in
    let (keys, fresh) = mark_update_failed key w.failures in
    if fresh then act (failed e) (record w { failures = keys }) else record w { failures = keys }

module _ {V : Type 0} (lib : VersionLib V) (cfg : Config) (env : Env) where
  unfoldable pub arrive : Point → World → World
  arrive p w = record w { power = moves (env.others p) w.power }

  unfoldable pub sweep : Call → String → World → World
  sweep c version w = record w {
    files =
        (cleanup_except cfg.lib cfg.downloads (env.removed c) version (env.listing c) w.files).0;
  }

  unfoldable pub from_version : String
  from_version = if cfg.info.fresh_install then "" else cfg.info.installed_version

  abbrev pub event : Pending → Bool → ℕ → Bool → Bool → String → String → UpdateEvent
  event p forced attempt reinstalled will_retry trigger code = record {
    from_version = from_version;
    to_version = p.version;
    forced = forced;
    attempt = attempt;
    trigger = trigger;
    reinstalled = reinstalled;
    will_retry = will_retry;
    code = code;
  }

  -- VerifyInstalled: a version that cannot be read or compared, and an older one, are failures.
  unfoldable pub verify_installed : Attempt → String → Option Failure
  verify_installed a expected = elim (env.config_after a) [
    | none ↦ some not_verified
    | some v ↦ elim (less lib v expected) [
      | err _ ↦ some not_verified
      | ok older ↦ if older then some not_verified else none
    ]
  ]

  -- A setup that is not there cannot be started.
  unfoldable pub run_setup_and_verify : Attempt → Pending → World → World × Option Failure
  unfolding verify_installed
  run_setup_and_verify a p w = elim (lookup p.setup_path w.files) [
    | none ↦ (w, some setup_failed)
    | some content ↦ (
      act (ran p.version content p.sha256 w.power.installing w.power.pending) w,
      if env.exits a then verify_installed a p.version else some setup_failed,
    )
  ]

  -- forceRedownload, from the answer of Ensure on
  unfoldable pub redownloaded :
      Pending
      → Manifest.Target
      → Result Download.Error String
      → World
      → World × Result Error Pending
  redownloaded p t (err e) w = (w, err (not_downloaded e))
  redownloaded p t (ok path) w =
      let fresh : Pending = record {
        version = t.version;
        setup_path = path;
        sha256 = t.sha256;
        forced = p.forced;
        downloaded_at = env.clock at_reinstall;
      } in
      (write (set_pending fresh (env.io requeues) w.store) w, ok fresh)

  unfoldable pub refetched :
      Pending
      → Result Targets.Error (String × Manifest × Manifest.Target)
      → World
      → World × Result Error Pending
  refetched p (err e) w = (w, err (not_resolved e))
  refetched p (ok (_, _, t)) w =
      let (files, r) = ensure cfg.lib cfg.downloads (env.ensure_io redownload) t w.files in
      redownloaded p t r (record w { files = files })

  unfoldable pub wiped : World → World
  wiped w = let w' = sweep wipes "" w in write (clear_pending (env.io wipes) w'.store) w'

  unfoldable pub force_redownload : Pending → World → World × Result Error Pending
  force_redownload p w =
      let w' = wiped w in
      let r =
        resolve_target_with lib (env.net redownload) cfg.url cfg.settings cfg.chain cfg.info.channel
          true w'.preferred in
      refetched p r.result (record w' { preferred = r.preferred })

  unfoldable pub succeed : Pending → Bool → String → World → World × Option Error
  succeed p reinstalled trigger w =
      let w' =
        act (applied (event p p.forced (if reinstalled then 2 else 1) reinstalled false trigger ""))
          w in
      let w'' = write (clear_pending (env.io completes) w'.store) w' in
      (sweep completes p.version w'', none)

  -- after the second run
  unfoldable pub settled : Pending → String → World × Option Failure → World × Option Error
  settled p trigger (w, none) = succeed p true trigger w
  settled p trigger (w, some f) = (
    emit_failed (event p false 2 false true "" (install_failure_code f)) w,
    some (install_failed f),
  )

  unfoldable pub or_cached : Pending → Result Error Pending → Pending
  or_cached p (ok fresh) = fresh
  or_cached p (err _) = p

  unfoldable pub reinstall : Pending → String → World → World × Option Error
  reinstall p trigger w =
      let (w', fresh) = force_redownload p w in
      let p' = or_cached p fresh in
      settled p' trigger (run_setup_and_verify clean p' (arrive at_reinstall (act uninstalled w')))

  unfoldable pub after_first : Pending → String → World × Option Failure → World × Option Error
  after_first p trigger (w, none) = succeed p false trigger w
  after_first p trigger (w, some f) = reinstall p trigger w

  unfoldable pub refuse : Pending → World → World × Option Error
  refuse p w =
      let w' = record w {
        files = remove (env.removed refuses p.setup_path) p.setup_path w.files;
      } in
      let w'' = write (clear_pending (env.io refuses) w'.store) w' in
      (emit_failed (event p false 0 false true "" "checksum_mismatch") w'', some refused)

  -- what stands between beginInstall and endInstall
  unfoldable pub install_claimed : Pending → String → World → World × Option Error
  install_claimed p trigger w =
      if is_some (verify_file cfg.lib p.setup_path p.sha256 (env.read_ok refuses) w.files)
      then refuse p w
      else after_first p trigger (
          run_setup_and_verify first p
            (arrive at_setup (act (started (event p p.forced 1 false false trigger "")) w)))

  unfoldable pub install : Pending → String → World → World × Option Error
  install p trigger w =
      let w' = arrive at_install w in
      let (power, begun) =
        begin_install (env.clock at_install) (env.writable at_install) w'.power in
      let w'' = record w' { power = power } in
      if not begun
      then (w'', some skipped)
      else (let (done, e) = install_claimed p trigger w'' in
          (record done { power = end_install done.power }, e))
