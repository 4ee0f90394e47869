-- ===== src/Service/Install/Trusted.antt =====
-- internal/service/service.go, install: which setups are started.
use emly_updater.Base.{
  ℕ, ◌≡◌, inl, inr, refl, sym, String, Bool, true, false, Option, none, some, Result, ok, err, [],
  ◌∷◌, arith, subst, all-append, Bool-cases, Option-cases, ◌<>◌, str_eq,
}
use emly_updater.Manifest.{VersionLib, Manifest, Target}
use emly_updater.State.{Pending}
use emly_updater.Download.{
  Lib, Files, Listing, absent, unlisted, listed, verify_file, setup_path, ensure, cleanup_except,
  remove,
}
use emly_updater.Download as Download
use emly_updater.Download.Verified.{
  verify_file-content, verify_file-again, ensure-IsVerified, ensure_failed,
}
use emly_updater.Download.Cleanup.{cleanup_except_kept}
use emly_updater.Service.Targets as Targets
use emly_updater.Service.Targets.{resolve_target_with}
use emly_updater.Service.Targets.Chosen.{resolve_target_with-Targets}
use emly_updater.Source.Resolver.{World as Net}
use emly_updater.Service.Power.{begin_install}
use emly_updater.Service.Install.Balance.{
  Claimed, run-power, moves-Claimed, begin_install-Claimed, force_redownload-power,
}
use emly_updater.Service.Install.{
  arrive, sweep, emit_failed, run_setup_and_verify, succeed, settled, reinstall, after_first,
  refuse, install_claimed, install, force_redownload, refetched, redownloaded, wiped, or_cached,
  event,
}
use emly_updater.Service.World.{
  Config, Env, World, uninstalled, started, at_setup, at_reinstall, at_install, moves, act, Attempt,
  first, clean, wipes, redownload, Failure, failed, UpdateEvent, refuses,
}
use emly_updater.Service.Install.Evidence.{
  allowed, Lists, IsTrusted, Backed, act-IsTrusted, Backed-kept, run-IsTrusted,
}

module _ {V : Type 0} (lib : VersionLib V) (cfg : Config) (env : Env)
    (listed : String → String → Bool) where
  emit_failed-IsTrusted :
      (e : UpdateEvent) (w : World)
      → IsTrusted listed cfg.lib w
      → IsTrusted listed cfg.lib (emit_failed e w)
  unfolding emit_failed
  emit_failed-IsTrusted e w t =
      ground (arith, all-append (allowed listed cfg.lib) w.actions (failed e ∷ []))

  settled-IsTrusted :
      (p : Pending) (trigger : String) (r : World × Option Failure)
      → IsTrusted listed cfg.lib r.0
      → IsTrusted listed cfg.lib (settled lib cfg env p trigger r).0
  unfolding settled succeed sweep
  settled-IsTrusted p trigger (w, none) t = act-IsTrusted listed cfg.lib _ w refl t
  settled-IsTrusted p trigger (w, some f) t = emit_failed-IsTrusted _ w t

  redownloaded-Backed :
      (p : Pending) (t : Target) (r : Result Download.Error String) (w : World)
      → ((e : Download.Error) → r ≡ err e → Backed listed cfg.lib p w.files)
      → ((path : String) → r ≡ ok path → verify_file cfg.lib path t.sha256 true w.files ≡ none)
      → listed t.version t.sha256 ≡ true
      → Backed listed cfg.lib
          (or_cached lib cfg env p (redownloaded lib cfg env p t r w).1)
          (redownloaded lib cfg env p t r w).0.files
  unfolding redownloaded or_cached
  redownloaded-Backed p t (err e) w bad good l = bad e refl
  redownloaded-Backed p t (ok path) w bad good l = (inr (good path refl), l)

  -- the checksum of a target that was resolved is listed for its version
  abbrev pub Listed : Result Targets.Error (String × Manifest × Target) → Type 0
  Listed r =
      (source : String) (m : Manifest) (t : Target)
      → r ≡ ok (source, m, t)
      → listed t.version t.sha256 ≡ true

  pub resolved-Listed :
      (net : Net String Manifest) (p : Option String)
      → Lists listed net
      → Listed
          (resolve_target_with lib net cfg.url cfg.settings cfg.chain cfg.info.channel true
            p).result
  resolved-Listed net p lists source m t h =
      let (_, (n, served), (_, sum, _)) =
        resolve_target_with-Targets lib net cfg.url cfg.settings cfg.chain cfg.info.channel true p
          source m t h in
      lists n source t.version t.sha256 m served sum

  refetched-Backed :
      (p : Pending) (r : Result Targets.Error (String × Manifest × Target)) (w : World)
      → ((v : String)
          → str_eq (setup_path cfg.lib cfg.downloads v <> ".partial") p.setup_path ≡ false)
      → Listed r
      → Backed listed cfg.lib p w.files
      → Backed listed cfg.lib
          (or_cached lib cfg env p (refetched lib cfg env p r w).1)
          (refetched lib cfg env p r w).0.files
  unfolding refetched or_cached
  refetched-Backed p (err e) w apart l b = b
  refetched-Backed p (ok (source, m, t)) w apart l b =
      let io = env.ensure_io redownload in
      let (files, r) = ensure cfg.lib cfg.downloads io t w.files in
      redownloaded-Backed p t r (record w { files = files })
        (λ e h.
          Backed-kept listed cfg.lib p w.files files
            (ensure_failed cfg.lib cfg.downloads io t w.files p.setup_path e (apart t.version) h) b)
        (λ path h.
          let (same, good) = ensure-IsVerified cfg.lib cfg.downloads io t w.files path h in good)
        (l source m t refl)

  -- the setup that the second run starts
  force_redownload-Backed :
      (p : Pending) (w : World)
      → ((v : String)
          → str_eq (setup_path cfg.lib cfg.downloads v <> ".partial") p.setup_path ≡ false)
      → Lists listed (env.net redownload)
      → Backed listed cfg.lib p w.files
      → let (w', fresh) = force_redownload lib cfg env p w in
        Backed listed cfg.lib (or_cached lib cfg env p fresh) w'.files
  unfolding force_redownload wiped sweep
  force_redownload-Backed p w apart lists b =
      refetched-Backed p _ _ apart
        (resolved-Listed (env.net redownload) (wiped lib cfg env w).preferred lists)
        (Backed-kept listed cfg.lib p w.files _
          (cleanup_except_kept cfg.lib cfg.downloads (env.removed wipes) "" p.setup_path
            (env.listing wipes) w.files)
          b)

  force_redownload-actions :
      (p : Pending) (w : World) → (force_redownload lib cfg env p w).0.actions ≡ w.actions
  unfolding force_redownload refetched redownloaded wiped sweep
  force_redownload-actions p w = ground arith

  reinstall-IsTrusted :
      (p : Pending) (trigger : String) (n : ℕ) (w : World)
      → ((v : String)
          → str_eq (setup_path cfg.lib cfg.downloads v <> ".partial") p.setup_path ≡ false)
      → Lists listed (env.net redownload)
      → Claimed n w.power
      → Backed listed cfg.lib p w.files
      → IsTrusted listed cfg.lib w
      → IsTrusted listed cfg.lib (reinstall lib cfg env p trigger w).0
  unfolding reinstall arrive
  reinstall-IsTrusted p trigger n w apart lists c b t =
      let (w', fresh) = force_redownload lib cfg env p w in
      let p' = or_cached lib cfg env p fresh in
      let begun = arrive lib cfg env at_reinstall (act uninstalled w') in
      settled-IsTrusted p' trigger (run_setup_and_verify lib cfg env clean p' begun) (
        run-IsTrusted lib cfg env listed clean p' n begun
          (moves-Claimed (env.others at_reinstall) n w'.power
            (subst (Claimed n) (sym (force_redownload-power lib cfg env p w)) c))
          (force_redownload-Backed p w apart lists b)
          (act-IsTrusted listed cfg.lib uninstalled w' refl (rw (force_redownload-actions p w) t)))

  after_first-IsTrusted :
      (p : Pending) (trigger : String) (n : ℕ) (r : World × Option Failure)
      → ((v : String)
          → str_eq (setup_path cfg.lib cfg.downloads v <> ".partial") p.setup_path ≡ false)
      → Lists listed (env.net redownload)
      → Claimed n r.0.power
      → Backed listed cfg.lib p r.0.files
      → IsTrusted listed cfg.lib r.0
      → IsTrusted listed cfg.lib (after_first lib cfg env p trigger r).0
  unfolding after_first succeed sweep
  after_first-IsTrusted p trigger n (w, none) apart lists c b t =
      act-IsTrusted listed cfg.lib _ w refl t
  after_first-IsTrusted p trigger n (w, some f) apart lists c b t =
      reinstall-IsTrusted p trigger n w apart lists c b t

  run-files :
      (a : Attempt) (p : Pending) (w : World)
      → (run_setup_and_verify lib cfg env a p w).0.files ≡ w.files
  unfolding run_setup_and_verify
  run-files a p w = ground arith

  install_claimed-IsTrusted :
      (p : Pending) (trigger : String) (n : ℕ) (w : World)
      → ((v : String)
          → str_eq (setup_path cfg.lib cfg.downloads v <> ".partial") p.setup_path ≡ false)
      → Lists listed (env.net redownload)
      → listed p.version p.sha256 ≡ true
      → Claimed n w.power
      → IsTrusted listed cfg.lib w
      → IsTrusted listed cfg.lib (install_claimed lib cfg env p trigger w).0
  unfolding install_claimed arrive refuse
  install_claimed-IsTrusted p trigger n w apart lists l c t =
      let read = env.read_ok refuses in
      let begun =
        arrive lib cfg env at_setup
          (act (started (event lib cfg env p p.forced 1 false false trigger "")) w) in
      elim (Option-cases (verify_file cfg.lib p.setup_path p.sha256 read w.files)) [
        | inr (e, bad) ↦ rw bad (emit_failed-IsTrusted _ _ t)
        | inl good ↦
            let (x, at, _) = verify_file-content cfg.lib p.setup_path p.sha256 read w.files good in
            let backed : Backed listed cfg.lib p w.files = (
              inr (
                  verify_file-again cfg.lib p.setup_path p.setup_path p.sha256 x read w.files
                    w.files good at at),
              l,
            ) in
            let claimed = moves-Claimed (env.others at_setup) n w.power c in
            let r = run_setup_and_verify lib cfg env first p begun in
            rw good (
              after_first-IsTrusted p trigger n r apart lists
                (subst (Claimed n) (sym (run-power lib cfg env first p begun)) claimed)
                (subst (Backed listed cfg.lib p) (sym (run-files first p begun)) backed)
                (run-IsTrusted lib cfg env listed first p n begun claimed backed
                  (act-IsTrusted listed cfg.lib _ w refl t)))
      ]

  -- Every setup that an install of a listed update starts, the clean reinstall after a failed first run
  -- included, has a checksum that is listed for its version, and runs under a claim while no destructive command is
  -- committed, whatever the command goroutines do meanwhile.
  pub install-IsTrusted :
      (p : Pending) (trigger : String) (w : World)
      → ((v : String)
          → str_eq (setup_path cfg.lib cfg.downloads v <> ".partial") p.setup_path ≡ false)
      → Lists listed (env.net redownload)
      → listed p.version p.sha256 ≡ true
      → IsTrusted listed cfg.lib w
      → IsTrusted listed cfg.lib (install lib cfg env p trigger w).0
  unfolding install arrive
  install-IsTrusted p trigger w apart lists l t =
      let s = moves (env.others at_install) w.power in
      let now = env.clock at_install in
      let writable = env.writable at_install in
      elim (Bool-cases (begin_install now writable s).1) [
        | inr e ↦ rw e t
        | inl e ↦ rw e (
            install_claimed-IsTrusted p trigger s.installing
              (record w { power = (begin_install now writable s).0 }) apart lists l
              (begin_install-Claimed now writable s e) t)
      ]
