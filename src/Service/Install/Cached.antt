-- ===== src/Service/Install/Cached.antt =====
-- internal/service/service.go, install: where the pending update's setup is.
use emly_updater.Base.{
  ◌≡◌, inl, inr, refl, sym, String, Bool, true, false, Option, none, some, Result, ok, err, arith,
  subst, is_some, Bool-cases,
}
use emly_updater.Manifest.{VersionLib, Manifest, Target}
use emly_updater.State.{Pending, Dir, Io, set_pending, clear_pending, update, with_pending}
use emly_updater.State.Atomic.{document, update_atomic}
use emly_updater.Download.{setup_path, verify_file, ensure}
use emly_updater.Download as Download
use emly_updater.Download.Verified.{ensure-IsVerified}
use emly_updater.Service.Targets as Targets
use emly_updater.Service.Power.{begin_install}
use emly_updater.Service.Install.Evidence.{Lists}
use emly_updater.Service.Install.Trusted.{Listed, resolved-Listed}
use emly_updater.Service.Install.{
  arrive, sweep, emit_failed, run_setup_and_verify, succeed, settled, reinstall, after_first,
  refuse, install_claimed, install, force_redownload, refetched, redownloaded, wiped, or_cached,
  event,
}
use emly_updater.Service.World.{
  Config, Env, World, at_setup, at_reinstall, at_install, moves, act, Attempt, first, clean,
  redownload, wipes, requeues, Failure, UpdateEvent, refuses, started, uninstalled,
}

-- The setup of a pending update stands at the cache path of its version, and has a listed checksum.
abbrev pub IsCached : (String → String → Bool) → Config → Option Pending → Type 0
IsCached listed cfg none = Unit {0}
IsCached listed cfg (some p) =
    (p.setup_path ≡ setup_path cfg.lib cfg.downloads p.version) × (listed p.version p.sha256 ≡ true)

abbrev pub pending_of : World → Option Pending
pending_of w = (document w.store.state_file).pending

update-IsCached :
    (listed : String → String → Bool) (cfg : Config) (q : Option Pending) (io : Io) (d : Dir)
    → IsCached listed cfg q
    → IsCached listed cfg (document d.state_file).pending
    → IsCached listed cfg (document (update (with_pending q) io d).0.state_file).pending
update-IsCached listed cfg q io d new old = elim (update_atomic (with_pending q) io d) [
  | inl (_, saved) ↦ rw saved new
  | inr (_, kept) ↦ rw kept old
]

module _ (listed : String → String → Bool) (cfg : Config) where
  pub clear_pending-IsCached :
      (io : Io) (d : Dir)
      → IsCached listed cfg (document d.state_file).pending
      → IsCached listed cfg (document (clear_pending io d).0.state_file).pending
  unfolding clear_pending
  clear_pending-IsCached io d old = update-IsCached listed cfg none io d tt old

  pub set_pending-IsCached :
      (p : Pending) (io : Io) (d : Dir)
      → IsCached listed cfg (some p)
      → IsCached listed cfg (document d.state_file).pending
      → IsCached listed cfg (document (set_pending p io d).0.state_file).pending
  unfolding set_pending
  set_pending-IsCached p io d new old = update-IsCached listed cfg (some p) io d new old

module _ {V : Type 0} (lib : VersionLib V) (cfg : Config) (env : Env)
    (listed : String → String → Bool) where
  emit_failed-store : (e : UpdateEvent) (w : World) → (emit_failed e w).store ≡ w.store
  unfolding emit_failed
  emit_failed-store e w = ground arith

  run-store :
      (a : Attempt) (p : Pending) (w : World)
      → (run_setup_and_verify lib cfg env a p w).0.store ≡ w.store
  unfolding run_setup_and_verify
  run-store a p w = ground arith

  emit_failed-IsCached :
      (e : UpdateEvent) (w : World)
      → IsCached listed cfg (pending_of w)
      → IsCached listed cfg (pending_of (emit_failed e w))
  emit_failed-IsCached e w old = rw (emit_failed-store e w) old

  run-IsCached :
      (a : Attempt) (p : Pending) (w : World)
      → IsCached listed cfg (pending_of w)
      → IsCached listed cfg (pending_of (run_setup_and_verify lib cfg env a p w).0)
  run-IsCached a p w old =
      subst (λ d. IsCached listed cfg (document d.state_file).pending) (sym (run-store a p w)) old

  redownloaded-IsCached :
      (p : Pending) (t : Target) (r : Result Download.Error String) (w : World)
      → ((path : String) → r ≡ ok path → path ≡ setup_path cfg.lib cfg.downloads t.version)
      → listed t.version t.sha256 ≡ true
      → IsCached listed cfg (pending_of w)
      → IsCached listed cfg (pending_of (redownloaded lib cfg env p t r w).0)
  unfolding redownloaded
  redownloaded-IsCached p t (err e) w at l old = old
  redownloaded-IsCached p t (ok path) w at l old =
      set_pending-IsCached listed cfg _ (env.io requeues) w.store (at path refl, l) old

  refetched-IsCached :
      (p : Pending) (r : Result Targets.Error (String × Manifest × Target)) (w : World)
      → Listed lib cfg env listed r
      → IsCached listed cfg (pending_of w)
      → IsCached listed cfg (pending_of (refetched lib cfg env p r w).0)
  unfolding refetched
  refetched-IsCached p (err e) w l old = old
  refetched-IsCached p (ok (source, m, t)) w l old =
      let io = env.ensure_io redownload in
      let (files, r) = ensure cfg.lib cfg.downloads io t w.files in
      redownloaded-IsCached p t r (record w { files = files })
        (λ path h.
          let (same, good) = ensure-IsVerified cfg.lib cfg.downloads io t w.files path h in same)
        (l source m t refl) old

  succeed-IsCached :
      (p : Pending) (re : Bool) (trigger : String) (w : World)
      → IsCached listed cfg (pending_of w)
      → IsCached listed cfg (pending_of (succeed lib cfg env p re trigger w).0)
  unfolding succeed sweep
  succeed-IsCached p re trigger w old = clear_pending-IsCached listed cfg _ w.store old

  settled-IsCached :
      (p : Pending) (trigger : String) (r : World × Option Failure)
      → IsCached listed cfg (pending_of r.0)
      → IsCached listed cfg (pending_of (settled lib cfg env p trigger r).0)
  unfolding settled
  settled-IsCached p trigger (w, none) old = succeed-IsCached p true trigger w old
  settled-IsCached p trigger (w, some f) old = emit_failed-IsCached _ w old

  force_redownload-IsCached :
      (p : Pending) (w : World)
      → Lists listed (env.net redownload)
      → IsCached listed cfg (pending_of w)
      → IsCached listed cfg (pending_of (force_redownload lib cfg env p w).0)
  unfolding force_redownload wiped sweep
  force_redownload-IsCached p w lists old =
      refetched-IsCached p _ _
        (resolved-Listed lib cfg env listed (env.net redownload) (wiped lib cfg env w).preferred
          lists)
        (clear_pending-IsCached listed cfg (env.io wipes) w.store old)

  refuse-IsCached :
      (p : Pending) (w : World)
      → IsCached listed cfg (pending_of w)
      → IsCached listed cfg (pending_of (refuse lib cfg env p w).0)
  unfolding refuse
  refuse-IsCached p w old =
      emit_failed-IsCached _ _ (clear_pending-IsCached listed cfg (env.io refuses) w.store old)

  reinstall-IsCached :
      (p : Pending) (trigger : String) (w : World)
      → Lists listed (env.net redownload)
      → IsCached listed cfg (pending_of w)
      → IsCached listed cfg (pending_of (reinstall lib cfg env p trigger w).0)
  unfolding reinstall arrive
  reinstall-IsCached p trigger w lists old =
      let (w', fresh) = force_redownload lib cfg env p w in
      let p' = or_cached lib cfg env p fresh in
      let begun = arrive lib cfg env at_reinstall (act uninstalled w') in
      settled-IsCached p' trigger (run_setup_and_verify lib cfg env clean p' begun)
        (run-IsCached clean p' begun (force_redownload-IsCached p w lists old))

  after_first-IsCached :
      (p : Pending) (trigger : String) (r : World × Option Failure)
      → Lists listed (env.net redownload)
      → IsCached listed cfg (pending_of r.0)
      → IsCached listed cfg (pending_of (after_first lib cfg env p trigger r).0)
  unfolding after_first
  after_first-IsCached p trigger (w, none) lists old = succeed-IsCached p false trigger w old
  after_first-IsCached p trigger (w, some f) lists old = reinstall-IsCached p trigger w lists old

  install_claimed-IsCached :
      (p : Pending) (trigger : String) (w : World)
      → Lists listed (env.net redownload)
      → IsCached listed cfg (pending_of w)
      → IsCached listed cfg (pending_of (install_claimed lib cfg env p trigger w).0)
  unfolding install_claimed arrive
  install_claimed-IsCached p trigger w lists old =
      let bad = is_some (verify_file cfg.lib p.setup_path p.sha256 (env.read_ok refuses) w.files) in
      let begun =
        arrive lib cfg env at_setup
          (act (started (event lib cfg env p p.forced 1 false false trigger "")) w) in
      elim (Bool-cases bad) [
        | inl e ↦ rw e (refuse-IsCached p w old)
        | inr e ↦ rw e (
            after_first-IsCached p trigger (run_setup_and_verify lib cfg env first p begun) lists
              (run-IsCached first p begun old))
      ]

  pub install-IsCached :
      (p : Pending) (trigger : String) (w : World)
      → Lists listed (env.net redownload)
      → IsCached listed cfg (pending_of w)
      → IsCached listed cfg (pending_of (install lib cfg env p trigger w).0)
  unfolding install arrive
  install-IsCached p trigger w lists old =
      let s = moves (env.others at_install) w.power in
      let now = env.clock at_install in
      let writable = env.writable at_install in
      elim (Bool-cases (begin_install now writable s).1) [
        | inr e ↦ rw e old
        | inl e ↦ rw e (
            install_claimed-IsCached p trigger
              (record w { power = (begin_install now writable s).0 }) lists old)
      ]
