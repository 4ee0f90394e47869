-- ===== src/Service/Cycle/Queue.antt =====
-- internal/service/service.go: an update that waits for EMLy to close, over a stop of the service.
use emly_updater.Base.{
  ◌≡◌, refl, ◌∙◌, ap, subst, inl, inr, String, Bool, true, false, not, ◌&&◌, Option, none, some,
  Result, ok, err, arith, if_intro, Bool-cases, is_some,
}
use emly_updater.Manifest.{VersionLib, Target, less}
use emly_updater.State.{Pending, State, Io, load, stored, set_pending, with_pending}
use emly_updater.State as StateFile
use emly_updater.State.Atomic.{document, update_atomic, load-document}
use emly_updater.Download.{verify_file, ensure, setup_path}
use emly_updater.Download as Download
use emly_updater.Download.Verified.{ensure-IsVerified}
use emly_updater.Service.Power.{begin_install}
use emly_updater.Service.Install.{
  arrive, install, install_claimed, after_first, reinstall, settled, succeed, refuse,
}
use emly_updater.Service.World.{
  Config, World, Error, stopped, Failure, at_apply, at_gate, at_kill, at_install, queues, poll,
  drops_corrupt, refuses,
}
use emly_updater.Service.Cycle.{
  Asks, ended, trigger_of, announce, or_fresh, loaded, check, apply_forced, apply, resume_needed,
  resume_compared, resume, queued, downloaded, fetch, go_on, self_update, cycle, Facts, under,
}

is_stopped : Option Error → Bool
is_stopped (some stopped) = true
is_stopped _ = false

module _ {V : Type 0} (lib : VersionLib V) (cfg : Config) (asks : Asks) where
  -- An install never ends because the service stops: it waits for nothing that a stop interrupts.
  settled-Ends :
      (p : Pending) (trigger : String) (r : World × Option Failure)
      → is_stopped (settled lib cfg asks.env p trigger r).1 ≡ false
  unfolding settled succeed is_stopped
  settled-Ends p trigger (w, none) = refl
  settled-Ends p trigger (w, some f) = refl

  after_first-Ends :
      (p : Pending) (trigger : String) (r : World × Option Failure)
      → is_stopped (after_first lib cfg asks.env p trigger r).1 ≡ false
  unfolding after_first reinstall succeed is_stopped
  after_first-Ends p trigger (w, none) = refl
  after_first-Ends p trigger (w, some f) = settled-Ends _ trigger _

  abbrev Ends : World × Option Error → Type 0
  Ends r = is_stopped r.1 ≡ false

  install_claimed-Ends :
      (p : Pending) (trigger : String) (w : World)
      → Ends (install_claimed lib cfg asks.env p trigger w)
  unfolding install_claimed refuse is_stopped
  install_claimed-Ends p trigger w =
      let read = asks.env.read_ok refuses in
      elim (Bool-cases (is_some (verify_file cfg.lib p.setup_path p.sha256 read w.files))) [
        | inl e ↦ rw e refl
        | inr e ↦ rw e (after_first-Ends p trigger _)
      ]

  install-Ends :
      (p : Pending) (trigger : String) (w : World) → Ends (install lib cfg asks.env p trigger w)
  unfolding install is_stopped
  install-Ends p trigger w =
      let s = arrive lib cfg asks.env at_install w in
      let now = asks.env.clock at_install in
      let (power, begun) = begin_install now (asks.env.writable at_install) s.power in
      elim (Bool-cases begun) [
        | inr e ↦ rw e refl
        | inl e ↦ rw e (install_claimed-Ends p trigger (record s { power = power }))
      ]

  -- An update whose wait is stopped leaves the queue and the files alone.
  abbrev Waits : World → World × Option Error → Type 0
  Waits w r = is_stopped r.1 ≡ true → (r.0.store ≡ w.store) × (r.0.files ≡ w.files)

  installs :
      (p : Pending) (trigger : String) (w w' : World)
      → Waits w (install lib cfg asks.env p trigger w')
  installs p trigger w w' h = absurd (ground (arith, install-Ends p trigger w'))

  apply_forced-Waits :
      (p : Pending) (trigger : String) (w : World) → Waits w (apply_forced lib cfg asks p trigger w)
  unfolding apply_forced check arrive
  apply_forced-Waits p trigger w =
      if_intro (Waits w) (asks.warning && asks.shown && asks.cut_short) (λ _ _. (refl, refl))
        λ _.
          if_intro (Waits w) (check lib cfg asks at_kill w).1 (λ _ _. (refl, refl))
            λ _. installs p trigger w _

  apply-Waits :
      (p : Pending) (trigger : String) (w : World) → Waits w (apply lib cfg asks p trigger w)
  unfolding apply check arrive
  apply-Waits p trigger w =
      let w' = (check lib cfg asks at_apply w).0 in
      if_intro (Waits w) (check lib cfg asks at_apply w).1 (λ _ _. (refl, refl))
        λ _.
          if_intro (Waits w) (not asks.running) (λ _. installs p trigger w w')
            λ _.
              if_intro (Waits w) p.forced (λ _. apply_forced-Waits p trigger w')
                λ _.
                  if_intro (Waits w) asks.exited (λ _. installs p trigger w w') λ _ _. (refl, refl)

  -- what is queued for the next cycle
  abbrev pub Queued : World → Pending → Type 0
  Queued w p =
      ((document w.store.state_file).pending ≡ some p)
      × (verify_file cfg.lib p.setup_path p.sha256 true w.files ≡ none)

  set_pending-Queued :
      (p : Pending) (io : Io) (d : StateFile.Dir)
      → (set_pending p io d).1 ≡ none
      → (document (set_pending p io d).0.state_file).pending ≡ some p
  unfolding set_pending
  set_pending-Queued p io d h = elim (update_atomic (with_pending (some p)) io d) [
    | inl (_, saved) ↦ rw saved refl
    | inr (failed_write, _) ↦ absurd (failed_write h)
  ]

  -- the update that is queued, its setup at the cache path of its version
  abbrev pub queued_at : Target → Bool → Pending
  queued_at t force = queued lib cfg asks t force (setup_path cfg.lib cfg.downloads t.version)

  downloaded-Queued :
      (t : Target) (force : Bool) (r : Result Download.Error String) (w : World)
      → ((path : String)
          → r ≡ ok path
          → (path ≡ setup_path cfg.lib cfg.downloads t.version)
            × (verify_file cfg.lib path t.sha256 true w.files ≡ none))
      → ((d : StateFile.Dir) (p : Pending) → (set_pending p (asks.env.io queues) d).1 ≡ none)
      → is_stopped (downloaded lib cfg asks t force r w).1 ≡ true
      → Queued (downloaded lib cfg asks t force r w).0 (queued_at t force)
  unfolding downloaded is_stopped queued
  downloaded-Queued t force (err e) w good saves h = cc
  downloaded-Queued t force (ok path) w good saves h =
      let p = queued lib cfg asks t force path in
      let w' : World = record w { store = (set_pending p (asks.env.io queues) w.store).0 } in
      let (store, files) = apply-Waits p (trigger_of asks.wake_reason) w' h in
      let (same, verified) = good path refl in
      subst
        (λ (x : String).
          Queued (downloaded lib cfg asks t force (ok path) w).0 (queued lib cfg asks t force x))
        same
        (
          ap (λ d. (document d.state_file).pending) store
              ∙ set_pending-Queued p (asks.env.io queues) w.store (saves w.store p),
          ap (λ fs. verify_file cfg.lib path t.sha256 true fs) files ∙ verified,
        )

  fetch-Queued :
      (t : Target) (force : Bool) (w : World)
      → ((d : StateFile.Dir) (p : Pending) → (set_pending p (asks.env.io queues) d).1 ≡ none)
      → is_stopped (fetch lib cfg asks t force w).1 ≡ true
      → Queued (fetch lib cfg asks t force w).0 (queued_at t force)
  unfolding fetch
  fetch-Queued t force w saves h =
      let w' = announce t.version w in
      let io = asks.env.ensure_io poll in
      let (files, r) = ensure cfg.lib cfg.downloads io t w'.files in
      downloaded-Queued t force r (record w' { files = files })
        (λ path e. ensure-IsVerified cfg.lib cfg.downloads io t w'.files path e) saves h

module _ {V : Type 0} (lib : VersionLib V) (cfg : Config) (later : Asks) where
  resume-Queued :
      (p : Pending) (w : World) (s : State)
      → load later.load_io w.store ≡ ok s
      → later.env.read_ok drops_corrupt ≡ true
      → less lib cfg.info.installed_version p.version ≡ ok true
      → Queued lib cfg later w p
      → resume lib cfg later (loaded later.load_io w).pending w
        ≡ ended (apply lib cfg later p "resume" w)
  unfolding resume resume_compared resume_needed or_fresh
  resume-Queued p w s l r n (pending, good) =
      let found : s.pending ≡ some p =
        ap (λ (t : State). t.pending) (load-document later.load_io w.store s l) ∙ pending in
      rw l (rw found (rw n (rw r (rw good refl))))

  cycle_resumes :
      (w : World)
      → let (passed, pending) = check lib cfg later at_gate w in
        let (ready, launched) = self_update lib cfg later passed in
        later.enabled ≡ true
        → pending ≡ false
        → launched ≡ false
        → cycle lib cfg later w
          ≡ go_on lib cfg later (resume lib cfg later (loaded later.load_io ready).pending ready)
  unfolding cycle
  cycle_resumes w enabled admitted idle = ground arith

module _ {V : Type 0} (lib : VersionLib V) (cfg : Config) (asks later : Asks) where
  -- An update that was downloaded and saved in state.json and that then waited for EMLy to close when
  -- the service stopped is applied by a later cycle, from the cache path of its version, and no server
  -- is asked. The cycle is enabled, no destructive command is committed when it begins, it launches no
  -- self-update, it can read state.json and the setup, and EMLy is still older than the update.
  pub fetch_resumed :
      (t : Target) (force : Bool) (w : World) (f : Facts) (s : State)
      → ((d : StateFile.Dir) (p : Pending) → (set_pending p (asks.env.io queues) d).1 ≡ none)
      → (fetch lib cfg asks t force w).1 ≡ some stopped
      → later.enabled ≡ true
      → let w' = (fetch lib cfg asks t force w).0 in
        let (passed, pending) = check lib (under f cfg) later at_gate w' in
        let (ready, launched) = self_update lib (under f cfg) later passed in
        pending ≡ false
        → launched ≡ false
        → load later.load_io w'.store ≡ ok s
        → later.env.read_ok drops_corrupt ≡ true
        → less lib f.info.installed_version t.version ≡ ok true
        → cycle lib (under f cfg) later w'
          ≡ apply lib (under f cfg) later (queued_at lib cfg asks t force) "resume" ready
  unfolding go_on queued is_stopped check arrive self_update
  fetch_resumed t force w f s saves h runs admitted idle l r n =
      let w' = (fetch lib cfg asks t force w).0 in
      let ready =
        (self_update lib (under f cfg) later (check lib (under f cfg) later at_gate w').0).0 in
      let q = fetch-Queued lib cfg asks t force w saves (rw h refl) in
      cycle_resumes lib (under f cfg) later w' runs admitted idle
      ∙ ap (go_on lib (under f cfg) later)
          (resume-Queued lib (under f cfg) later (queued_at lib cfg asks t force) ready s l r n q)
