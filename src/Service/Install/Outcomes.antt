-- ===== src/Service/Install/Outcomes.antt =====
-- internal/service/service.go, install: what a success has confirmed, and the reinstall without a
-- server.
use emly_updater.Base.{
  ◌≡◌, ◌⊎◌, inl, inr, refl, ◌∙◌, ap, String, Bool, true, false, Option, none, some, err, List, [],
  ◌∷◌, ℕ, Result, ok, lookup, filter, In, here, Bool-cases, In-append_left, In-append_right,
  filter-append,
}
use emly_updater.Manifest.{VersionLib, Manifest, Target}
use emly_updater.State.{Pending, State, clear_pending, stored, update, with_pending}
use emly_updater.State as StateFile
use emly_updater.State.Atomic.{document, update_atomic}
use emly_updater.Download.{listed}
use emly_updater.Download.Cleanup.{deletes, cleanup_except_exactly}
use emly_updater.Service.Targets.{resolve_target_with}
use emly_updater.Service.Targets as Targets
use mathlib.Core.List.{append-nil}
use emly_updater.Service.Announcements.{UpdateFailedKey, mark_update_failed}
use emly_updater.Service.Install.{
  arrive, sweep, emit_failed, verify_installed, settled, reinstall, force_redownload, refetched,
  wiped, or_cached, install_failure_code, event,
}
use emly_updater.Service.World.{
  Config, Env, World, Action, ran, uninstalled, failed, at_reinstall, act, Attempt, first, clean,
  wipes, redownload, Error, install_failed, not_resolved, setup_failed, UpdateEvent,
}
use emly_updater.Service.Install.Evidence.{run-gone}

-- whether an action starts a setup
abbrev pub is_run : Action → Bool
is_run (ran _ _ _ _ _) = true
is_run _ = false

abbrev pub runs : World → List Action
runs w = filter is_run w.actions

-- A clearing that reports no error leaves no pending update.
pub clear_pending-none :
    (io : StateFile.Io) (d : StateFile.Dir)
    → (clear_pending io d).1 ≡ none
    → (document (clear_pending io d).0.state_file).pending ≡ none
unfolding clear_pending
clear_pending-none io d h = elim (update_atomic (with_pending none) io d) [
  | inl (_, saved) ↦ rw saved refl
  | inr (failed_write, _) ↦ absurd (failed_write h)
]

module _ {V : Type 0} (lib : VersionLib V) (cfg : Config) (env : Env) where
  -- a run of a setup that exited with 0, after which EMLy reported a version not behind the target
  pub record Confirmed (a : Attempt) (p : Pending) : Type 0 where
    pub exited : env.exits a ≡ true
    pub verified : verify_installed lib cfg env a p.version ≡ none

  -- a setup of `p` that was started and confirmed
  pub record Ran (a : Attempt) (p : Pending) (w : World) : Type 0 where
    pub content : String
    pub installing : ℕ
    pub pending : Bool
    pub started : In (ran p.version content p.sha256 installing pending) w.actions
    pub confirmed : Confirmed a p

  -- What the clean reinstall of `p` runs: `p` itself, or the target of a resolution.
  abbrev pub Redone : Pending → Result Targets.Error (String × Manifest × Target) → Pending → Type 0
  Redone p r q =
      (q ≡ p)
      ⊎ ((source : String) × (m : Manifest) × (t : Target) × (r ≡ ok (source, m, t))
          × (q.version ≡ t.version)
          × (q.sha256 ≡ t.sha256))

  abbrev pub resolution : Option String → Result Targets.Error (String × Manifest × Target)
  resolution o =
      (resolve_target_with lib (env.net redownload) cfg.url cfg.settings cfg.chain cfg.info.channel
        true o).result

  -- The setup that a success ran: the first run's, or the clean one's.
  abbrev pub Confirms : Pending → World → Type 0
  Confirms p w =
      Ran first p w
      ⊎ ((o : Option String) × (q : Pending) × Redone p (resolution o) q × Ran clean q w)

  -- What a success has: a confirmed run, and no pending update where the clearing succeeds.
  abbrev pub Succeeds : Pending → World × Option Error → Type 0
  Succeeds p (w, none) = Confirms p w × ((document w.store.state_file).pending ≡ none)
  Succeeds p (w, some e) = Unit

  emit_failed-cases :
      (e : UpdateEvent) (w : World)
      → (keys : List UpdateFailedKey) × ((emit_failed e w
            ≡ act (failed e) (record w { failures = keys }))
          ⊎ (emit_failed e w ≡ record w { failures = keys }))
  unfolding emit_failed
  emit_failed-cases e w =
      let key : UpdateFailedKey = record {
        target = "emly";
        to_version = e.to_version;
        attempt = e.attempt;
        code = e.code;
      } in
      let (keys, fresh) = mark_update_failed key w.failures in
      (keys, elim (Bool-cases fresh) [ inl y ↦ rw y (inl refl) | inr y ↦ rw y (inr refl) ])

  -- A failure that is reported starts nothing.
  emit_failed-keeps :
      (e : UpdateEvent) (a : Action) (w : World)
      → In a w.actions
      → ((emit_failed e w).files ≡ w.files)
        × ((emit_failed e w).store ≡ w.store)
        × (runs (emit_failed e w) ≡ runs w)
        × In a (emit_failed e w).actions
  emit_failed-keeps e a w m =
      let (keys, cases) = emit_failed-cases e w in
      elim cases [
        | inr q ↦ rw q (refl, refl, refl, m)
        | inl q ↦ rw q (
          refl,
          refl,
          filter-append is_run w.actions (failed e ∷ []) ∙ append-nil (runs w),
          In-append_left (failed e ∷ []) m,
        )
      ]

  -- What is left of the world when the wipe is done and the server did not answer.
  abbrev unanswered : World → World
  unanswered w = record (wiped lib cfg env w) {
    preferred =
        (resolve_target_with lib (env.net redownload) cfg.url cfg.settings cfg.chain
          cfg.info.channel true w.preferred).preferred;
  }

  abbrev left_offline : World → World
  left_offline w = arrive lib cfg env at_reinstall (act uninstalled (unanswered w))

  reinstall-offline :
      (p : Pending) (trigger : String) (w : World) (e : Targets.Error)
      → force_redownload lib cfg env p w ≡ (unanswered w, err (not_resolved e))
      → lookup p.setup_path (left_offline w).files ≡ none
      → reinstall lib cfg env p trigger w ≡ (
        emit_failed (event lib cfg env p false 2 false true "" "setup_exit_code") (left_offline w),
        some (install_failed setup_failed),
      )
  unfolding reinstall or_cached settled install_failure_code
  reinstall-offline p trigger w e f gone =
      rw f (rw (run-gone lib cfg env clean p (left_offline w) gone) refl)

  -- When the reinstall's listing of the downloads works, its sweep deletes the cached setup, its
  -- clearing of state.json succeeds and no server answers, then it has wiped the only copy of the setup:
  -- EMLy is uninstalled, no setup is run, the install fails, and nothing is left to resume.
  pub reinstall_offline :
      (p : Pending) (trigger : String) (w : World) (es : List (String × Bool)) (e : Targets.Error)
      → env.listing wipes ≡ listed es
      → deletes cfg.lib cfg.downloads (env.removed wipes) "" es p.setup_path ≡ true
      → (clear_pending (env.io wipes) w.store).1 ≡ none
      → (resolve_target_with lib
          (env.net redownload)
          cfg.url
          cfg.settings
          cfg.chain
          cfg.info.channel
          true
          w.preferred).result
        ≡ err e
      → let (w', r) = reinstall lib cfg env p trigger w in
        (r ≡ some (install_failed setup_failed))
        × In uninstalled w'.actions
        × (runs w' ≡ runs w)
        × (lookup p.setup_path w'.files ≡ none)
        × ((document w'.store.state_file).pending ≡ none)
  unfolding force_redownload refetched arrive wiped sweep
  reinstall_offline p trigger w es e l d c r =
      let gone : lookup p.setup_path (left_offline w).files ≡ none = rw l (
        cleanup_except_exactly cfg.lib cfg.downloads (env.removed wipes) "" p.setup_path es w.files
        ∙ rw d refl) in
      let whole =
        reinstall-offline p trigger w e (ap (λ x. refetched lib cfg env p x (unanswered w)) r)
          gone in
      let (files, store, ran_none, kept) =
        emit_failed-keeps (event lib cfg env p false 2 false true "" "setup_exit_code") uninstalled
          (left_offline w) (In-append_right w.actions here) in
      rw whole (
        refl,
        kept,
        ran_none ∙ (filter-append is_run w.actions (uninstalled ∷ []) ∙ append-nil (runs w)),
        ap (λ fs. lookup p.setup_path fs) files ∙ gone,
        ap (λ d. (document d.state_file).pending) store
            ∙ clear_pending-none (env.io wipes) w.store c,
      )
