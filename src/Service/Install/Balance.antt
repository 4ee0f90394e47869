-- ===== src/Service/Install/Balance.antt =====
-- internal/service/service.go, install: the claim on `installing`.
use emly_updater.Base.{
  ℕ, ◌+◌, ◌≡◌, inl, inr, refl, ◌∙◌, sym, String, Bool, true, false, Option, none, some, List, [],
  ◌∷◌, arith, subst, is_some, Bool-cases,
}
use emly_updater.Manifest.{VersionLib}
use emly_updater.State.{Pending}
use emly_updater.Download.{verify_file}
use emly_updater.Service.Power.{
  begin_install, end_install, commit_destructive, clear_destructive_pending, remove_pending,
  destructive_pending_now, expire,
}
use emly_updater.Service.Power as Power
use emly_updater.Service.Power.Exclusion.{expire-fields, remove_pending-fields}
use emly_updater.Service.Install.{
  arrive, sweep, emit_failed, run_setup_and_verify, succeed, settled, reinstall, after_first,
  refuse, install_claimed, install, force_redownload, refetched, redownloaded, wiped, or_cached,
  event,
}
use emly_updater.Service.World.{
  Config, Env, World, Move, reads, commits, clears, records, forgets, move, moves, act, Attempt,
  Failure, UpdateEvent, at_install, at_reinstall, at_setup, uninstalled, started, clean, first,
  refuses,
}

-- What a claim of the poll goroutine sees: it is counted, and no destructive command is committed.
abbrev pub Claimed : ℕ → Power.State → Type 0
Claimed n s = (s.installing ≡ n + 1) × (s.pending ≡ false)

move-installing : (m : Move) (s : Power.State) → (move m s).installing ≡ s.installing
unfolding move destructive_pending_now commit_destructive clear_destructive_pending
move-installing (reads now w) s = (expire-fields now w s).0
move-installing (commits id d) s = ground arith
move-installing clears s = refl
move-installing (records c) s = refl
move-installing (forgets w id) s = (remove_pending-fields w id s).0

pub moves-installing : (ms : List Move) (s : Power.State) → (moves ms s).installing ≡ s.installing
unfolding moves
moves-installing [] s = refl
moves-installing (m ∷ ms) s = moves-installing ms (move m s) ∙ move-installing m s

move-Claimed : (m : Move) (n : ℕ) (s : Power.State) → Claimed n s → Claimed n (move m s)
unfolding move destructive_pending_now commit_destructive clear_destructive_pending
move-Claimed (reads now w) n s c = ground (arith, expire-fields now w s)
move-Claimed (commits id d) n s c = ground arith
move-Claimed clears n s c = ground arith
move-Claimed (records r) n s c = c
move-Claimed (forgets w id) n s c = ground (arith, remove_pending-fields w id s)

-- While an install is claimed the command goroutines commit no destructive command.
pub moves-Claimed :
    (ms : List Move) (n : ℕ) (s : Power.State) → Claimed n s → Claimed n (moves ms s)
unfolding moves
moves-Claimed [] n s c = c
moves-Claimed (m ∷ ms) n s c = moves-Claimed ms n (move m s) (move-Claimed m n s c)

pub begin_install-Claimed :
    (now : ℕ) (w : Bool) (s : Power.State)
    → (begin_install now w s).1 ≡ true
    → Claimed s.installing (begin_install now w s).0
unfolding begin_install
begin_install-Claimed now w s h = ground (arith, expire-fields now w s)

pub begin_install-refused :
    (now : ℕ) (w : Bool) (s : Power.State)
    → (begin_install now w s).1 ≡ false
    → (begin_install now w s).0.installing ≡ s.installing
unfolding begin_install
begin_install-refused now w s h = ground (arith, expire-fields now w s)

module _ {V : Type 0} (lib : VersionLib V) (cfg : Config) (env : Env) where
  emit_failed-power : (e : UpdateEvent) (w : World) → (emit_failed e w).power ≡ w.power
  unfolding emit_failed
  emit_failed-power e w = ground arith

  pub run-power :
      (a : Attempt) (p : Pending) (w : World)
      → (run_setup_and_verify lib cfg env a p w).0.power ≡ w.power
  unfolding run_setup_and_verify
  run-power a p w = ground arith

  pub force_redownload-power :
      (p : Pending) (w : World) → (force_redownload lib cfg env p w).0.power ≡ w.power
  unfolding force_redownload refetched redownloaded wiped sweep
  force_redownload-power p w = ground arith

  settled-power :
      (p : Pending) (trigger : String) (r : World × Option Failure)
      → (settled lib cfg env p trigger r).0.power ≡ r.0.power
  unfolding settled succeed sweep
  settled-power p trigger (w, none) = refl
  settled-power p trigger (w, some f) = emit_failed-power _ w

  refuse-power : (p : Pending) (w : World) → (refuse lib cfg env p w).0.power ≡ w.power
  unfolding refuse
  refuse-power p w = emit_failed-power _ _

  reinstall-Claimed :
      (p : Pending) (trigger : String) (n : ℕ) (w : World)
      → Claimed n w.power
      → Claimed n (reinstall lib cfg env p trigger w).0.power
  unfolding reinstall arrive
  reinstall-Claimed p trigger n w c =
      let (w', fresh) = force_redownload lib cfg env p w in
      let p' = or_cached lib cfg env p fresh in
      let begun = arrive lib cfg env at_reinstall (act uninstalled w') in
      let ran = run_setup_and_verify lib cfg env clean p' begun in
      subst (Claimed n) (sym (settled-power p' trigger ran ∙ run-power clean p' begun)) (
        moves-Claimed (env.others at_reinstall) n w'.power
          (subst (Claimed n) (sym (force_redownload-power p w)) c))

  after_first-Claimed :
      (p : Pending) (trigger : String) (n : ℕ) (r : World × Option Failure)
      → Claimed n r.0.power
      → Claimed n (after_first lib cfg env p trigger r).0.power
  unfolding after_first succeed sweep
  after_first-Claimed p trigger n (w, none) c = c
  after_first-Claimed p trigger n (w, some f) c = reinstall-Claimed p trigger n w c

  pub install_claimed-Claimed :
      (p : Pending) (trigger : String) (n : ℕ) (w : World)
      → Claimed n w.power
      → Claimed n (install_claimed lib cfg env p trigger w).0.power
  unfolding install_claimed arrive
  install_claimed-Claimed p trigger n w c =
      let bad = is_some (verify_file cfg.lib p.setup_path p.sha256 (env.read_ok refuses) w.files) in
      let begun =
        arrive lib cfg env at_setup
          (act (started (event lib cfg env p p.forced 1 false false trigger "")) w) in
      elim (Bool-cases bad) [
        | inl e ↦ rw e (subst (Claimed n) (sym (refuse-power p w)) c)
        | inr e ↦ rw e (
            after_first-Claimed p trigger n (run_setup_and_verify lib cfg env first p begun) (
              subst (Claimed n) (sym (run-power first p begun))
                (moves-Claimed (env.others at_setup) n w.power c)))
      ]

  -- However an install ends, and whatever the command goroutines do meanwhile, it leaves as many
  -- installs claimed as it found.
  pub install-balanced :
      (p : Pending) (trigger : String) (w : World)
      → (install lib cfg env p trigger w).0.power.installing ≡ w.power.installing
  unfolding install arrive end_install
  install-balanced p trigger w =
      let s = moves (env.others at_install) w.power in
      let now = env.clock at_install in
      let writable = env.writable at_install in
      let begun : World = record w { power = (begin_install now writable s).0 } in
      elim (Bool-cases (begin_install now writable s).1) [
        | inl e ↦ rw e (
            ground (
              arith,
              moves-installing (env.others at_install) w.power,
              install_claimed-Claimed p trigger s.installing begun
                  (begin_install-Claimed now writable s e),
            ))
        | inr e ↦ rw e (
            ground (
              arith,
              moves-installing (env.others at_install) w.power,
              begin_install-refused now writable s e,
            ))
      ]
