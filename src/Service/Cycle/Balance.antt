-- ===== src/Service/Cycle/Balance.antt =====
-- internal/service/service.go: the claims on `installing` that cycles leave.
use emly_updater.Base.{
  ℕ, ◌≡◌, ◌∙◌, refl, String, Bool, true, false, not, ◌&&◌, Option, none, some, Result, ok, err,
  arith, ◌+◌, if◌then◌else◌, if_intro, Bool-cases, inl, inr, is_some,
}
use emly_updater.Manifest.{VersionLib, Manifest, Target, Error as VersionError}
use emly_updater.State.{Pending}
use emly_updater.Download.{verify_file}
use emly_updater.Download as Download
use emly_updater.Service.SelfUpdate as SelfUpdate
use emly_updater.Service.SelfUpdate.Claims.{self_update-Claims}
use emly_updater.Service.Power.{
  begin_install, end_install, destructive_pending_now, log_destructive_skip_once,
}
use emly_updater.Service.Power.Exclusion.{expire-fields}
use emly_updater.Service.Targets as Targets
use emly_updater.Service.Install.{arrive, sweep}
use emly_updater.Service.World.{
  Config, World, Error, Point, act, killed, moves, at_gate, at_self, at_terminate, at_apply,
  at_kill, drops_corrupt,
}
use emly_updater.Service.Install.Balance.{
  install-balanced, moves-installing, begin_install-Claimed, begin_install-refused,
}
use emly_updater.Service.Cycle.{
  Asks, Next, ended, polls, notify_sources_unreachable, announce, loaded, check, apply_forced,
  apply, resume_needed, resume_compared, resume, downloaded, fetch, decide_forced, decide_needed,
  decide, polled, poll_sources, go_on, claim_left, self_update, launches, cycle,
}

abbrev claims : World → ℕ
claims w = w.power.installing

announce-claims : (v : String) (w : World) → claims (announce v w) ≡ claims w
unfolding announce
announce-claims v w = if_intro (λ (r : World). claims r ≡ claims w) _ (λ _. refl) (λ _. refl)

notify-claims : (a b : Bool) (w : World) → claims (notify_sources_unreachable a b w) ≡ claims w
unfolding notify_sources_unreachable
notify-claims a b w = if_intro (λ (r : World). claims r ≡ claims w) _ (λ _. refl) (λ _. refl)

branches :
    (on pending launched : Bool) (a b c d : World × Option Error) (n : ℕ)
    → claims a.0 ≡ n
    → claims b.0 ≡ n
    → (launched ≡ true → claims c.0 ≡ 1 + n)
    → (launched ≡ false → claims d.0 ≡ n)
    → claims (if not on then a else if pending then b else if launched then c else d).0
      ≡ (if on && not pending && launched then 1 else 0) + n
branches false pending launched a b c d n ha hb hc hd = omega (arith, ha)
branches true true launched a b c d n ha hb hc hd = omega (arith, hb)
branches true false true a b c d n ha hb hc hd = hc refl
branches true false false a b c d n ha hb hc hd = omega (arith, hd refl)

module _ {V : Type 0} (lib : VersionLib V) (cfg : Config) (asks : Asks) where
  check-claims : (p : Point) (w : World) → claims (check lib cfg asks p w).0 ≡ claims w
  unfolding check arrive destructive_pending_now
  check-claims p w =
      (expire-fields (asks.env.clock p) (asks.env.writable p) (moves (asks.env.others p) w.power)).0
      ∙ moves-installing (asks.env.others p) w.power

  -- what a step of a cycle leaves claimed
  abbrev Balanced : World → World × Option Error → Type 0
  Balanced w r = claims r.0 ≡ claims w

  apply_forced-Balanced :
      (p : Pending) (trigger : String) (w : World)
      → Balanced w (apply_forced lib cfg asks p trigger w)
  unfolding apply_forced log_destructive_skip_once arrive
  apply_forced-Balanced p trigger w =
      let w' = (check lib cfg asks at_kill w).0 in
      let same = check-claims at_kill w in
      if_intro (Balanced w) (asks.warning && asks.shown && asks.cut_short) (λ _. refl)
        λ _.
          if_intro (Balanced w) (check lib cfg asks at_kill w).1 (λ _. same)
            λ _.
              install-balanced lib cfg asks.env p trigger
                (act (killed p.forced) (arrive lib cfg asks.env at_terminate w'))
              ∙ moves-installing (asks.env.others at_terminate) w'.power
              ∙ same

  apply-Balanced :
      (p : Pending) (trigger : String) (w : World) → Balanced w (apply lib cfg asks p trigger w)
  unfolding apply log_destructive_skip_once
  apply-Balanced p trigger w =
      let w' = (check lib cfg asks at_apply w).0 in
      let same = check-claims at_apply w in
      let installed = install-balanced lib cfg asks.env p trigger w' ∙ same in
      if_intro (Balanced w) (check lib cfg asks at_apply w).1 (λ _. same)
        λ _.
          if_intro (Balanced w) (not asks.running) (λ _. installed)
            λ _.
              if_intro (Balanced w) p.forced (λ _. apply_forced-Balanced p trigger w' ∙ same)
                λ _. if_intro (Balanced w) asks.exited (λ _. installed) λ _. same

  abbrev BalancedNext : World → Next → Type 0
  BalancedNext w (ended r) = Balanced w r
  BalancedNext w (polls w') = claims w' ≡ claims w

  resume_needed-balanced :
      (p : Pending) (needed : Bool) (w : World)
      → BalancedNext w (resume_needed lib cfg asks p needed w)
  unfolding resume_needed sweep
  resume_needed-balanced p false w = refl
  resume_needed-balanced p true w =
      let read = asks.env.read_ok drops_corrupt in
      elim (Bool-cases (is_some (verify_file cfg.lib p.setup_path p.sha256 read w.files))) [
        | inl e ↦ rw e refl
        | inr e ↦ rw e (apply-Balanced p "resume" w)
      ]

  resume_compared-balanced :
      (p : Pending) (r : Result VersionError Bool) (w : World)
      → BalancedNext w (resume_compared lib cfg asks p r w)
  unfolding resume_compared
  resume_compared-balanced p (ok needed) w = resume_needed-balanced p needed w
  resume_compared-balanced p (err e) w = refl

  resume-balanced : (q : Option Pending) (w : World) → BalancedNext w (resume lib cfg asks q w)
  unfolding resume
  resume-balanced none w = refl
  resume-balanced (some p) w = resume_compared-balanced p _ w

  downloaded-Balanced :
      (t : Target) (force : Bool) (r : Result Download.Error String) (w : World)
      → Balanced w (downloaded lib cfg asks t force r w)
  unfolding downloaded
  downloaded-Balanced t force (err e) w = refl
  downloaded-Balanced t force (ok path) w = apply-Balanced _ _ _

  fetch-Balanced :
      (t : Target) (force : Bool) (w : World) → Balanced w (fetch lib cfg asks t force w)
  unfolding fetch
  fetch-Balanced t force w = downloaded-Balanced t force _ _ ∙ announce-claims t.version w

  decide_forced-Balanced :
      (t : Target) (r : Result VersionError Bool) (w : World)
      → Balanced w (decide_forced lib cfg asks t r w)
  unfolding decide_forced
  decide_forced-Balanced t (ok force) w = fetch-Balanced t force w
  decide_forced-Balanced t (err e) w = refl

  decide_needed-Balanced :
      (m : Manifest) (t : Target) (r : Result VersionError Bool) (w : World)
      → Balanced w (decide_needed lib cfg asks m t r w)
  unfolding decide_needed sweep
  decide_needed-Balanced m t (ok true) w = decide_forced-Balanced t _ w
  decide_needed-Balanced m t (ok false) w = refl
  decide_needed-Balanced m t (err e) w = refl

  polled-Balanced :
      (r : Result Targets.Error (String × Manifest × Target)) (w : World)
      → Balanced w (polled lib cfg asks r w)
  unfolding polled decide
  polled-Balanced (err e) w = notify-claims asks.self_known asks.toasted w
  polled-Balanced (ok (source, m, t)) w = decide_needed-Balanced m t _ _

  go_on-Balanced : (w : World) (n : Next) → BalancedNext w n → Balanced w (go_on lib cfg asks n)
  unfolding go_on poll_sources
  go_on-Balanced w (ended r) b = b
  go_on-Balanced w (polls w') b = polled-Balanced _ _ ∙ b

  -- a self-update that launches nothing gives its claim back, and one that launches keeps it
  self_update-claims :
      (w : World)
      → claims (self_update lib cfg asks w).0
        ≡ (if (self_update lib cfg asks w).1 then 1 else 0) + claims w
  unfolding self_update arrive claim_left end_install
  self_update-claims w =
      let env = asks.env in
      let w' = arrive lib cfg env at_self w in
      let s = w'.power in
      let (power, begun) = begin_install (env.clock at_self) (env.writable at_self) s in
      let e = record asks.self { begin_ok = begun } in
      let rec = (loaded asks.load_io w').self_update in
      let done = SelfUpdate.self_update lib cfg.running e rec in
      let (claimed, begins) = self_update-Claims lib cfg.running e rec in
      let same = moves-installing (env.others at_self) w.power in
      elim (Bool-cases begun) [
        | inl b ↦
            let (more, _) = begin_install-Claimed (env.clock at_self) (env.writable at_self) s b in
            ground (arith, b, more, same, claimed, begins)
        | inr b ↦
            let kept = begin_install-refused (env.clock at_self) (env.writable at_self) s b in
            ground (arith, b, kept, same, claimed, begins)
      ]

  -- A cycle leaves as many installs claimed as it found, and one more when it launches a self-update.
  pub cycle-balanced :
      (w : World)
      → (cycle lib cfg asks w).0.power.installing
        ≡ (if launches lib cfg asks w then 1 else 0) + w.power.installing
  unfolding cycle log_destructive_skip_once
  cycle-balanced w =
      let w' = (check lib cfg asks at_gate w).0 in
      let w'' = (self_update lib cfg asks w').0 in
      let launched = (self_update lib cfg asks w').1 in
      let same = check-claims at_gate w in
      let left : claims w'' ≡ (if launched then 1 else 0) + claims w' = self_update-claims w' in
      let rest = go_on-Balanced w'' _ (resume-balanced (loaded asks.load_io w'').pending w'') in
      branches asks.enabled (check lib cfg asks at_gate w).1 launched (w, none)
        (record w' { power = (log_destructive_skip_once w'.power).0 }, none) (w'', none)
        (go_on lib cfg asks (resume lib cfg asks (loaded asks.load_io w'').pending w'')) (claims w)
        refl same (λ l. omega (arith, same, rw l at left))
        (λ l. omega (arith, same, rest, rw l at left))
