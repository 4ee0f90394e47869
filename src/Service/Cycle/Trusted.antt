-- ===== src/Service/Cycle/Trusted.antt =====
-- internal/service/service.go: what any number of cycles starts, kills and keeps queued.
use emly_updater.Base.{
  ◌≡◌, inl, inr, refl, sym, String, Bool, true, false, not, ◌&&◌, ◌||◌, Option, none, some, Result,
  ok, err, subst, is_some, Bool-cases, str_eq, ◌<>◌, if_intro,
}
use emly_updater.Manifest.{VersionLib, Manifest, Target, Error as VersionError}
use emly_updater.State.{
  Pending, State, Dir, Io, File, missing, bad, stored, set_pending, clear_pending, load,
}
use emly_updater.State as StateFile
use emly_updater.State.Atomic.{load-document}
use emly_updater.Download.{Lib, Manager, setup_path, verify_file, ensure}
use emly_updater.Download as Download
use emly_updater.Download.Verified.{ensure-IsVerified}
use emly_updater.Service.Announcements.{announce_update}
use emly_updater.Service.Power.{destructive_pending_now}
use emly_updater.Service.Targets as Targets
use emly_updater.Service.Install.{arrive, sweep, install}
use emly_updater.Service.World.{
  Config, World, Error, killed, told, available, at_gate, at_apply, at_kill, at_terminate, act,
  poll, redownload, Round, queues, drops_invalid, drops_corrupt,
}
use emly_updater.Service.Install.Trusted.{install-IsTrusted, Listed, resolved-Listed}
use emly_updater.Service.Install.Evidence.{Lists, IsTrusted, act-IsTrusted}
use emly_updater.Service.Install.Cached.{
  IsCached, pending_of, clear_pending-IsCached, set_pending-IsCached, install-IsCached,
}
use emly_updater.Service.Cycle.{
  Asks, Next, or_fresh, resume_compared, decide_forced, decide_needed, ended, polls, trigger_of,
  notify_sources_unreachable, announce, loaded, check, apply_forced, apply, resume_needed, resume,
  queued, downloaded, fetch, decide, polled, poll_sources, go_on, self_update, cycle,
}

-- What a cycle keeps: nothing untrusted was started, and the queued setup is in the cache.
abbrev pub Keeps : (String → String → Bool) → Config → World → Type 0
Keeps listed cfg w = IsTrusted listed cfg.lib w × IsCached listed cfg (pending_of w)

-- A partial download is no cached setup.
abbrev pub Apart : Lib → Manager → Type 0
Apart lib m =
    (v v' : String) → str_eq (setup_path lib m v <> ".partial") (setup_path lib m v') ≡ false

Apart-pending :
    (listed : String → String → Bool) (cfg : Config) (p : Pending)
    → Apart cfg.lib cfg.downloads
    → IsCached listed cfg (some p)
    → (v : String) → str_eq (setup_path cfg.lib cfg.downloads v <> ".partial") p.setup_path ≡ false
Apart-pending listed cfg p apart cached v =
    subst (λ x. str_eq (setup_path cfg.lib cfg.downloads v <> ".partial") x ≡ false) (sym cached.0)
      (apart v p.version)

or_fresh-IsCached :
    (listed : String → String → Bool) (cfg : Config) (r : Result StateFile.Error State)
    → ((s : State) → r ≡ ok s → IsCached listed cfg s.pending)
    → IsCached listed cfg (or_fresh r).pending
unfolding or_fresh
or_fresh-IsCached listed cfg (ok s) h = h s refl
or_fresh-IsCached listed cfg (err e) h = tt

loaded-IsCached :
    (listed : String → String → Bool) (cfg : Config) (io : Io) (w : World)
    → IsCached listed cfg (pending_of w)
    → IsCached listed cfg (loaded io w).pending
loaded-IsCached listed cfg io w c = or_fresh-IsCached listed cfg (load io w.store) λ s h.
    subst (λ (t : State). IsCached listed cfg t.pending) (sym (load-document io w.store s h)) c

notify-Keeps :
    (listed : String → String → Bool) (cfg : Config) (self_known toasted : Bool) (w : World)
    → Keeps listed cfg w
    → Keeps listed cfg (notify_sources_unreachable self_known toasted w)
unfolding notify_sources_unreachable
notify-Keeps listed cfg self_known toasted w (t, c) =
    elim (Bool-cases (w.notified || not self_known || not toasted)) [
      | inl e ↦ rw e (t, c)
      | inr e ↦ rw e (act-IsTrusted listed cfg.lib told w refl t, c)
    ]

announce-Keeps :
    (listed : String → String → Bool) (cfg : Config) (v : String) (w : World)
    → Keeps listed cfg w
    → Keeps listed cfg (announce v w)
unfolding announce
announce-Keeps listed cfg v w (t, c) = elim (Bool-cases (announce_update "emly" v w.announced).1) [
  | inl e ↦ rw e (act-IsTrusted listed cfg.lib (available v) w refl t, c)
  | inr e ↦ rw e (t, c)
]

module _ {V : Type 0} (lib : VersionLib V) (cfg : Config) (asks : Asks)
    (listed : String → String → Bool) (lists : (r : Round) → Lists listed (asks.env.net r))
    (apart : Apart cfg.lib cfg.downloads) where
  install-Keeps :
      (p : Pending) (trigger : String) (w : World)
      → IsCached listed cfg (some p)
      → Keeps listed cfg w
      → Keeps listed cfg (install lib cfg asks.env p trigger w).0
  install-Keeps p trigger w at (t, c) = (
    install-IsTrusted lib cfg asks.env listed p trigger w (Apart-pending listed cfg p apart at)
        (lists redownload) at.1 t,
    install-IsCached lib cfg asks.env listed p trigger w (lists redownload) c,
  )

  apply_forced-Keeps :
      (p : Pending) (trigger : String) (w : World)
      → p.forced ≡ true
      → IsCached listed cfg (some p)
      → Keeps listed cfg w
      → Keeps listed cfg (apply_forced lib cfg asks p trigger w).0
  unfolding apply_forced check arrive destructive_pending_now
  apply_forced-Keeps p trigger w f at (t, c) =
      let keep = λ (r : World × Option Error). Keeps listed cfg r.0 in
      let after = check lib cfg asks at_kill w in
      if_intro keep (asks.warning && asks.shown && asks.cut_short) (λ _. (t, c))
        λ _.
          if_intro keep after.1 (λ _. (t, c))
            λ y.
              let w' = arrive lib cfg asks.env at_terminate after.0 in
              install-Keeps p trigger (act (killed p.forced) w') at
                (act-IsTrusted listed cfg.lib (killed p.forced) w' f t, c)

  apply-Keeps :
      (p : Pending) (trigger : String) (w : World)
      → IsCached listed cfg (some p)
      → Keeps listed cfg w
      → Keeps listed cfg (apply lib cfg asks p trigger w).0
  unfolding apply check arrive
  apply-Keeps p trigger w at (t, c) =
      let keep = λ (r : World × Option Error). Keeps listed cfg r.0 in
      let w' = (check lib cfg asks at_apply w).0 in
      if_intro keep (check lib cfg asks at_apply w).1 (λ _. (t, c))
        λ _.
          if_intro keep (not asks.running) (λ _. install-Keeps p trigger w' at (t, c))
            λ _.
              if_intro keep p.forced (λ f. apply_forced-Keeps p trigger w' f at (t, c))
                λ _.
                  if_intro keep asks.exited (λ _. install-Keeps p trigger w' at (t, c)) λ _. (t, c)

  abbrev KeepsNext : Next → Type 0
  KeepsNext (ended r) = Keeps listed cfg r.0
  KeepsNext (polls w) = Keeps listed cfg w

  resume_needed-Keeps :
      (p : Pending) (needed : Bool) (w : World)
      → IsCached listed cfg (some p)
      → Keeps listed cfg w
      → KeepsNext (resume_needed lib cfg asks p needed w)
  unfolding resume_needed sweep
  resume_needed-Keeps p false w at (t, c) = (t, clear_pending-IsCached listed cfg _ w.store c)
  resume_needed-Keeps p true w at (t, c) =
      let read = asks.env.read_ok drops_corrupt in
      elim (Bool-cases (is_some (verify_file cfg.lib p.setup_path p.sha256 read w.files))) [
        | inl e ↦ rw e (t, clear_pending-IsCached listed cfg (asks.env.io drops_corrupt) w.store c)
        | inr e ↦ rw e (apply-Keeps p "resume" w at (t, c))
      ]

  resume_compared-Keeps :
      (p : Pending) (r : Result VersionError Bool) (w : World)
      → IsCached listed cfg (some p)
      → Keeps listed cfg w
      → KeepsNext (resume_compared lib cfg asks p r w)
  unfolding resume_compared
  resume_compared-Keeps p (ok needed) w at k = resume_needed-Keeps p needed w at k
  resume_compared-Keeps p (err e) w at (t, c) =
      (t, clear_pending-IsCached listed cfg (asks.env.io drops_invalid) w.store c)

  resume-Keeps :
      (q : Option Pending) (w : World)
      → IsCached listed cfg q
      → Keeps listed cfg w
      → KeepsNext (resume lib cfg asks q w)
  unfolding resume
  resume-Keeps none w at k = k
  resume-Keeps (some p) w at k = resume_compared-Keeps p _ w at k

  downloaded-Keeps :
      (target : Target) (force : Bool) (r : Result Download.Error String) (w : World)
      → ((path : String) → r ≡ ok path → path ≡ setup_path cfg.lib cfg.downloads target.version)
      → listed target.version target.sha256 ≡ true
      → Keeps listed cfg w
      → Keeps listed cfg (downloaded lib cfg asks target force r w).0
  unfolding downloaded queued
  downloaded-Keeps target force (err e) w at l k = k
  downloaded-Keeps target force (ok path) w at l (t, c) =
      let p = queued lib cfg asks target force path in
      apply-Keeps p (trigger_of asks.wake_reason) _ (at path refl, l)
        (t, set_pending-IsCached listed cfg p (asks.env.io queues) w.store (at path refl, l) c)

  fetch-Keeps :
      (target : Target) (force : Bool) (w : World)
      → listed target.version target.sha256 ≡ true
      → Keeps listed cfg w
      → Keeps listed cfg (fetch lib cfg asks target force w).0
  unfolding fetch
  fetch-Keeps target force w l k =
      let w' = announce target.version w in
      let io = asks.env.ensure_io poll in
      let (files, r) = ensure cfg.lib cfg.downloads io target w'.files in
      downloaded-Keeps target force r (record w' { files = files })
        (λ path h.
          let (same, good) = ensure-IsVerified cfg.lib cfg.downloads io target w'.files path h in
          same)
        l (announce-Keeps listed cfg target.version w k)

  decide_forced-Keeps :
      (target : Target) (r : Result VersionError Bool) (w : World)
      → listed target.version target.sha256 ≡ true
      → Keeps listed cfg w
      → Keeps listed cfg (decide_forced lib cfg asks target r w).0
  unfolding decide_forced
  decide_forced-Keeps target (ok force) w l k = fetch-Keeps target force w l k
  decide_forced-Keeps target (err e) w l k = k

  decide_needed-Keeps :
      (m : Manifest) (target : Target) (r : Result VersionError Bool) (w : World)
      → listed target.version target.sha256 ≡ true
      → Keeps listed cfg w
      → Keeps listed cfg (decide_needed lib cfg asks m target r w).0
  unfolding decide_needed sweep
  decide_needed-Keeps m target (ok true) w l k = decide_forced-Keeps target _ w l k
  decide_needed-Keeps m target (ok false) w l k = k
  decide_needed-Keeps m target (err e) w l k = k

  polled-Keeps :
      (r : Result Targets.Error (String × Manifest × Target)) (w : World)
      → Listed lib cfg asks.env listed r
      → Keeps listed cfg w
      → Keeps listed cfg (polled lib cfg asks r w).0
  unfolding polled decide
  polled-Keeps (err e) w l k = notify-Keeps listed cfg asks.self_known asks.toasted w k
  polled-Keeps (ok (source, m, target)) w l k =
      decide_needed-Keeps m target _ _ (l source m target refl) k

  go_on-Keeps : (n : Next) → KeepsNext n → Keeps listed cfg (go_on lib cfg asks n).0
  unfolding go_on poll_sources
  go_on-Keeps (ended r) k = k
  go_on-Keeps (polls w) k =
      polled-Keeps _ _
        (resolved-Listed lib cfg asks.env listed (asks.env.net poll) w.preferred (lists poll)) k

  pub cycle-Keeps : (w : World) → Keeps listed cfg w → Keeps listed cfg (cycle lib cfg asks w).0
  unfolding cycle check arrive self_update
  cycle-Keeps w (t, c) =
      let keep = λ (r : World × Option Error). Keeps listed cfg r.0 in
      let w' = (check lib cfg asks at_gate w).0 in
      if_intro keep (not asks.enabled) (λ _. (t, c))
        λ _.
          if_intro keep (check lib cfg asks at_gate w).1 (λ _. (t, c))
            λ _.
              let w'' = (self_update lib cfg asks w').0 in
              if_intro keep (self_update lib cfg asks w').1 (λ _. (t, c))
                λ _. go_on-Keeps (resume lib cfg asks (loaded asks.load_io w'').pending w'') (
                  resume-Keeps (loaded asks.load_io w'').pending w''
                    (loaded-IsCached listed cfg asks.load_io w'' c) (t, c))
