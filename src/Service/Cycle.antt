-- ===== src/Service/Cycle.antt =====
-- internal/service/service.go: Cycle, apply and notifySourcesUnreachable. `Asks` adds to the answers of an
-- install those of the rest of a cycle. selfUpdate is the one of Service.SelfUpdate, with its claim on
-- `installing`; the record that it leaves in state.json and its events are read there, and not taken
-- over here. What applyControlGate returns is an answer. The trust-store repair, the messages and logging
-- are left out.
pub mod Trusted
pub mod Queue
pub mod History
pub mod Balance
use emly_updater.Base.{
  ℕ, ◌+◌, ◌≡◌, String, Bool, true, false, not, ◌&&◌, ◌||◌, Option, none, some, Result, ok, err,
  List, [], ◌∷◌, ◌++◌, is_blank, is_some, if◌then◌else◌,
}
use emly_updater.Manifest.{VersionLib, Manifest, Target, less, forced, Error as VersionError}
use emly_updater.State.{Pending, State, set_pending, clear_pending, load}
use emly_updater.State as StateFile
use emly_updater.Download.{ensure, verify_file, remove}
use emly_updater.Download as Download
use emly_updater.Service.Announcements.{announce_update}
use emly_updater.Service.Power.{
  begin_install, end_install, destructive_pending_now, log_destructive_skip_once,
}
use emly_updater.Service.Power as Power
use emly_updater.Service.SelfUpdate as SelfUpdate
use emly_updater.Service.Targets.{resolve_target_with}
use emly_updater.Service.Targets as Targets
use emly_updater.Service.Install.{write, arrive, sweep, install}
use emly_updater.Service.World.{
  Config, Env, Info, World, Error, Action, killed, told, available, Point, at_gate, at_self,
  at_terminate, at_apply, at_kill, at_reinstall, moves, Call, drops_invalid, drops_satisfied,
  drops_corrupt, queues, idles, poll, act, stopped, not_resolved, not_downloaded, bad_version,
}

pub record Asks : Type 0 where
  pub env : Env
  -- what applyControlGate returns
  pub enabled : Bool
  -- what selfUpdate is answered; whether it may begin is read from the guarded fields
  pub self : SelfUpdate.Env
  -- Load of state.json
  pub load_io : StateFile.Io
  pub wake_reason : String
  -- process.IsRunning
  pub running : Bool
  -- the critical warning: in the policy, shown, and its countdown cut short by a stop
  pub warning : Bool
  pub shown : Bool
  pub cut_short : Bool
  -- WaitForExit returned nil
  pub exited : Bool
  -- os.Executable and LaunchToast
  pub self_known : Bool
  pub toasted : Bool

-- where the pending update leads: the end of the cycle, or on to the poll
pub data Next : Type 0 where
  ended : World × Option Error → Next
  polls : World → Next

abbrev pub trigger_of : String → String
trigger_of reason = if is_blank reason then "cycle" else reason

-- destructivePendingNow at a point, and the skip that follows it
abbrev pub skip : World → World
skip w = record w { power = (log_destructive_skip_once w.power).0 }

unfoldable pub notify_sources_unreachable : Bool → Bool → World → World
notify_sources_unreachable self_known toasted w =
    if w.notified || not self_known || not toasted
    then w
    else act told (record w { notified = true })

-- announceUpdate for EMLy
unfoldable pub announce : String → World → World
announce version w =
    let (announced, emitted) = announce_update "emly" version w.announced in
    let w' = record w { announced = announced } in
    if emitted then act (available version) w' else w'

-- the document that a cycle goes on with: an empty one where the file cannot be read
unfoldable pub or_fresh : Result StateFile.Error State → State
or_fresh (ok s) = s
or_fresh (err _) = StateFile.empty

abbrev pub loaded : StateFile.Io → World → State
loaded io w = or_fresh (load io w.store)

module _ {V : Type 0} (lib : VersionLib V) (cfg : Config) (asks : Asks) where
  unfoldable pub check : Point → World → World × Bool
  check p w =
      let env = asks.env in
      let w' = arrive lib cfg env p w in
      let (power, pending) = destructive_pending_now (env.clock p) (env.writable p) w'.power in
      (record w' { power = power }, pending)

  -- EMLy is running and the update is forced, from the countdown on.
  unfoldable pub apply_forced : Pending → String → World → World × Option Error
  apply_forced p trigger w =
      if asks.warning && asks.shown && asks.cut_short
      then (w, some stopped)
      else (let (w', pending) = check at_kill w in
          if pending
          then (skip w', none)
          else install lib cfg asks.env p trigger
              (act (killed p.forced) (arrive lib cfg asks.env at_terminate w')))

  unfoldable pub apply : Pending → String → World → World × Option Error
  apply p trigger w =
      let (w', pending) = check at_apply w in
      if pending
      then (skip w', none)
      else if not asks.running
      then install lib cfg asks.env p trigger w'
      else if p.forced
      then apply_forced p trigger w'
      else if asks.exited
      then install lib cfg asks.env p trigger w'
      else (w', some stopped)

  -- the pending update, when it was read
  unfoldable pub resume_needed : Pending → Bool → World → Next
  resume_needed p needed w =
      let env = asks.env in
      if not needed
      then polls (
          sweep lib cfg env drops_satisfied ""
            (write (clear_pending (env.io drops_satisfied) w.store) w))
      else if is_some
          (verify_file cfg.lib p.setup_path p.sha256 (env.read_ok drops_corrupt) w.files)
      then (let w' = record w {
        files = remove (env.removed drops_corrupt p.setup_path) p.setup_path w.files;
      } in
          polls (write (clear_pending (env.io drops_corrupt) w'.store) w'))
      else ended (apply p "resume" w)

  unfoldable pub resume_compared : Pending → Result VersionError Bool → World → Next
  resume_compared p (ok needed) w = resume_needed p needed w
  resume_compared p (err _) w = polls (write (clear_pending (asks.env.io drops_invalid) w.store) w)

  unfoldable pub resume : Option Pending → World → Next
  resume none w = polls w
  resume (some p) w = resume_compared p (less lib cfg.info.installed_version p.version) w

  unfoldable pub queued : Target → Bool → String → Pending
  queued t force path = record {
    version = t.version;
    setup_path = path;
    sha256 = t.sha256;
    forced = force;
    downloaded_at = asks.env.clock at_apply;
  }

  unfoldable pub downloaded :
      Target → Bool → Result Download.Error String → World → World × Option Error
  downloaded t force (err e) w = (w, some (not_downloaded e))
  downloaded t force (ok path) w =
      let p = queued t force path in
      apply p (trigger_of asks.wake_reason) (write (set_pending p (asks.env.io queues) w.store) w)

  -- an update that is needed, once it is known whether it is forced
  unfoldable pub fetch : Target → Bool → World → World × Option Error
  fetch t force w =
      let w' = announce t.version w in
      let (files, r) = ensure cfg.lib cfg.downloads (asks.env.ensure_io poll) t w'.files in
      downloaded t force r (record w' { files = files })

  unfoldable pub decide_forced : Target → Result VersionError Bool → World → World × Option Error
  decide_forced t (ok force) w = fetch t force w
  decide_forced t (err e) w = (w, some (bad_version e))

  unfoldable pub decide_needed :
      Manifest → Target → Result VersionError Bool → World → World × Option Error
  decide_needed m t (ok true) w = decide_forced t (forced lib m cfg.info.installed_version) w
  decide_needed m t (ok false) w = (sweep lib cfg asks.env idles "" w, none)
  decide_needed m t (err e) w = (w, some (bad_version e))

  unfoldable pub decide : Manifest → Target → World → World × Option Error
  decide m t w = decide_needed m t (less lib cfg.info.installed_version t.version) w

  unfoldable pub polled :
      Result Targets.Error (String × Manifest × Target) → World → World × Option Error
  polled (err e) w =
      (notify_sources_unreachable asks.self_known asks.toasted w, some (not_resolved e))
  polled (ok (_, m, t)) w = decide m t (record w { notified = false })

  unfoldable pub poll_sources : World → World × Option Error
  poll_sources w =
      let r =
        resolve_target_with lib (asks.env.net poll) cfg.url cfg.settings cfg.chain cfg.info.channel
          true w.preferred in
      polled r.result (record w { preferred = r.preferred })

  unfoldable pub go_on : Next → World × Option Error
  go_on (ended r) = r
  go_on (polls w) = poll_sources w

  -- what selfUpdate leaves of the claim that it asked for: it keeps it when it launches a setup, and
  -- gives it back when its record cannot be written or the launch fails
  unfoldable pub claim_left : Bool → Power.State × Bool → Power.State
  claim_left claimed (power, begun) = if claimed || not begun then power else end_install power

  -- selfUpdate, with whether it launched its setup
  unfoldable pub self_update : World → World × Bool
  self_update w =
      let env = asks.env in
      let w' = arrive lib cfg env at_self w in
      let (power, begun) = begin_install (env.clock at_self) (env.writable at_self) w'.power in
      let done =
        SelfUpdate.self_update lib cfg.running (record asks.self { begin_ok = begun })
          (loaded asks.load_io w').self_update in
      let left = if done.asked then claim_left done.claimed (power, begun) else w'.power in
      (record w' { power = left }, done.launched)

  unfoldable pub cycle : World → World × Option Error
  cycle w =
      if not asks.enabled
      then (w, none)
      else (let (w', pending) = check at_gate w in
          if pending
          then (skip w', none)
          else (let (w'', launched) = self_update w' in
              if launched
              then (w'', none)
              else go_on (resume (loaded asks.load_io w'').pending w'')))

  -- whether a cycle launches a self-update
  abbrev pub launches : World → Bool
  launches w =
      let (w', pending) = check at_gate w in asks.enabled && not pending && (self_update w').1

-- What a later cycle finds changed: the policy's servers, and EMLy.
pub record Facts : Type 0 where
  pub url : String → String
  pub settings : Targets.Settings
  pub chain : List String
  pub info : Info

abbrev pub under : Facts → Config → Config
under f cfg = record cfg { url = f.url; settings = f.settings; chain = f.chain; info = f.info }

-- The cycles of RunLoop; after a self-update is launched the service is about to stop.
module _ {V : Type 0} (lib : VersionLib V) (cfg : Config) where
  unfoldable pub cycles : List (Facts × Asks) → World → World
  cycles [] w = w
  cycles ((f, asks) ∷ rest) w = cycles rest (cycle lib (under f cfg) asks w).0

  -- how many of them launch a self-update
  abbrev pub launched_in : List (Facts × Asks) → World → ℕ
  launched_in [] w = 0
  launched_in ((f, asks) ∷ rest) w =
      (if launches lib (under f cfg) asks w then 1 else 0)
      + launched_in rest (cycle lib (under f cfg) asks w).0
