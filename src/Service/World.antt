-- ===== src/Service/World.antt =====
-- internal/service/service.go: what the poll goroutine changes (`World`), and what it is answered at each
-- place that asks (`Env`). The guarded fields of internal/service/clientpower.go are a part of it, and
-- `Move` is what the command goroutines do to them in between.
use emly_updater.Base.{ℕ, String, Bool, Option, List, [], ◌∷◌, ◌++◌, Dict}
use emly_updater.Manifest.{VersionLib, Manifest, less}
use emly_updater.Manifest as Manifest
use emly_updater.State.{Pending, Dir, set_pending, clear_pending}
use emly_updater.State as StateFile
use emly_updater.Download.{
  Lib, Manager, Files, Listing, ensure, verify_file, cleanup_except, remove,
}
use emly_updater.Download as Download
use emly_updater.Source.Resolver.{World as Net}
use emly_updater.Service.Announcements.{UpdateFailedKey}
use emly_updater.Service.Power.{
  commit_destructive, clear_destructive_pending, add_pending, remove_pending, begin_install,
  end_install, destructive_pending_now,
}
use emly_updater.Service.Power as Power
use emly_updater.Service.Targets.{Settings, resolve_target_with}
use emly_updater.Service.Targets as Targets

-- config.EMLyInfo
pub record Info : Type 0 where
  pub installed_version : String
  pub channel : String
  pub language : String
  pub fresh_install : Bool

-- What one critical section, or one write of the pending commands, of a command goroutine does.
pub data Move : Type 0 where
  reads : ℕ → Bool → Move
  commits : String → ℕ → Move
  clears : Move
  records : StateFile.PendingCommand → Move
  forgets : Bool → String → Move

unfoldable pub move : Move → Power.State → Power.State
move (reads now writable) s = (destructive_pending_now now writable s).0
move (commits id deadline) s = (commit_destructive id deadline s).0
move clears s = clear_destructive_pending s
move (records c) s = add_pending c s
move (forgets writable id) s = remove_pending writable id s

unfoldable pub moves : List Move → Power.State → Power.State
unfolding move
moves [] s = s
moves (m ∷ ms) s = moves ms (move m s)

-- The places where a cycle reads the flag, starts a setup, kills EMLy, or waits.
pub data Point : Type 0 where
  at_gate at_self at_apply at_kill at_terminate at_install at_setup at_reinstall : Point

-- the calls that write state.json or sweep the downloads
pub data Call : Type 0 where
  drops_invalid drops_satisfied drops_corrupt queues refuses wipes requeues completes idles : Call

pub data Round : Type 0 where
  poll redownload : Round

pub data Attempt : Type 0 where
  first clean : Attempt

-- wsclient's update.* events, without their durations and messages.
pub record UpdateEvent : Type 0 where
  pub from_version : String
  pub to_version : String
  pub forced : Bool
  pub attempt : ℕ
  pub trigger : String
  pub reinstalled : Bool
  pub will_retry : Bool
  pub code : String

-- What the service does to the machine and says to the server, in order. A setup that starts is
-- recorded with the version and the checksum that its update names, its contents, and the guarded fields
-- at that moment; a kill with whether the update was forced.
pub data Action : Type 0 where
  ran : String → String → String → ℕ → Bool → Action
  uninstalled : Action
  killed : Bool → Action
  told : Action
  available : String → Action
  started : UpdateEvent → Action
  applied : UpdateEvent → Action
  failed : UpdateEvent → Action

pub record World : Type 0 where
  pub files : Files
  pub store : Dir
  pub power : Power.State
  pub preferred : Option String
  pub announced : Dict String
  pub failures : List UpdateFailedKey
  pub notified : Bool
  pub actions : List Action

abbrev pub act : Action → World → World
act a w = record w { actions = w.actions ++ a ∷ [] }

-- The wiring and the facts that do not change during a cycle.
pub record Config : Type 0 where
  pub lib : Lib
  pub downloads : Manager
  pub url : String → String
  pub settings : Settings
  pub chain : List String
  pub info : Info
  -- version.Version, of the updater itself
  pub running : String

pub record Env : Type 0 where
  -- what the command goroutines do before the point is passed
  pub others : Point → List Move
  pub clock : Point → ℕ
  pub writable : Point → Bool
  pub io : Call → StateFile.Io
  pub listing : Call → Listing
  pub removed : Call → String → Bool
  pub read_ok : Call → Bool
  pub net : Round → Net String Manifest
  pub ensure_io : Round → Download.Io
  -- whether the setup exits with 0, and what GUI_SEMVER of EMLy's config.ini is then
  pub exits : Attempt → Bool
  pub config_after : Attempt → Option String

pub data Failure : Type 0 where
  setup_failed : Failure
  -- "post-install verification failed"
  not_verified : Failure

pub data Error : Type 0 where
  skipped : Error
  refused : Error
  install_failed : Failure → Error
  not_resolved : Targets.Error → Error
  not_downloaded : Download.Error → Error
  bad_version : Manifest.Error → Error
  stopped : Error
