-- ===== src/Policy/Document.antt =====
-- internal/policy/document.go: the typed document. A pointer is an `Option`, a map an association
-- list, an instant a number of nanoseconds.
use emly_updater.Base.{
  ℕ, ◌*◌, ℤ, to_ℕ, String, Bool, true, Option, List, [], ◌∷◌, Dict, contains, or_else,
}
use emly_updater.Policy.Json.{Fields}

pub record VersionRange : Type 0 where
  pub min : Option String
  pub max : Option String

pub record IpcVersion : Type 0 where
  pub updater : VersionRange
  pub emly : VersionRange
  pub enabled : Option Bool

pub record IpcProtocol : Type 0 where
  pub versions : Dict IpcVersion
  pub default_version : ℤ

pub record Site : Type 0 where
  pub internal_subnets : List String
  pub base_server : String
  pub backup_server : List String
  pub enabled : Option Bool

pub record Whitelist : Type 0 where
  pub hostnames : List String
  pub hwids : List String

pub record HostIntegrity : Type 0 where
  pub enabled : Bool
  pub whitelist : Whitelist

pub record ControlUpdater : Type 0 where
  pub enabled : Bool
  pub reason : Option String
  pub until : Option String

pub record ControlApp : Type 0 where
  pub enabled : Bool
  pub mode : String
  pub reason : Option String
  pub until : Option String

pub record Control : Type 0 where
  pub updater : ControlUpdater
  pub app : ControlApp

pub record CriticalWarning : Type 0 where
  pub enabled : Bool
  pub seconds : ℤ

pub record DcLookupRetry : Type 0 where
  pub attempts : ℤ
  pub delay_seconds : ℤ

pub record ResolverSettings : Type 0 where
  pub attempts : ℤ
  pub base_backoff_seconds : ℤ

pub record Toggle : Type 0 where
  pub enabled : Bool

pub record UpdaterSettings : Type 0 where
  pub poll_interval_minutes : ℤ
  pub channel_override : Option String
  pub critical_warning : CriticalWarning
  pub dc_lookup_retry : DcLookupRetry
  pub resolver : ResolverSettings
  pub self_update : Toggle
  pub install_certificate : Toggle

pub record LoggingSettings : Type 0 where
  pub level : String
  pub max_size_mb : ℤ
  pub backups : ℤ
  pub compress : Bool
  pub event_log : Bool

pub record ClientWsSettings : Type 0 where
  pub enabled : Bool
  pub commands : List String

pub record Refresh : Type 0 where
  pub interval_minutes : ℤ
  pub stale_after_days : ℤ

pub record Selector : Type 0 where
  pub everyone : Bool
  pub hwids : List String
  pub hostnames : List String
  pub dcs : List String
  pub subnets : List String
  pub domains : List String

pub record Override : Type 0 where
  pub id : String
  pub matching : Selector
  pub except : Option Selector
  pub until : Option String
  pub patch : Fields

pub record Document : Type 0 where
  pub schema_version : ℤ
  pub revision : ℤ
  pub generated_at : String
  pub refresh : Refresh
  pub servers : Dict String
  pub default_server : String
  pub ipc_protocol : IpcProtocol
  pub dc_lookup_map : Dict Site
  pub host_integrity : HostIntegrity
  pub control : Control
  pub updater : UpdaterSettings
  pub logging : LoggingSettings
  pub client_ws : ClientWsSettings
  pub overrides : List Override

-- The facts about this machine that a selector is evaluated against.
pub record Host : Type 0 where
  pub hwid : String
  pub hostname : String
  pub dc : String
  pub domain : String
  pub ips : List String
  pub now : ℕ

-- An absent flag reads as enabled.
abbrev pub is_enabled : Option Bool → Bool
is_enabled = or_else true

abbrev pub allows : ClientWsSettings → String → Bool
allows c name = contains c.commands name

abbrev pub channel : UpdaterSettings → String
channel u = or_else "" u.channel_override

abbrev pub app_mode_normal : String
app_mode_normal = "normal"

abbrev pub app_mode_read_only : String
app_mode_read_only = "readonly"

abbrev pub app_mode_maintenance : String
app_mode_maintenance = "maintenance"

abbrev pub default_client_ws_commands : List String
default_client_ws_commands =
    "machine.info" ∷ "emly.manifest.check" ∷ "updater.manifest.check" ∷ "apps.list_upgradable" ∷ []

abbrev pub known_client_ws_commands : List String
known_client_ws_commands =
    "machine.info" ∷ "emly.manifest.check" ∷ "updater.manifest.check" ∷ "apps.list_upgradable"
    ∷ "service.restart" ∷ "machine.reboot" ∷ []

abbrev pub patchable_sections : List String
patchable_sections = "control" ∷ "updater" ∷ "logging" ∷ "defaultServer" ∷ "clientWs" ∷ []

-- Durations in nanoseconds; a negative number of units is no duration that a caller accepts, and
-- is 0 here.
abbrev pub minutes : ℤ → ℕ
minutes n = to_ℕ n * (60 * 1000000000)

abbrev pub days : ℤ → ℕ
days n = to_ℕ n * (24 * 60 * 60 * 1000000000)
