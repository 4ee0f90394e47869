-- ===== src/Policy/Legacy.antt =====
-- internal/policy/legacy.go, with match.go's ManifestURL: the policy of a
-- machine that has never received a document. Durations are in nanoseconds; `encode` is toMap.
pub mod Addresses
pub mod Routes
use Prim.Native.Char.{Char}
use Prim.Native.String
use emly_updater.Base.{
  ℕ, suc, ◌+◌, ◌*◌, ◌/◌, ◌≡◌, String, Bool, true, false, not, ◌&&◌, ◌||◌, Option, none, some, List,
  [], ◌∷◌, ◌++◌, map, ℤ, pos, negsuc, Dict, lookup, insert, is_some, is_empty, is_blank, or_else,
  str_eq, ltb, ◌<>◌, if◌then◌else◌,
}
use emly_updater.Config.{Config}
use emly_updater.Policy.Document.{
  Document, IpcProtocol, Site, Refresh, Control, UpdaterSettings, LoggingSettings, ClientWsSettings,
  default_client_ws_commands, app_mode_normal,
}
use emly_updater.Policy.Json.{Fields, remove}
use emly_updater.Policy.Parse.Whole.{Parsed, schema_version}

abbrev pub legacy_external : String
legacy_external = "external"

abbrev pub legacy_internal : String
legacy_internal = "internal"

abbrev pub legacy_internal_backup : String
legacy_internal_backup = "internalBackup"

abbrev pub manifest_path : String
manifest_path = "/v2/updates/manifest"

pub record Defaults : Type 0 where
  pub refresh : Refresh
  pub control : Control
  pub updater : UpdaterSettings
  pub logging : LoggingSettings
  pub client_ws : ClientWsSettings
  pub ipc_protocol : IpcProtocol

-- max(int(interval.Minutes()), 1)
unfoldable pub poll_minutes : ℤ → ℕ
poll_minutes (negsuc n) = 1
poll_minutes (pos n) = let m = n / 60000000000 in if ltb m 1 then 1 else m

unfoldable pub defaults_from_config : Config → IpcProtocol → Bool → Defaults
defaults_from_config cfg ipc console_debug =
    let minutes = poll_minutes cfg.poll_interval in
    record {
      refresh = record { interval_minutes = pos minutes; stale_after_days = pos 7 };
      control = record {
        updater = record { enabled = true; reason = none; until = none };
        app = record { enabled = true; mode = app_mode_normal; reason = none; until = none };
      };
      updater = record {
        poll_interval_minutes = pos minutes;
        channel_override =
            if is_blank cfg.channel_override then none else some cfg.channel_override;
        critical_warning = record {
          enabled = cfg.critical_warning_enabled;
          seconds = cfg.critical_warning_seconds;
        };
        dc_lookup_retry = record {
          attempts = cfg.dc_lookup_retry_attempts;
          delay_seconds = pos (cfg.dc_lookup_retry_delay / 1000000000);
        };
        resolver = record { attempts = pos 3; base_backoff_seconds = pos 5 };
        self_update = record { enabled = cfg.self_update_enabled };
        install_certificate = record { enabled = cfg.certificate_enabled };
      };
      logging = record {
        level = if console_debug then "debug" else "info";
        max_size_mb = pos 2;
        backups = pos 5;
        compress = true;
        event_log = true;
      };
      client_ws = record { enabled = false; commands = default_client_ws_commands };
      ipc_protocol = ipc;
    }

abbrev with_char : Char → Option String → Option String
with_char c none = none
with_char c (some s) = some (String.◌∷◌ c s)

-- strings.CutSuffix, none where the suffix is not there
unfoldable pub cut_suffix : String → String → Option String
cut_suffix String.[] suffix = if is_blank suffix then some "" else none
cut_suffix (String.◌∷◌ c s) suffix =
    let rest = cut_suffix s suffix in
    if str_eq (String.◌∷◌ c s) suffix then some "" else with_char c rest

-- the servers, and the addresses that do not end in the path
pub record Servers : Type 0 where
  pub bases : Dict String
  pub urls : Dict String

added : String → String → Option String → Servers → Servers
added name url (some base) s = record s { bases = insert name base s.bases }
added name url none s = record { bases = insert name url s.bases; urls = insert name url s.urls }

-- addServer
unfoldable pub add_server : String → String → Servers → Servers
unfolding added
add_server name url s = if is_blank url then s else added name url (cut_suffix url manifest_path) s

unfoldable pub servers_of : Config → Servers
servers_of cfg = add_server legacy_internal_backup cfg.backup_internal_manifest_url (
    add_server legacy_internal cfg.internal_manifest_url
      (add_server legacy_external cfg.external_manifest_url (record { bases = []; urls = [] })))

abbrev pub has : String → Dict String → Bool
has name d = is_some (lookup name d)

unfoldable pub default_server : Config → Dict String → String
default_server cfg servers =
    if has legacy_internal servers
      && is_empty cfg.dc_subnet_map
      && str_eq cfg.primary legacy_internal
    then legacy_internal
    else if has legacy_external servers
    then legacy_external
    else legacy_internal

unfoldable pub backups_of : Dict String → List String
backups_of servers =
    (if has legacy_internal_backup servers then legacy_internal_backup ∷ [] else [])
    ++ (if has legacy_external servers then legacy_external ∷ [] else [])

sites_for : List String → Dict (List String) → Dict Site
sites_for backups [] = []
sites_for backups ((dc, subnets) ∷ m) =
    (
      dc,
      record {
        internal_subnets = subnets;
        base_server = legacy_internal;
        backup_server = backups;
        enabled = none;
      },
    )
    ∷ sites_for backups m

unfoldable pub sites_of : Config → Dict String → Dict Site
unfolding sites_for
sites_of cfg servers =
    if has legacy_internal servers then sites_for (backups_of servers) cfg.dc_subnet_map else []

unfoldable pub legacy_document : Config → Defaults → Document
legacy_document cfg d =
    let servers = (servers_of cfg).bases in
    record {
      schema_version = schema_version;
      revision = pos 0;
      generated_at = "";
      refresh = d.refresh;
      servers = servers;
      default_server = default_server cfg servers;
      ipc_protocol = d.ipc_protocol;
      dc_lookup_map = sites_of cfg servers;
      host_integrity = record {
        enabled = false;
        whitelist = record { hostnames = []; hwids = [] };
      };
      control = d.control;
      updater = d.updater;
      logging = d.logging;
      client_ws = d.client_ws;
      overrides = [];
    }

-- FromLegacy, with the field legacyManifestURLs beside the others
unfoldable pub from_legacy :
    (Document → Fields) → (Defaults → Fields) → Config → Defaults → Parsed × Dict String
from_legacy encode encode_defaults cfg d =
    let doc = legacy_document cfg d in
    (
      record { global = doc; raw = remove "overrides" (encode doc); defaults = encode_defaults d },
      (servers_of cfg).urls,
    )

unfoldable pub address_of : Option String → String → String
address_of (some u) base = u
address_of none base = if is_blank base then "" else base <> manifest_path

-- ManifestURL; `urls` are the legacyManifestURLs of the policy.
unfoldable pub manifest_url : Dict String → Document → String → String
manifest_url urls doc name = address_of (lookup name urls) (or_else "" (lookup name doc.servers))
