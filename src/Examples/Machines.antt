-- ===== src/Examples/Machines.antt =====
-- What a service knows of its machine, its sessions and its config.ini, at concrete inputs.
use emly_updater.Base.{
  str_eq, ok, ℕ, ◌≡◌, refl, pos, String, true, false, none, some, List, [], ◌∷◌, ◌++◌, all, arith,
  Bool, if◌then◌else◌, leb, trim_space,
}
use emly_updater.Config.{Config}
use emly_updater.Config.Load.{Ini, load}
use emly_updater.Policy.Document.{Document, Host, DcLookupRetry}
use emly_updater.Policy.Json.{Fields, end}
use emly_updater.Policy.Matching.{chain}
use emly_updater.Policy.Snapshot.{default}
use emly_updater.Service.SourcePolicy.{
  Lookup, found, lost, Machine, Facts, Node, resolve_dc, retries, domain_joined, begun,
}
use emly_updater.Service.SourcePolicy.Lookups.{resolve_dc-finds}
use emly_updater.Service.SourcePolicy.Reports.{failures}
use emly_updater.Service.SourcePolicy.Streaks.{begun-once}
use emly_updater.Service.Sessions.{
  Signal, notification, received, settled, UserSession, watched, initial,
}
use emly_updater.Service.Sessions.Bursts.{reported, waiting, brought_in, watched-conserves}
use emly_updater.Policy.Legacy.{
  Defaults, defaults_from_config, from_legacy, manifest_url, has, legacy_external, legacy_internal,
  legacy_internal_backup,
}
use emly_updater.Policy.Legacy.Addresses.{manifest_url-legacy}
use emly_updater.Policy.Legacy.Routes.{load-listed}
use emly_updater.Examples.Standins.{versions, parsers, decoders, example_document}

abbrev retry : DcLookupRetry
retry = record { attempts = pos 3; delay_seconds = pos 5 }

-- netlogon is up at the second retry
abbrev at_boot : ℕ → Lookup
at_boot n = if leb 2 n then found "dc-rm1" else lost "no such domain"

abbrev never : ℕ → Bool
never n = false

resolve_dc-finds_example : resolve_dc retry at_boot never true ≡ (found "dc-rm1", 3)
unfolding retries
resolve_dc-finds_example =
    resolve_dc-finds at_boot never retry 2 "dc-rm1" refl refl (ground arith) (λ j l. ground arith)
      (λ j l. refl) refl

abbrev machine : Machine
machine = record { hwid = "hw"; hostname = "pc"; ad_domain = "corp.test" }

abbrev cut_off : ℕ → Facts
cut_off now = record {
  now = now;
  ips = some ("10.0.0.7" ∷ []);
  answers = λ n. lost "no such domain";
  stops = never;
}

abbrev node : Node
node = record {
  config = record {
    policy = record {
      parsed = record { global = example_document; raw = end; defaults = end };
      source = default;
      fetched_at = none;
      fetched_from = "";
      etag = "";
    };
    cache = none;
    last_attempt = none;
    unreachable = false;
    last_stale_warn = none;
    paused = false;
  };
  site = record { dc = none; dc_at = 0; ips = []; last_key = ""; dc_failed_logged = false };
  cur = none;
}

begun-once_example :
    failures
      (begun parsers versions decoders machine true
        (cut_off 10 ∷ cut_off 20 ∷ cut_off 30 ∷ [])
        node).1
    ≡ 1
unfolding domain_joined trim_space
begun-once_example =
    begun-once parsers versions decoders machine (cut_off 10) (cut_off 20 ∷ cut_off 30 ∷ []) node
      refl (λ k. refl, (λ k. refl, (λ k. refl, tt))) refl

abbrev change : String → Signal
change kind = notification (record { kind = kind; session_id = 1; at = none })

abbrev mario : UserSession
mario = record { user = "CORP\\mario"; state = "active"; disconnected_at = none }

abbrev signals : List Signal
signals =
    change "remote-disconnect"
    ∷ received
    ∷ change "remote-connect"
    ∷ received
    ∷ settled "mario" mario
    ∷ change "lock"
    ∷ []

watched-conserves_example :
    reported (watched signals initial).1 ++ waiting (watched signals initial).0
    ≡ waiting initial ++ brought_in signals initial
watched-conserves_example = watched-conserves signals initial

abbrev keys : Ini
keys = record {
  string = λ s k.
      if str_eq k "externalManifestURL"
      then " https://a/v2/updates/manifest"
      else if str_eq k "internalManifestURL"
      then "https://b/hand-made"
      else if str_eq k "defaultMappingDCSubnets"
      then "dc-rm1: 10.0.0.0/8;"
      else "";
  must_string = λ s k d. d;
  must_int = λ s k d. d;
  must_bool = λ s k d. d;
}

abbrev config : Config
config = record {
  emly_install_dir = "C:\\3gIT\\EMLy";
  emly_exe_name = "EMLy.exe";
  emly_config_file = "C:\\3gIT\\EMLy\\config.ini";
  poll_interval = pos 1800000000000;
  channel_override = "";
  primary = "external";
  external_manifest_url = "https://a/v2/updates/manifest";
  internal_manifest_url = "https://b/hand-made";
  backup_internal_manifest_url = "";
  user_agent = "";
  api_key = "";
  dc_subnet_map = ("dc-rm1", "10.0.0.0/8" ∷ []) ∷ [];
  dc_lookup_retry_attempts = pos 6;
  dc_lookup_retry_delay = 5000000000;
  prog_id_eml = "EMLy.EML";
  prog_id_msg = "EMLy.MSG";
  critical_warning_enabled = true;
  critical_warning_seconds = pos 30;
  self_update_enabled = true;
  self_update_manifest_url = "";
  ipc_enabled = true;
  ipc_pipe_name = "EMLyUpdater";
  certificate_enabled = true;
  remote_config_enabled = true;
  remote_config_endpoints = "https://api.emly.ffois.it" ∷ [];
  remote_config_route = "/v2/config";
  remote_config_timeout = 10000000000;
}

abbrev print_net : ℕ → String
print_net n = "10.0.0.0/8"

loaded : load parsers print_net "1.0.0" keys ≡ ok config
unfolding load emly_updater.Config.Load.parse_dc_subnet_map emly_updater.Config.Load.parse_entries
    emly_updater.Config.split trim_space emly_updater.Config.Load.parse_subnets
    emly_updater.Config.validate emly_updater.Config.Load.filled emly_updater.Config.split_endpoints
    emly_updater.Base.trim_slashes emly_updater.Config.is_endpoint emly_updater.Base.has_prefix
    emly_updater.Config.Load.int64 emly_updater.Config.Load.build_user_agent
    emly_updater.Base.insert
loaded = refl

abbrev legacy_defaults : Defaults
legacy_defaults = defaults_from_config config example_document.ipc_protocol false

abbrev encode : Document → Fields
encode d = end

abbrev encode_defaults : Defaults → Fields
encode_defaults d = end

manifest_url-legacy_example :
    (manifest_url
        (from_legacy encode encode_defaults config legacy_defaults).1
        (from_legacy encode encode_defaults config legacy_defaults).0.global
        legacy_external
      ≡ "https://a/v2/updates/manifest")
    × (manifest_url
          (from_legacy encode encode_defaults config legacy_defaults).1
          (from_legacy encode encode_defaults config legacy_defaults).0.global
          legacy_internal
        ≡ "https://b/hand-made")
    × (manifest_url
          (from_legacy encode encode_defaults config legacy_defaults).1
          (from_legacy encode encode_defaults config legacy_defaults).0.global
          legacy_internal_backup
        ≡ "")
manifest_url-legacy_example =
    manifest_url-legacy encode encode_defaults config legacy_defaults refl refl refl

abbrev host : Host
host = record {
  hwid = "hw";
  hostname = "pc";
  dc = "dc-rm1";
  domain = "corp.test";
  ips = "10.0.0.7" ∷ [];
  now = 10;
}

load-listed_example :
    all
      (λ (n : String).
        has n (from_legacy encode encode_defaults config legacy_defaults).0.global.servers)
      (chain parsers (from_legacy encode encode_defaults config legacy_defaults).0.global host).1
    ≡ true
load-listed_example =
    load-listed parsers print_net "1.0.0" keys encode encode_defaults config legacy_defaults host
      loaded
