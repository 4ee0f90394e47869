-- ===== src/Examples/Standins.antt =====
-- Stand-ins for hashicorp/go-version, the standard library's parsers, encoding/json and protobuf.
use emly_updater.Base.{
  ℕ, sym, pos, true, false, none, some, List, [], ◌∷◌, ltb, str_eq, arith, if◌then◌else◌,
}
use emly_updater.Manifest.{VersionLib, IsStrictOrder}
use emly_updater.Ipc.Framing.{Codec, IsRoundTrip}
use emly_updater.Policy.Document.{Document}
use emly_updater.Policy.Matching.{Std}
use emly_updater.Policy.Parse.{Json}
use emly_updater.WsClient.Protocol.{Args}

-- four versions
abbrev pub versions : VersionLib ℕ
versions = record {
  new_version = λ s.
      if str_eq s "1.0.0"
      then some 100
      else if str_eq s "2.0.0"
      then some 200
      else if str_eq s "2.1.0"
      then some 210
      else if str_eq s "2.2.0"
      then some 220
      else none;
  less_than = λ a b. ltb a b;
}

pub versions-IsStrictOrder : IsStrictOrder versions
versions-IsStrictOrder = record {
  irreflexive = λ v. ground arith;
  transitive = λ u v w p q. ground arith;
  weak = λ u v w p. ground arith;
}

-- messages are byte strings
abbrev pub bytes : Codec (List ℕ)
bytes = record { marshal = λ e. some e; unmarshal = λ bs. some bs }

pub bytes-IsRoundTrip : IsRoundTrip bytes
bytes-IsRoundTrip = record { reads_back = λ e bs h. sym h }

-- every address is one of a server, every time and every subnet the same
abbrev pub parsers : Std ℕ ℕ
parsers = record {
  fold = λ s. s;
  to_lower = λ s. s;
  parse_time = λ s. some 100;
  parse_ip = λ s. some 1;
  parse_cidr = λ s. some 1;
  in_net = λ n ip. true;
  is_ipv4 = λ n. true;
  parse_url = λ s. some (record {
    scheme = "https";
    host = s;
    raw_query = "";
    fragment = "";
    path = "";
    path_ends_in_slash = false;
  });
  atoi = λ s. some (pos 1);
  itoa = λ n. "1";
}

-- arguments are never sent
abbrev pub no_arguments : Args
no_arguments = record {
  reboot_args = λ raw. some (record { delay_seconds = none; when_user_active = "" });
  machine_info_args = λ raw. some [];
  no_args = λ raw. true;
}

abbrev pub example_document : Document
example_document = record {
  schema_version = pos 1;
  revision = pos 7;
  generated_at = "2026-01-01T00:00:00Z";
  refresh = record { interval_minutes = pos 60; stale_after_days = pos 7 };
  servers = ("main", "https://main") ∷ [];
  default_server = "main";
  ipc_protocol = record {
    versions =
        (
          "1",
          record {
            updater = record { min = none; max = none };
            emly = record { min = some "2.1.0"; max = none };
            enabled = none;
          },
        )
        ∷ [];
    default_version = pos 1;
  };
  dc_lookup_map =
      (
        "dc-rm1",
        record {
          internal_subnets = "10.0.0.0/8" ∷ [];
          base_server = "main";
          backup_server = [];
          enabled = none;
        },
      )
      ∷ [];
  host_integrity = record { enabled = false; whitelist = record { hostnames = []; hwids = [] } };
  control = record {
    updater = record { enabled = false; reason = none; until = some "2026-01-01T00:00:00Z" };
    app = record { enabled = true; mode = "normal"; reason = none; until = none };
  };
  updater = record {
    poll_interval_minutes = pos 15;
    channel_override = none;
    critical_warning = record { enabled = true; seconds = pos 60 };
    dc_lookup_retry = record { attempts = pos 3; delay_seconds = pos 5 };
    resolver = record { attempts = pos 3; base_backoff_seconds = pos 5 };
    self_update = record { enabled = true };
    install_certificate = record { enabled = true };
  };
  logging = record {
    level = "info";
    max_size_mb = pos 10;
    backups = pos 5;
    compress = true;
    event_log = true;
  };
  client_ws = record { enabled = true; commands = "machine.info" ∷ "machine.reboot" ∷ [] };
  overrides = [];
}

-- every object decodes to the same document
abbrev pub decoders : Json
decoders = record { decode = λ fs. some example_document; decode_override = λ fs. none }
