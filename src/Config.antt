-- ===== src/Config.antt =====
-- internal/config/config.go: config.ini as the service reads it, and what it refuses. Durations are in
-- nanoseconds; the keys of the file are read by the argument `Ini` of Config.Load.
pub mod Load
pub mod Bounds
use Prim.Native.Char.{Char, code}
use Prim.Native.String
use emly_updater.Base.{
  ℕ, ◌≡◌, String, Bool, true, false, not, ◌&&◌, ◌||◌, Option, none, some, List, [], ◌∷◌, ◌==◌, ℤ,
  pos, lt_ℤ, Dict, all, is_empty, is_blank, has_prefix, str_eq, trim_space, trim_slashes,
  if◌then◌else◌,
}
use emly_updater.Policy.Matching.{Std, Url}

abbrev pub source_external : String
source_external = "external"

abbrev pub source_internal : String
source_internal = "internal"

pub record Config : Type 0 where
  pub emly_install_dir : String
  pub emly_exe_name : String
  pub emly_config_file : String
  -- an int64, that can wrap
  pub poll_interval : ℤ
  pub channel_override : String
  pub primary : String
  pub external_manifest_url : String
  pub internal_manifest_url : String
  pub backup_internal_manifest_url : String
  pub user_agent : String
  pub api_key : String
  pub dc_subnet_map : Dict (List String)
  pub dc_lookup_retry_attempts : ℤ
  pub dc_lookup_retry_delay : ℕ
  pub prog_id_eml : String
  pub prog_id_msg : String
  pub critical_warning_enabled : Bool
  pub critical_warning_seconds : ℤ
  pub self_update_enabled : Bool
  pub self_update_manifest_url : String
  pub ipc_enabled : Bool
  pub ipc_pipe_name : String
  pub certificate_enabled : Bool
  pub remote_config_enabled : Bool
  pub remote_config_endpoints : List String
  pub remote_config_route : String
  pub remote_config_timeout : ℕ

unfoldable pub primary_manifest_url : Config → String
primary_manifest_url c =
    if str_eq c.primary source_internal then c.internal_manifest_url else c.external_manifest_url

prepended : Char → List String → List String
prepended c [] = String.◌∷◌ c "" ∷ []
prepended c (x ∷ xs) = String.◌∷◌ c x ∷ xs

-- strings.Split at a character
unfoldable pub split : ℕ → String → List String
unfolding prepended
split sep String.[] = "" ∷ []
split sep (String.◌∷◌ c s) =
    let rest = split sep s in if code c == sep then "" ∷ rest else prepended c rest

-- strings.ContainsAny(s, `\/`)
abbrev pub has_slash : String → Bool
has_slash String.[] = false
has_slash (String.◌∷◌ c s) = (code c == b'/') || (code c == 0x5c) || has_slash s

trimmed_fields : List String → List String
trimmed_fields [] = []
trimmed_fields (f ∷ fs) =
    let field = trim_slashes (trim_space f) in
    let rest = trimmed_fields fs in if is_blank field then rest else field ∷ rest

unfoldable pub split_endpoints : String → List String
unfolding trimmed_fields
split_endpoints raw = trimmed_fields (split b'|' raw)

-- the errors of Load and of validate
pub data Problem : Type 0 where
  bad_timeout bad_retries bad_retry_delay bad_poll_interval bad_subnets no_external no_internal :
      Problem
  bad_primary bad_channel no_emly bad_warning bad_pipe no_endpoints bad_endpoint bad_route : Problem

validate_primary : Config → Option Problem
validate_primary c =
    if str_eq c.primary source_external
    then (if is_blank c.external_manifest_url then some no_external else none)
    else if str_eq c.primary source_internal
    then (if is_blank c.internal_manifest_url then some no_internal else none)
    else some bad_primary

validate_emly : Config → Option Problem
validate_emly c =
    if not (
      is_blank c.channel_override
      || str_eq c.channel_override "stable"
      || str_eq c.channel_override "beta")
    then some bad_channel
    else if is_blank c.emly_install_dir || is_blank c.emly_exe_name || is_blank c.emly_config_file
    then some no_emly
    else if lt_ℤ c.critical_warning_seconds (pos 1)
    then some bad_warning
    else if c.ipc_enabled && (is_blank c.ipc_pipe_name || has_slash c.ipc_pipe_name)
    then some bad_pipe
    else none

absolute : Option Url → Bool
absolute none = false
absolute (some u) = (str_eq u.scheme "http" || str_eq u.scheme "https") && not (is_blank u.host)

abbrev pub first_of : Option Problem → Option Problem → Option Problem
first_of (some p) later = some p
first_of none later = later

module _ {Ip Net : Type 0} (std : Std Ip Net) where
  -- whether an endpoint is an absolute http(s) URL
  unfoldable pub is_endpoint : String → Bool
  unfolding absolute
  is_endpoint ep = absolute (std.parse_url ep)

  validate_remote_config : Config → Option Problem
  validate_remote_config c =
      if not c.remote_config_enabled
      then none
      else if is_empty c.remote_config_endpoints
      then some no_endpoints
      else if not (all is_endpoint c.remote_config_endpoints)
      then some bad_endpoint
      else if not (has_prefix c.remote_config_route "/")
      then some bad_route
      else none

  unfoldable pub validate : Config → Option Problem
  unfolding validate_primary validate_emly validate_remote_config
  validate c = first_of (validate_primary c) (first_of (validate_emly c) (validate_remote_config c))
