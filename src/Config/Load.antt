-- ===== src/Config/Load.antt =====
-- internal/config/config.go and primary.go: Load, from the keys of config.ini on. The library that reads
-- the file is the argument `Ini`, and the printed form of a subnet the argument `print_net`.
use Prim.Native.Char.{code}
use emly_updater.Base.{
  ℕ, zero, suc, ◌-◌, ◌*◌, ◌%◌, ◌^◌, String, Bool, true, ◌||◌, Option, none, some, List, [], ◌∷◌,
  ◌==◌, ltb, ℤ, pos, negsuc, lt_ℤ, to_ℕ, Dict, insert, contains, has_prefix, ◌<>◌, is_blank,
  trim_space, Result, ok, err, ◌>>=◌, if◌then◌else◌,
}
use emly_updater.Policy.Matching.{Std}
use emly_updater.Config.{
  Config, Problem, bad_timeout, bad_retries, bad_retry_delay, bad_poll_interval, bad_subnets,
  source_external, split, split_endpoints, validate,
}

-- gopkg.in/ini.v1, by section and key; the last argument of the others is the default.
pub record Ini : Type 0 where
  pub string : String → String → String
  pub must_string : String → String → String → String
  pub must_int : String → String → ℤ → ℤ
  pub must_bool : String → String → Bool → Bool

-- the int64 of a product
unfoldable pub int64 : ℕ → ℤ
int64 n = let b = n % (2 ^ 64) in if ltb b (2 ^ 63) then pos b else negsuc (2 ^ 64 - 1 - b)

-- strings.Cut at ":"
cut_colon : String → Option (String × String)
cut_colon String.[] = none
cut_colon (String.◌∷◌ c s) =
    let later = cut_colon s in
    if code c == b':'
    then some ("", s)
    else elim later [ none ↦ none | some (a, b) ↦ some (String.◌∷◌ c a, b) ]

-- strings.ReplaceAll(s, ";", "|")
bars : String → String
bars String.[] = ""
bars (String.◌∷◌ c s) = let rest = bars s in String.◌∷◌ (if code c == b';' then "|" else c) rest

module _ {Ip Net : Type 0} (std : Std Ip Net) (print_net : Net → String) where
  subnet : Option Net → List String → Result Problem (List String)
  subnet none rest = err bad_subnets
  subnet (some n) rest = ok (print_net n ∷ rest)

  parse_fields : List String → Result Problem (List String)
  unfolding subnet
  parse_fields [] = ok []
  parse_fields (f ∷ fs) =
      let field = trim_space f in
      let rest = parse_fields fs in
      if is_blank field then rest else rest >>= subnet (std.parse_cidr field)

  unfoldable pub parse_subnets : String → Result Problem (List String)
  unfolding parse_fields
  parse_subnets raw = parse_fields (split b',' raw)

  -- what one entry adds to the map and to the names seen
  entry_of :
      List String
      → Dict (List String)
      → Option (String × String)
      → Result Problem (List String × Dict (List String))
  entry_of seen out none = err bad_subnets
  entry_of seen out (some (name, cidrs)) =
      let dc = trim_space name in
      if is_blank dc || is_blank (trim_space cidrs) || contains seen (std.to_lower dc)
      then err bad_subnets
      else parse_subnets cidrs >>= λ subnets. ok (std.to_lower dc ∷ seen, insert dc subnets out)

  unfoldable pub parse_entries :
      List String → Dict (List String) → List String → Result Problem (Dict (List String))
  unfolding entry_of cut_colon
  parse_entries seen out [] = ok out
  parse_entries seen out (e ∷ es) =
      let entry = trim_space e in
      let skipped = parse_entries seen out es in
      if is_blank entry
      then skipped
      else entry_of seen out (cut_colon entry) >>= λ next. parse_entries next.0 next.1 es

  unfoldable pub parse_dc_subnet_map : String → Result Problem (Dict (List String))
  unfolding bars
  parse_dc_subnet_map raw = parse_entries [] [] (split b'|' (bars (trim_space raw)))

abbrev chars : String → ℕ
chars String.[] = 0
chars (String.◌∷◌ c s) = suc (chars s)

-- what replaces the characters that `skip` counts, and those after them
replaced : ℕ → String → String → String → String
replaced skip old new String.[] = ""
replaced (suc skip) old new (String.◌∷◌ c s) = replaced skip old new s
replaced zero old new (String.◌∷◌ c s) =
    let after_match = replaced (chars old - 1) old new s in
    let after_char = replaced 0 old new s in
    if has_prefix (String.◌∷◌ c s) old then new <> after_match else String.◌∷◌ c after_char

-- BuildUserAgent
unfoldable pub build_user_agent : String → String → String
unfolding replaced
build_user_agent raw version = replaced 0 "{{VERSION}}" version raw

abbrev pub outside : ℤ → ℤ → ℤ → Bool
outside low high n = lt_ℤ n low || lt_ℤ high n

-- the record that Load fills, from the four numbers and the map that it has checked
unfoldable pub filled :
    Ini → (String → String) → String → ℤ → ℤ → ℤ → ℤ → Dict (List String) → Config
filled ini to_lower version timeout attempts delay minutes dcs = record {
  emly_install_dir = ini.must_string "updater" "emlyInstallDir" "C:\\3gIT\\EMLy";
  emly_exe_name = ini.must_string "updater" "emlyExeName" "EMLy.exe";
  emly_config_file = ini.must_string "updater" "emlyConfigFile" "C:\\3gIT\\EMLy\\config.ini";
  poll_interval = int64 (to_ℕ minutes * 60000000000);
  channel_override = to_lower (trim_space (ini.string "updater" "channelOverride"));
  primary = to_lower (trim_space (ini.must_string "source" "primary" source_external));
  external_manifest_url = trim_space (ini.string "source" "externalManifestURL");
  internal_manifest_url = trim_space (ini.string "source" "internalManifestURL");
  backup_internal_manifest_url = trim_space (ini.string "source" "bkInternManifestURL");
  user_agent = build_user_agent (trim_space (ini.string "source" "userAgent")) version;
  api_key = trim_space (ini.string "source" "xApiKey");
  dc_subnet_map = dcs;
  dc_lookup_retry_attempts = attempts;
  dc_lookup_retry_delay = to_ℕ delay * 1000000000;
  prog_id_eml = ini.must_string "fileAssociations" "progIdEml" "EMLy.EML";
  prog_id_msg = ini.must_string "fileAssociations" "progIdMsg" "EMLy.MSG";
  critical_warning_enabled = ini.must_bool "criticalUpdate" "criticalWarningEnabled" true;
  critical_warning_seconds = ini.must_int "criticalUpdate" "criticalWarningSeconds" (pos 30);
  self_update_enabled = ini.must_bool "selfUpdate" "enabled" true;
  self_update_manifest_url = trim_space (ini.string "selfUpdate" "manifestURL");
  ipc_enabled = ini.must_bool "ipc" "enabled" true;
  ipc_pipe_name = trim_space (ini.must_string "ipc" "pipeName" "EMLyUpdater");
  certificate_enabled = ini.must_bool "certificate" "enabled" true;
  remote_config_enabled = ini.must_bool "remoteConfig" "enabled" true;
  remote_config_endpoints =
      split_endpoints (ini.must_string "remoteConfig" "endpoints" "https://api.emly.ffois.it");
  remote_config_route = trim_space (ini.must_string "remoteConfig" "configPath" "/v2/config");
  remote_config_timeout = to_ℕ timeout * 1000000000;
}

abbrev pub refused_or : Config → Option Problem → Result Problem Config
refused_or c (some p) = err p
refused_or c none = ok c

module _ {Ip Net : Type 0} (std : Std Ip Net) (print_net : Net → String) where
  -- Load, once the file is read; `version` is the version of the build.
  unfoldable pub load : String → Ini → Result Problem Config
  load version ini =
      let timeout = ini.must_int "remoteConfig" "timeoutSeconds" (pos 10) in
      let attempts = ini.must_int "source" "dcLookupRetryAttempts" (pos 6) in
      let delay = ini.must_int "source" "dcLookupRetryDelaySeconds" (pos 5) in
      let minutes = ini.must_int "updater" "pollIntervalMinutes" (pos 30) in
      if outside (pos 1) (pos 120) timeout
      then err bad_timeout
      else if outside (pos 0) (pos 60) attempts
      then err bad_retries
      else if outside (pos 0) (pos 300) delay
      then err bad_retry_delay
      else if lt_ℤ minutes (pos 1)
      then err bad_poll_interval
      else parse_dc_subnet_map std print_net (ini.string "source" "defaultMappingDCSubnets")
        >>= λ dcs.
            let c = filled ini std.to_lower version timeout attempts delay minutes dcs in
            refused_or c (validate std c)
