-- ===== src/Policy/Validate.antt =====
-- internal/policy/parse.go: the field rules of `validateDocument`. The problems stand in the order
-- in which they are found; the final sort of the report by path is left out. The loops over maps go
-- in the order of the entries.
pub mod Whole
pub mod Refs
pub mod Labels
use emly_updater.Base.{
  ℕ, suc, ◌+◌, ◌≡◌, ℤ, pos, lt_ℤ, is_negative, String, Bool, true, false, not, ◌&&◌, ◌||◌, Option,
  none, some, List, [], ◌∷◌, ◌++◌, Dict, lookup, is_some, is_empty, is_blank, str_eq, contains,
  trim_space, ◌<>◌, if◌then◌else◌,
}
use emly_updater.Manifest.{VersionLib, less}
use emly_updater.Base.{Result, ok, err}
use emly_updater.Policy.Document.{
  Document, Refresh, IpcProtocol, IpcVersion, VersionRange, Site, ControlApp, UpdaterSettings,
  LoggingSettings, is_enabled, channel, app_mode_normal, app_mode_read_only, app_mode_maintenance,
  known_client_ws_commands,
}
use emly_updater.Policy.Matching.{Url, Std, host_label}

pub data Message : Type 0 where
  required not_negative not_a_timestamp not_a_semver empty_name unknown_server : Message
  bad_version_key not_listed disabled_version empty_label duplicate_label bad_cidr not_ipv4 :
      Message
  bad_mode bad_channel out_of_range bad_level unknown_command : Message
  not_a_url bad_scheme missing_host has_query ends_in_slash : Message
  too_large bad_json null_document bad_schema undecodable not_a_list not_an_object : Message
  duplicate_id not_allowed must_be_true only_key needs_a_list not_patchable : Message

pub record Problem : Type 0 where
  pub path : String
  pub message : Message

-- add(path, message), unless the test passes
abbrev pub unless : Bool → String → Message → List Problem
unless true path m = []
unless false path m = record { path = path; message = m } ∷ []

-- The problems of each element with its index.
unfoldable pub each {ℓ} : {A : Type ℓ} → (ℕ → A → List Problem) → ℕ → List A → List Problem
each f i [] = []
each f i (x ∷ xs) = f i x ++ each f (i + 1) xs

module _ {Ip Net V : Type 0} (std : Std Ip Net) (lib : VersionLib V) where
  is_timestamp : String → Bool
  is_timestamp s = is_some (std.parse_time s)

  unfoldable pub timestamp : Option String → String → List Problem
  unfolding is_timestamp
  timestamp none path = []
  timestamp (some s) path = unless (is_timestamp s) path not_a_timestamp

  url_error : Url → Option Message
  url_error u =
      if not (str_eq u.scheme "http") && not (str_eq u.scheme "https")
      then some bad_scheme
      else if is_blank u.host
      then some missing_host
      else if not (is_blank u.raw_query) || not (is_blank u.fragment)
      then some has_query
      else if u.path_ends_in_slash
      then some ends_in_slash
      else none

  -- validServerURL; `none` is no error
  unfoldable pub valid_server_url : String → Option Message
  unfolding url_error
  valid_server_url raw = elim (std.parse_url raw) [ none ↦ some not_a_url | some u ↦ url_error u ]

  unfoldable pub valid_cidr : String → Option Message
  valid_cidr c = elim (std.parse_cidr (trim_space c)) [
    | none ↦ some bad_cidr
    | some n ↦ if std.is_ipv4 n then none else some not_ipv4
  ]

  abbrev pub report : String → Option Message → List Problem
  report path none = []
  report path (some m) = record { path = path; message = m } ∷ []

  unfoldable pub valid_version : String → Bool
  valid_version v = elim (less lib v v) [ ok _ ↦ true | err _ ↦ false ]

  unfoldable pub index : String → ℕ → String
  index path i = path <> "/" <> std.itoa (pos i)

  unfoldable pub validate_remote : ℤ → String → List Problem
  unfolding is_timestamp
  validate_remote revision generated_at =
      unless (not (is_negative revision)) "/revision" not_negative
      ++ (if is_blank generated_at
          then unless false "/generatedAt" required
          else unless (is_timestamp generated_at) "/generatedAt" not_a_timestamp)

  unfoldable pub validate_server : ℕ → String × String → List Problem
  validate_server _ (name, raw) =
      if is_blank name
      then unless false "/servers" empty_name
      else report ("/servers/" <> name) (valid_server_url raw)

  -- serverRef, of the servers of the document
  unfoldable pub server_ref : Dict String → String → String → List Problem
  server_ref servers path name =
      if is_blank name
      then unless false path required
      else unless (is_some (lookup name servers)) path unknown_server

  bound : Option String → String → List Problem
  bound none path = []
  bound (some v) path = unless (valid_version v) path not_a_semver

  range : VersionRange → String → List Problem
  unfolding bound
  range r path = bound r.min (path <> "/min") ++ bound r.max (path <> "/max")

  positive : Option ℤ → Bool
  positive none = false
  positive (some n) = lt_ℤ (pos 0) n

  validate_ipc_version : ℕ → String × IpcVersion → List Problem
  unfolding range positive
  validate_ipc_version _ (key, v) =
      let path = "/ipcProtocol/versions/" <> key in
      unless (positive (std.atoi key)) path bad_version_key
      ++ (range v.updater (path <> "/updater") ++ range v.emly (path <> "/emly"))

  default_version : Option IpcVersion → List Problem
  default_version none = unless false "/ipcProtocol/defaultVersion" not_listed
  default_version (some v) =
      unless (is_enabled v.enabled) "/ipcProtocol/defaultVersion" disabled_version

  unfoldable pub validate_ipc : IpcProtocol → List Problem
  unfolding validate_ipc_version default_version
  validate_ipc p =
      each validate_ipc_version 0 p.versions
      ++ default_version (lookup (std.itoa p.default_version) p.versions)

  unfoldable pub site_label : String → String
  site_label name = std.to_lower (host_label name)

  unfoldable pub validate_site : Dict String → String × Site → List Problem
  unfolding index valid_cidr server_ref
  validate_site servers (name, site) =
      let path = "/dcLookupMap/" <> name in
      unless (not (is_empty site.internal_subnets)) (path <> "/internalSubnets") required
      ++ (each (λ i c. report (index (path <> "/internalSubnets") i) (valid_cidr c)) 0
            site.internal_subnets
          ++ (server_ref servers (path <> "/baseServer") site.base_server
              ++ each (λ i b. server_ref servers (index (path <> "/backupServer") i) b) 0
                  site.backup_server))

  label_problems : List String → String → String → List Problem
  label_problems seen label path =
      if is_blank label
      then unless false path empty_label
      else unless (not (contains seen label)) path duplicate_label

  -- The loop over the sites; `seen` are the labels met before (the keys of `seenDC`).
  unfoldable pub validate_sites : Dict String → List String → Dict Site → List Problem
  unfolding label_problems
  validate_sites servers seen [] = []
  validate_sites servers seen ((name, site) ∷ r) =
      label_problems seen (site_label name) ("/dcLookupMap/" <> name)
      ++ (validate_site servers (name, site) ++ validate_sites servers (site_label name ∷ seen) r)
