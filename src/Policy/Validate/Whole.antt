-- ===== src/Policy/Validate/Whole.antt =====
-- internal/policy/parse.go: the settings checked by `validateDocument`, and the whole of it.
use emly_updater.Base.{
  ℕ, ℤ, pos, lt_ℤ, String, Bool, not, ◌&&◌, ◌||◌, List, [], ◌∷◌, ◌++◌, concat, is_empty, is_blank,
  str_eq, contains, if◌then◌else◌,
}
use emly_updater.Manifest.{VersionLib}
use emly_updater.Policy.Document.{
  Document, Control, UpdaterSettings, LoggingSettings, ClientWsSettings, channel, app_mode_normal,
  app_mode_read_only, app_mode_maintenance, known_client_ws_commands,
}
use emly_updater.Policy.Matching.{Std}
use emly_updater.Policy.Validate.{
  Problem, unless, each, required, not_negative, bad_mode, bad_channel, out_of_range, bad_level,
  unknown_command, timestamp, index, validate_remote, validate_server, server_ref, validate_ipc,
  validate_sites,
}

-- lo ≤ n ≤ hi
abbrev pub within : ℕ → ℕ → ℤ → Bool
within lo hi n = not (lt_ℤ n (pos lo)) && not (lt_ℤ (pos hi) n)

abbrev pub at_least : ℕ → ℤ → Bool
at_least lo n = not (lt_ℤ n (pos lo))

-- The interval is put in range, and nothing is reported of it.
clamped_interval : ℤ → ℤ
clamped_interval n = if lt_ℤ n (pos 1) then pos 1 else if lt_ℤ (pos 1440) n then pos 1440 else n

unfoldable pub clamp_refresh : Document → Document
unfolding clamped_interval
clamp_refresh d =
    let r = d.refresh in
    record d { refresh = record r { interval_minutes = clamped_interval r.interval_minutes } }

unfoldable pub validate_settings : UpdaterSettings → List Problem
validate_settings up = concat (
    unless (at_least 1 up.poll_interval_minutes) "/updater/pollIntervalMinutes" out_of_range
    ∷ unless (is_blank (channel up) || str_eq (channel up) "stable" || str_eq (channel up) "beta")
        "/updater/channelOverride" bad_channel
    ∷ unless (at_least 0 up.critical_warning.seconds) "/updater/criticalWarning/seconds"
        out_of_range
    ∷ unless (within 0 60 up.dc_lookup_retry.attempts) "/updater/dcLookupRetry/attempts"
        out_of_range
    ∷ unless (within 0 300 up.dc_lookup_retry.delay_seconds) "/updater/dcLookupRetry/delaySeconds"
        out_of_range
    ∷ unless (at_least 1 up.resolver.attempts) "/updater/resolver/attempts" out_of_range
    ∷ unless (at_least 0 up.resolver.base_backoff_seconds) "/updater/resolver/baseBackoffSeconds"
        out_of_range
    ∷ [])

unfoldable pub validate_logging : LoggingSettings → List Problem
validate_logging lg =
    unless (contains ("debug" ∷ "info" ∷ "warn" ∷ "error" ∷ []) lg.level) "/logging/level" bad_level
    ++ (unless (within 1 100 lg.max_size_mb) "/logging/maxSizeMB" out_of_range
        ++ unless (within 0 50 lg.backups) "/logging/backups" out_of_range)

valid_mode : String → Bool
valid_mode mode =
    str_eq mode app_mode_normal
    || str_eq mode app_mode_read_only
    || str_eq mode app_mode_maintenance

module _ {Ip Net V : Type 0} (std : Std Ip Net) (lib : VersionLib V) where
  validate_control : Control → List Problem
  unfolding valid_mode
  validate_control c =
      timestamp std lib c.updater.until "/control/updater/until"
      ++ (timestamp std lib c.app.until "/control/app/until"
          ++ unless (valid_mode c.app.mode) "/control/app/mode" bad_mode)

  validate_commands : ClientWsSettings → List Problem
  validate_commands c =
      each
        (λ i name.
          unless (contains known_client_ws_commands name) (index std lib "/clientWs/commands" i)
            unknown_command)
        0 c.commands

  unfoldable pub topology : Document → List (List Problem)
  topology d =
      unless (not (is_empty d.servers)) "/servers" required
      ∷ each (validate_server std lib) 0 d.servers
      ∷ server_ref std lib d.servers "/defaultServer" d.default_server
      ∷ validate_ipc std lib d.ipc_protocol
      ∷ validate_sites std lib d.servers [] d.dc_lookup_map
      ∷ []

  unfoldable pub sections : Document → Bool → List (List Problem)
  unfolding validate_control validate_commands
  sections d remote =
      (if remote then validate_remote std lib d.revision d.generated_at else [])
      ∷ unless (at_least 0 d.refresh.stale_after_days) "/refresh/staleAfterDays" not_negative
      ∷ concat (topology d)
      ∷ validate_control d.control
      ∷ validate_settings d.updater
      ∷ validate_logging d.logging
      ∷ validate_commands d.client_ws
      ∷ []

  unfoldable pub problems_of : Document → Bool → List Problem
  problems_of d remote = concat (sections d remote)

  -- The document with its refresh interval in range, and the problems found in it.
  unfoldable pub validate_document : Document → Bool → Document × List Problem
  validate_document d remote = (clamp_refresh d, problems_of d remote)
