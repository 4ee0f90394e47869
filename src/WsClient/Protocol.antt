-- ===== src/WsClient/Protocol.antt =====
-- internal/wsclient/protocol.go: the commands of the client channel and the check of their
-- arguments. DecodeArgs of each argument type is the argument `Args`; `none` is its error.
use emly_updater.Base.{
  ℤ, pos, is_negative, lt_ℤ, String, Bool, not, ◌&&◌, ◌||◌, Option, none, some, List, [], ◌∷◌, all,
  is_blank, str_eq, contains, or_else, if◌then◌else◌,
}

abbrev pub cmd_machine_info : String
cmd_machine_info = "machine.info"

abbrev pub cmd_emly_manifest_check : String
cmd_emly_manifest_check = "emly.manifest.check"

abbrev pub cmd_updater_manifest_check : String
cmd_updater_manifest_check = "updater.manifest.check"

abbrev pub cmd_apps_list_upgradable : String
cmd_apps_list_upgradable = "apps.list_upgradable"

abbrev pub cmd_service_restart : String
cmd_service_restart = "service.restart"

abbrev pub cmd_machine_reboot : String
cmd_machine_reboot = "machine.reboot"

abbrev pub destructive : String → Bool
destructive name = str_eq name cmd_service_restart || str_eq name cmd_machine_reboot

-- The codes of a refusal; its message is left out.
pub data ErrorCode : Type 0 where
  unsupported_command disabled_by_policy insecure_transport invalid_args busy user_active :
      ErrorCode
  expired winget_module_missing timeout internal : ErrorCode

pub record Command : Type 0 where
  pub name : String
  pub args : String
  pub expires_at : String
  pub issued_by : String

pub record Ack : Type 0 where
  pub accepted : Bool
  pub error : Option ErrorCode
  pub duplicate : Bool

pub record Result : Type 0 where
  pub status_ok : Bool
  pub payload : String
  pub error : Option ErrorCode
  pub truncated : Bool

pub record RebootArgs : Type 0 where
  pub delay_seconds : Option ℤ
  pub when_user_active : String

abbrev pub no_reboot_args : RebootArgs
no_reboot_args = record { delay_seconds = none; when_user_active = "" }

abbrev pub reboot_default_delay_seconds : ℤ
reboot_default_delay_seconds = pos 300

abbrev pub reboot_max_delay_seconds : ℤ
reboot_max_delay_seconds = pos 3600

abbrev pub when_user_active_warn : String
when_user_active_warn = "warn"

abbrev pub when_user_active_skip : String
when_user_active_skip = "skip"

abbrev pub delay : RebootArgs → ℤ
delay a = or_else reboot_default_delay_seconds a.delay_seconds

abbrev pub mode : RebootArgs → String
mode a = if is_blank a.when_user_active then when_user_active_warn else a.when_user_active

pub record Args : Type 0 where
  pub reboot_args : String → Option RebootArgs
  pub machine_info_args : String → Option (List String)
  pub no_args : String → Bool

abbrev pub machine_info_sections : List String
machine_info_sections =
    "identity" ∷ "logged_user" ∷ "network" ∷ "site" ∷ "config" ∷ "hardware" ∷ "emly" ∷ "update" ∷ []

known_sections : Option (List String) → Option ErrorCode
known_sections none = some invalid_args
known_sections (some sections) =
    if all (contains machine_info_sections) sections then none else some invalid_args

unfoldable pub reboot_in_range : Option RebootArgs → Option ErrorCode
reboot_in_range none = some invalid_args
reboot_in_range (some a) =
    if is_negative (delay a) || lt_ℤ reboot_max_delay_seconds (delay a)
    then some invalid_args
    else if not (str_eq (mode a) when_user_active_warn)
        && not (str_eq (mode a) when_user_active_skip)
    then some invalid_args
    else none

-- `none` is no error
unfoldable pub validate_args : Args → String → String → Option ErrorCode
unfolding known_sections reboot_in_range
validate_args lib name raw =
    if str_eq name cmd_machine_info
    then known_sections (lib.machine_info_args raw)
    else if str_eq name cmd_machine_reboot
    then reboot_in_range (lib.reboot_args raw)
    else if contains
        (cmd_emly_manifest_check ∷ cmd_updater_manifest_check ∷ cmd_apps_list_upgradable
          ∷ cmd_service_restart ∷ [])
        name
    then (if lib.no_args raw then none else some invalid_args)
    else some unsupported_command

-- the zero arguments where decoding fails, as a caller that ignores the error reads them
abbrev pub reboot_args_of : Args → String → RebootArgs
reboot_args_of lib raw = or_else no_reboot_args (lib.reboot_args raw)
