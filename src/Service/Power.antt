-- ===== src/Service/Power.antt =====
-- internal/service/clientpower.go: installs and destructive commands. The fields that
-- `destructiveMu` guards, with `installing` and the pending commands of state.json, are the state;
-- each function that takes the lock is one step. A write of state.json fails when its Boolean
-- argument is false.
pub mod Exclusion
pub mod Outcome
use emly_updater.Base.{
  ℕ, suc, ◌+◌, ◌-◌, ◌*◌, ◌≡◌, ℤ, to_ℕ, String, Bool, true, false, not, ◌&&◌, ◌||◌, Option, none,
  some, List, [], ◌∷◌, ◌++◌, filter, is_blank, str_eq, ltb, if◌then◌else◌,
}
use emly_updater.State.{PendingCommand}
use emly_updater.WsClient.Protocol.{
  Args, Command, ErrorCode, busy, user_active, RebootArgs, cmd_service_restart, cmd_machine_reboot,
  destructive, delay, mode, when_user_active_skip, reboot_args_of,
}

abbrev pub second : ℕ
second = 1000000000

abbrev pub min_reboot_notice_with_user : ℕ
min_reboot_notice_with_user = 60 * second

abbrev pub reboot_grace : ℕ
reboot_grace = 5 * 60 * second

abbrev pub service_restart_grace : ℕ
service_restart_grace = 3 * 60 * second

pub record State : Type 0 where
  pub installing : ℕ
  pub pending : Bool
  pub deadline : Option ℕ
  pub command_id : String
  pub skip_logged : Bool
  pub stored : List PendingCommand

-- the pending commands of state.json
abbrev pub add_pending : PendingCommand → State → State
add_pending c s = record s { stored = s.stored ++ c ∷ [] }

abbrev pub remove_pending : Bool → String → State → State
remove_pending writable id s =
    if writable
    then record s { stored = filter (λ (c : PendingCommand). not (str_eq c.id id)) s.stored }
    else s

unfoldable pub clear_destructive_pending : State → State
clear_destructive_pending s = record s {
  pending = false;
  deadline = none;
  command_id = "";
  skip_logged = false;
}

abbrev pub has_passed : Option ℕ → ℕ → Bool
has_passed none now = false
has_passed (some d) now = not (ltb now d)

-- destructivePendingLocked, without its result: the flag after it.
unfoldable pub expire : ℕ → Bool → State → State
unfolding clear_destructive_pending
expire now writable s =
    if s.pending && has_passed s.deadline now
    then (if is_blank s.command_id
        then clear_destructive_pending s
        else remove_pending writable s.command_id (clear_destructive_pending s))
    else s

-- destructivePendingNow, with the state it leaves
unfoldable pub destructive_pending_now : ℕ → Bool → State → State × Bool
destructive_pending_now now writable s = (expire now writable s, (expire now writable s).pending)

unfoldable pub begin_install : ℕ → Bool → State → State × Bool
begin_install now writable s =
    let s' = expire now writable s in
    if s'.pending then (s', false) else (record s' { installing = s'.installing + 1 }, true)

unfoldable pub end_install : State → State
end_install s = record s { installing = s.installing - 1 }

unfoldable pub commit_destructive : String → ℕ → State → State × Bool
commit_destructive id deadline s = if ltb 0 s.installing then (s, false) else (
  record s { pending = true; deadline = some deadline; command_id = id; skip_logged = false },
  true,
)

-- whether the line is logged
unfoldable pub log_destructive_skip_once : State → State × Bool
log_destructive_skip_once s = (record s { skip_logged = true }, not s.skip_logged)

-- The outcomes of the calls of one runDestructive: AddPendingCommand, its removal, and the
-- restart or the reboot itself.
pub record Calls : Type 0 where
  pub add_ok : Bool
  pub remove_ok : Bool
  pub act_ok : Bool

module _ (lib : Args) where
  skips : Command → Bool → Bool
  skips cmd active =
      str_eq cmd.name cmd_machine_reboot
      && str_eq (mode (reboot_args_of lib cmd.args)) when_user_active_skip
      && active

  -- `active`: somebody is using the console or an RDP session
  unfoldable pub admit_destructive : Command → ℕ → Bool → Bool → State → State × Option ErrorCode
  unfolding skips
  admit_destructive cmd now writable active s =
      if not (destructive cmd.name)
      then (s, none)
      else if ltb 0 s.installing
      then (s, some busy)
      else (let (s', pending) = destructive_pending_now now writable s in
          if pending
          then (s', some busy)
          else (s', if skips cmd active then some user_active else none))

  -- The countdown of a reboot; a negative number of seconds passes no admission.
  unfoldable pub reboot_delay : Command → Bool → ℕ
  reboot_delay cmd active =
      let asked = to_ℕ (delay (reboot_args_of lib cmd.args)) * second in
      if active && ltb asked min_reboot_notice_with_user then min_reboot_notice_with_user else asked

  -- commitDestructive and what follows, up to the restart or the reboot
  unfoldable pub after_record : String → ℕ → Calls → State → State × Bool
  after_record id deadline calls s =
      let (s', committed) = commit_destructive id deadline s in
      if not committed
      then (remove_pending calls.remove_ok id s', false)
      else if calls.act_ok
      then (s', true)
      else (remove_pending calls.remove_ok id (clear_destructive_pending s'), false)

  abbrev pub grace : Command → Bool → ℕ
  grace cmd active =
      if str_eq cmd.name cmd_service_restart
      then service_restart_grace
      else reboot_delay cmd active + reboot_grace

  -- The whole of runDestructive when nothing comes between; the second part is whether the service
  -- is about to restart, or the machine to reboot.
  unfoldable pub run_destructive : String → Command → ℕ → Bool → Calls → State → State × Bool
  unfolding after_record
  run_destructive id cmd now active calls s =
      if not calls.add_ok
      then (remove_pending calls.remove_ok id s, false)
      else after_record id (now + grace cmd active) calls
          (add_pending (record { id = id; name = cmd.name; accepted_at = now }) s)
