-- ===== src/Service/Events.antt =====
-- internal/service/clientevents.go: the events kept while no session is up, the session that is
-- published for them, and service.started. An event's payload is a text; what a send answers is an
-- argument.
pub mod Buffer
pub mod Sessions
use emly_updater.Base.{
  ℕ, suc, ◌+◌, ◌-◌, ◌*◌, ◌≡◌, refl, String, Bool, true, false, not, ◌&&◌, ◌||◌, Option, none, some,
  List, [], ◌∷◌, ◌++◌, any, map, length, drop, is_some, is_blank, str_eq, contains, ltb, ◌==◌,
  if◌then◌else◌,
}
use emly_updater.State.{PendingCommand, SelfUpdate}
use emly_updater.WsClient.Protocol.{cmd_machine_reboot, cmd_service_restart}

abbrev pub event_buffer_size : ℕ
event_buffer_size = 32

abbrev pub boot_window : ℕ
boot_window = 10 * 60 * 1000000000

abbrev pub evt_session_changed : String
evt_session_changed = "session.changed"

pub record BufferedEvent : Type 0 where
  pub name : String
  pub payload : String

pub data SendError : Type 0 where
  sent gone too_large : SendError

-- A session is known by its number; `generation` is wsGen.
pub record State : Type 0 where
  pub buffer : List BufferedEvent
  pub session : Option ℕ
  pub generation : ℕ

-- the oldest go first
abbrev pub bounded : List BufferedEvent → List BufferedEvent
bounded es =
    if ltb event_buffer_size (length es) then drop (length es - event_buffer_size) es else es

abbrev pub keep : BufferedEvent → State → State
keep e s = record s { buffer = bounded (s.buffer ++ e ∷ []) }

-- emit: `accepted` is the session's word on the name, `answer` what its send gives.
unfoldable pub emit : BufferedEvent → Bool → SendError → State → State
emit e accepted answer s = elim s.session [
  | none ↦ if str_eq e.name evt_session_changed then s else keep e s
  | some _ ↦ if not accepted then s else elim answer [ sent ↦ s | too_large ↦ s | gone ↦ keep e s ]
]

-- The loop over the buffer that was taken: the events sent, and those kept from the first failure on.
unfoldable pub flush_loop :
    (BufferedEvent → SendError) → List BufferedEvent → List BufferedEvent × List BufferedEvent
flush_loop send [] = ([], [])
flush_loop send (e ∷ es) =
    let (done, kept) = flush_loop send es in
    elim (send e) [ sent ↦ (e ∷ done, kept) | too_large ↦ (done, kept) | gone ↦ ([], e ∷ es) ]

-- flushEvents; `meanwhile` are the events that emit puts in the emptied buffer while it runs.
unfoldable pub flush_events :
    (BufferedEvent → SendError) → List BufferedEvent → State → State × List BufferedEvent
flush_events send meanwhile s =
    let (done, kept) = flush_loop send s.buffer in (record s { buffer = kept ++ meanwhile }, done)

unfoldable pub next_ws_generation : State → State × ℕ
next_ws_generation s = (record s { generation = s.generation + 1 }, s.generation + 1)

unfoldable pub store_ws_session : ℕ → ℕ → State → State
store_ws_session gen session s =
    if s.generation == gen then record s { session = some session } else s

unfoldable pub clear_ws_session : ℕ → State → State
clear_ws_session gen s = record s {
  generation = if s.generation == gen then s.generation + 1 else s.generation;
  session = none;
}

-- A duplicate is passed over; the order is kept.
unfoldable pub capabilities_of : List String → List String → List String
capabilities_of seen [] = []
capabilities_of seen (c ∷ cs) =
    let fresh = capabilities_of (c ∷ seen) cs in
    let rest = capabilities_of seen cs in if contains seen c then rest else c ∷ fresh

pub data Reason : Type 0 where
  boot command self_update unknown : Reason

-- `booted` and `started` are instants, `none` for the zero time; a boot after the start is no boot
-- before it, and the difference is then negative.
booted_just_now : Option ℕ → ℕ → Bool
booted_just_now none started = false
booted_just_now (some b) started = ltb (started - b) boot_window

unfoldable pub service_started_reason :
    List PendingCommand → Option SelfUpdate → Option ℕ → ℕ → Reason
unfolding booted_just_now
service_started_reason cmds landed booted started =
    if any (λ (c : PendingCommand). str_eq c.name cmd_machine_reboot) cmds
    then boot
    else if any (λ (c : PendingCommand). str_eq c.name cmd_service_restart) cmds
    then command
    else if is_some landed
    then self_update
    else if booted_just_now booted started
    then boot
    else unknown
