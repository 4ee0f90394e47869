-- ===== src/Service/Commands.antt =====
-- internal/service/clientcmd.go: the ring of the command ids seen, and a command from its delivery
-- to its result. The three maps of Go are association lists, the claimed names a list; the two
-- halves of executeCommand, before and after the command runs, are `start` and `finish`, since
-- other commands run in between.
pub mod Window
pub mod Dedupe
pub mod Admission
use emly_updater.Base.{
  ℕ, suc, ◌+◌, ◌-◌, ◌*◌, ◌≡◌, refl, String, Bool, true, false, not, ◌&&◌, ◌||◌, Option, none, some,
  List, [], ◌∷◌, ◌++◌, filter, Dict, lookup, insert, delete, length, is_blank, str_eq, contains,
  ltb, if◌then◌else◌, or_else, is_some,
}
use emly_updater.State.{PendingCommand}
use emly_updater.Service.Power as PowerFile
use emly_updater.Service.Power.{Calls, admit_destructive, run_destructive, second}
use emly_updater.WsClient.Protocol.{
  Args, Command, Ack, Result, ErrorCode, invalid_args, busy, expired, disabled_by_policy,
  insecure_transport, destructive, validate_args,
}

abbrev pub command_ring_size : ℕ
command_ring_size = 64

abbrev pub max_clock_skew : ℕ
max_clock_skew = 5 * 60 * second

-- `results` holds a nil for an id whose result is not there yet.
pub record Ring : Type 0 where
  pub order : List String
  pub results : Dict (Option Result)
  pub refusals : Dict ErrorCode

abbrev pub empty_ring : Ring
empty_ring = record { order = []; results = []; refusals = [] }

-- the oldest id goes when there are too many
unfoldable pub trimmed : List String → Dict (Option Result) → Dict ErrorCode → Ring
trimmed [] results refusals = record { order = []; results = results; refusals = refusals }
trimmed (id ∷ ids) results refusals =
    if ltb command_ring_size (length (id ∷ ids))
    then record { order = ids; results = delete id results; refusals = delete id refusals }
    else record { order = id ∷ ids; results = results; refusals = refusals }

unfoldable pub add : String → Ring → Ring
unfolding trimmed
add id r = trimmed (r.order ++ id ∷ []) (insert id none r.results) r.refusals

-- lookup: the result, the refusal, and whether the id is known
abbrev pub seen : String → Ring → Bool
seen id r = is_some (lookup id r.results)

abbrev pub result_of : String → Ring → Option Result
result_of id r = or_else none (lookup id r.results)

unfoldable pub store : String → Result → Ring → Ring
store id res r = if seen id r then record r { results = insert id (some res) r.results } else r

unfoldable pub refuse : String → ErrorCode → Ring → Ring
refuse id e r = record r { refusals = insert id e r.refusals }

unfoldable pub seed_command_ring : List PendingCommand → Ring → Ring
seed_command_ring [] r = r
seed_command_ring (c ∷ cs) r = seed_command_ring cs (add c.id r)

pub record State : Type 0 where
  pub ring : Ring
  pub running : List String
  pub power : PowerFile.State

unfoldable pub claim_command : String → State → State × Bool
claim_command name s =
    if contains s.running name then (s, false) else (record s { running = name ∷ s.running }, true)

unfoldable pub release_command : String → State → State
release_command name s = record s { running = filter (λ n. not (str_eq n name)) s.running }

-- What one delivery reads from outside: the clock, the times of the message and of its expiry where
-- they parse, the verbs that the policy allows (`none` before the first cycle), whether the
-- connection is wss, whether a user is active, and whether the write of state.json succeeds and the
-- ack is sent.
pub record Env : Type 0 where
  pub now : ℕ
  pub sent_at : Option ℕ
  pub expires_at : Option ℕ
  pub allowed : Option (List String)
  pub secure : Bool
  pub active : Bool
  pub writable : Bool
  pub ack_ok : Bool

-- What goes back on the connection.
pub data Sent : Type 0 where
  ack : String → Ack → Sent
  result : String → Result → Sent

abbrev pub refused_ack : Bool → ErrorCode → Ack
refused_ack duplicate e = record { accepted = false; error = some e; duplicate = duplicate }

abbrev pub accepted_ack : Bool → Ack
accepted_ack duplicate = record { accepted = true; error = none; duplicate = duplicate }

-- the two clocks agree within `max_clock_skew`
close_by : ℕ → ℕ → Bool
close_by a b = ltb (a - b) max_clock_skew && ltb (b - a) max_clock_skew

is_expired : Env → Bool
unfolding close_by
is_expired env = elim env.expires_at [
  | none ↦ false
  | some exp ↦ elim env.sent_at [ none ↦ false | some ts ↦ ltb exp env.now && close_by env.now ts ]
]

unfoldable pub allows : Env → String → Bool
allows env name = elim env.allowed [ none ↦ false | some names ↦ contains names name ]

unfoldable pub replayed : String → Ring → List Sent
replayed id r = elim (lookup id r.refusals) [
  | some e ↦ ack id (refused_ack true e) ∷ []
  | none ↦
      ack id (accepted_ack true)
      ∷ elim (result_of id r) [ none ↦ [] | some res ↦ result id res ∷ [] ]
]

-- what follows a read-only command
unfoldable pub finish : String → Command → Result → State → State × List Sent
finish id cmd res s =
    (release_command cmd.name (record s { ring = store id res s.ring }), result id res ∷ [])

module _ (lib : Args) where
  unfoldable pub admit_command :
      Env → Command → PowerFile.State → PowerFile.State × Option ErrorCode
  unfolding is_expired allows
  admit_command env cmd p = elim (validate_args lib cmd.name cmd.args) [
    | some e ↦ (p, some e)
    | none ↦
        if is_expired env
        then (p, some expired)
        else if not (allows env cmd.name)
        then (p, some disabled_by_policy)
        else if destructive cmd.name && not env.secure
        then (p, some insecure_transport)
        else admit_destructive lib cmd env.now env.writable env.active p
  ]

  -- A new id, once it is in the ring. The last part is whether the command is to run now.
  unfoldable pub admitted : Env → String → Command → State → State × List Sent × Bool
  admitted env id cmd s =
      let (s', claimed) = claim_command cmd.name s in
      if not claimed
      then (
        record s' { ring = refuse id busy s'.ring },
        ack id (refused_ack false busy) ∷ [],
        false,
      )
      else if env.ack_ok
      then (s', ack id (accepted_ack false) ∷ [], true)
      else (release_command cmd.name s', [], false)

  unfoldable pub fresh : Env → String → Command → State → State × List Sent × Bool
  unfolding admitted
  fresh env id cmd s =
      let (p, refusal) = admit_command env cmd s.power in
      elim refusal [
        | some e ↦ (
          record s { ring = refuse id e s.ring; power = p },
          ack id (refused_ack false e) ∷ [],
          false,
        )
        | none ↦ admitted env id cmd (record s { power = p })
      ]

  -- executeCommand up to the point where the command runs: its lookup in the ring, its admission, its
  -- claim and its entry in the ring are critical sections of their own in the source, and one step here
  unfoldable pub start : Env → String → Command → State → State × List Sent × Bool
  unfolding fresh
  start env id cmd s =
      if is_blank id
      then (s, ack id (refused_ack false invalid_args) ∷ [], false)
      else if seen id s.ring
      then (s, replayed id s.ring, false)
      else fresh env id cmd (record s { ring = add id s.ring })

  -- What follows a destructive command: runDestructive, when nothing comes between, and the release
  -- of the name. Its result is sent by runDestructive, and none is stored.
  unfoldable pub finish_destructive : Env → String → Command → Calls → State → State
  finish_destructive env id cmd calls s =
      release_command cmd.name
        (record s { power = (run_destructive lib id cmd env.now env.active calls s.power).0 })
