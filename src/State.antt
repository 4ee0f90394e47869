-- ===== src/State.antt =====
-- internal/state: state.json and the operations of its `Store`. A file is what a read finds in it;
-- the results of the system calls of one operation are its argument `Io`. The mutex makes each
-- operation one step, so concurrent callers are sequences of operations (State/Lifecycles).
pub mod Atomic
pub mod Lifecycles
use emly_updater.Base.{
  ℕ, String, Bool, true, false, not, Option, none, some, Result, ok, err, List, [], ◌∷◌, ◌++◌,
  filter, str_eq, if◌then◌else◌,
}

pub record Pending : Type 0 where
  pub version : String
  pub setup_path : String
  pub sha256 : String
  pub forced : Bool
  pub downloaded_at : ℕ

pub record SelfUpdate : Type 0 where
  pub version : String
  pub from_version : String
  pub setup_path : String
  pub sha256 : String
  pub attempts : ℕ
  pub gave_up : Bool
  pub launched_at : ℕ

pub record PendingCommand : Type 0 where
  pub id : String
  pub name : String
  pub accepted_at : ℕ

pub record State : Type 0 where
  pub pending : Option Pending
  pub self_update : Option SelfUpdate
  pub pending_commands : List PendingCommand

abbrev pub empty : State
empty = record { pending = none; self_update = none; pending_commands = [] }

pub data Error : Type 0 where
  corrupt_state : Error
  backup_failed : Error
  unreadable : Error
  not_saved : Error

-- What os.ReadFile and json.Unmarshal make of a path.
pub data File : Type 0 where
  missing : File
  bad : File
  stored : State → File

pub record Dir : Type 0 where
  pub state_file : File
  pub backup : File
  pub temp : Option File

-- The outcome of each system call of one operation.
pub record Io : Type 0 where
  pub read_ok : Bool
  pub backup_ok : Bool
  pub marshal_ok : Bool
  pub mkdir_ok : Bool
  pub create_ok : Bool
  pub write_ok : Bool
  pub close_ok : Bool
  pub rename_ok : Bool

-- Reading a file that is there can fail for reasons of its own.
load_file : Bool → File → Result Error State
load_file _ missing = ok empty
load_file true bad = err corrupt_state
load_file true (stored s) = ok s
load_file false _ = err unreadable

unfoldable pub load : Io → Dir → Result Error State
unfolding load_file
load io d = load_file io.read_ok d.state_file

-- The temp file is removed on each failure after its creation.
unfoldable pub save : Io → State → Dir → Dir × Option Error
save io s d =
    if not io.marshal_ok
    then (d, some not_saved)
    else if not io.mkdir_ok
    then (d, some not_saved)
    else if not io.create_ok
    then (d, some not_saved)
    else (let d' = record d { temp = some (if io.write_ok then stored s else bad) } in
        let removed = record d' { temp = none } in
        if not io.write_ok
        then (removed, some not_saved)
        else if not io.close_ok
        then (removed, some not_saved)
        else if not io.rename_ok
        then (removed, some not_saved)
        else (record removed { state_file = stored s }, none))

-- What `update` does with the result of its read. The last part says whether OnCorrupt is called.
after_load : Result Error State → (State → State) → Io → Dir → Dir × Option Error × Bool
after_load (ok s) mutate io d = let (d', e) = save io (mutate s) d in (d', e, false)
after_load (err corrupt_state) mutate io d =
    if io.backup_ok
    then (let (d', e) =
          save io (mutate empty) (record d { state_file = missing; backup = d.state_file }) in
        (d', e, true))
    else (d, some backup_failed, false)
after_load (err e) mutate io d = (d, some e, false)

unfoldable pub update : (State → State) → Io → Dir → Dir × Option Error × Bool
unfolding after_load load save
update mutate io d = after_load (load io d) mutate io d

abbrev pub with_pending : Option Pending → State → State
with_pending p s = record s { pending = p }

abbrev pub with_self_update : Option SelfUpdate → State → State
with_self_update u s = record s { self_update = u }

abbrev pub with_command : PendingCommand → State → State
with_command c s = record s { pending_commands = s.pending_commands ++ c ∷ [] }

abbrev pub without_command : String → State → State
without_command id s = record s {
  pending_commands = filter (λ (c : PendingCommand). not (str_eq c.id id)) s.pending_commands;
}

abbrev pub without_commands : State → State
without_commands s = record s { pending_commands = [] }

unfoldable pub set_pending : Pending → Io → Dir → Dir × Option Error × Bool
set_pending p = update (with_pending (some p))

unfoldable pub clear_pending : Io → Dir → Dir × Option Error × Bool
clear_pending = update (with_pending none)

unfoldable pub set_self_update : SelfUpdate → Io → Dir → Dir × Option Error × Bool
set_self_update u = update (with_self_update (some u))

unfoldable pub clear_self_update : Io → Dir → Dir × Option Error × Bool
clear_self_update = update (with_self_update none)

unfoldable pub add_pending_command : PendingCommand → Io → Dir → Dir × Option Error × Bool
add_pending_command c = update (with_command c)

unfoldable pub remove_pending_command : String → Io → Dir → Dir × Option Error × Bool
remove_pending_command id = update (without_command id)

-- What the closure of TakePendingCommands is handed: it runs when the read succeeds, or after a
-- corrupt file was moved aside, whatever the save does later.
taken_of : Result Error State → Bool → List PendingCommand
taken_of (ok s) _ = s.pending_commands
taken_of (err _) _ = []

unfoldable pub take_pending_commands : Io → Dir → List PendingCommand × Dir × Option Error
unfolding taken_of load
take_pending_commands io d =
    let (d', e, _) = update without_commands io d in (taken_of (load io d) io.backup_ok, d', e)
