-- ===== src/Service/Power/Exclusion.antt =====
-- internal/service/clientpower.go: the interleavings of the critical sections of `destructiveMu`.
use emly_updater.Base.{
  ℕ, ◌≡◌, refl, inl, inr, ◌⊎◌, ◌<◌, String, Bool, true, false, not, ◌&&◌, none, List, arith,
}
use emly_updater.State.{PendingCommand}
use emly_updater.WsClient.Protocol.{Args, Command}
use emly_updater.Service.Power.{
  State, add_pending, remove_pending, clear_destructive_pending, expire, begin_install, end_install,
  has_passed, commit_destructive, log_destructive_skip_once, admit_destructive,
  destructive_pending_now,
}

-- one critical section, or one write of state.json, of any goroutine
pub data Step : State → State → Type 0 where
  begins : {s : State} (now : ℕ) (writable : Bool) → Step s (begin_install now writable s).0
  -- after an install that had begun
  ends : {s : State} → 0 < s.installing → Step s (end_install s)
  commits : {s : State} (id : String) (deadline : ℕ) → Step s (commit_destructive id deadline s).0
  clears : {s : State} → Step s (clear_destructive_pending s)
  reads :
      {s : State} (now : ℕ) (writable : Bool) → Step s (destructive_pending_now now writable s).0
  logs : {s : State} → Step s (log_destructive_skip_once s).0
  records : {s : State} (c : PendingCommand) → Step s (add_pending c s)
  forgets : {s : State} (writable : Bool) (id : String) → Step s (remove_pending writable id s)
  admits :
      {s : State} (lib : Args) (cmd : Command) (now : ℕ) (writable active : Bool)
      → Step s (admit_destructive lib cmd now writable active s).0

abbrev pub initial : List PendingCommand → State
initial stored = record {
  installing = 0;
  pending = false;
  deadline = none;
  command_id = "";
  skip_logged = false;
  stored = stored;
}

-- the states of a run of the service that starts with these pending commands
pub data Reachable (stored : List PendingCommand) : State → Type 0 where
  start : Reachable stored (initial stored)
  next : {s s' : State} → Reachable stored s → Step s s' → Reachable stored s'

abbrev pub IsExclusive : State → Type 0
IsExclusive s = (s.installing ≡ 0) ⊎ (s.pending ≡ false)

pub remove_pending-fields :
    (w : Bool) (id : String) (s : State)
    → ((remove_pending w id s).installing ≡ s.installing)
      × ((remove_pending w id s).pending ≡ s.pending)
remove_pending-fields true id s = (refl, refl)
remove_pending-fields false id s = (refl, refl)

pub expire-fields :
    (now : ℕ) (w : Bool) (s : State)
    → ((expire now w s).installing ≡ s.installing)
      × ((expire now w s).pending ≡ (s.pending && not (has_passed s.deadline now)))
unfolding expire clear_destructive_pending
expire-fields now w s =
    ground (arith, remove_pending-fields w s.command_id (clear_destructive_pending s))

Step-IsExclusive : {s s' : State} → Step s s' → IsExclusive s → IsExclusive s'
unfolding begin_install end_install commit_destructive clear_destructive_pending
    destructive_pending_now log_destructive_skip_once admit_destructive
Step-IsExclusive (begins {s} now w) i = ground (arith, expire-fields now w s)
Step-IsExclusive (ends {s} busy) i = ground arith
Step-IsExclusive (commits {s} id deadline) i = ground arith
Step-IsExclusive (clears {s}) i = inr refl
Step-IsExclusive (reads {s} now w) i = ground (arith, expire-fields now w s)
Step-IsExclusive (logs {s}) i = i
Step-IsExclusive (records {s} c) i = i
Step-IsExclusive (forgets {s} w id) i = ground (arith, remove_pending-fields w id s)
Step-IsExclusive (admits {s} lib cmd now w active) i = ground (arith, expire-fields now w s)

-- In every state that the service can reach, by whatever interleaving, no install is running
-- or no destructive command is committed.
pub Reachable-IsExclusive :
    (stored : List PendingCommand) (s : State) → Reachable stored s → IsExclusive s
Reachable-IsExclusive stored s start = inl refl
Reachable-IsExclusive stored s (next {s = t} r step) =
    Step-IsExclusive step (Reachable-IsExclusive stored t r)
