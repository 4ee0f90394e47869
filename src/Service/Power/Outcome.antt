-- ===== src/Service/Power/Outcome.antt =====
-- internal/service/clientpower.go: what a destructive command leaves behind, its countdown and its
-- deadline.
use emly_updater.Base.{
  ℕ, ◌+◌, ◌*◌, ◌≡◌, refl, inl, inr, ◌≤◌, ◌<◌, ℤ, pos, negsuc, to_ℕ, String, Bool, true, false, not,
  ◌||◌, any, Option, none, some, List, [], ◌∷◌, ◌++◌, filter, or_else, ltb, is_blank, str_eq,
  is_negative, lt_ℤ, arith, if◌then◌else◌, Bool-cases, eq_iff,
}
use emly_updater.State.{PendingCommand}
use emly_updater.WsClient.Protocol.{
  Args, Command, busy, validate_args, reboot_in_range, cmd_machine_reboot, delay, destructive,
  RebootArgs, no_reboot_args,
}
use emly_updater.Service.Power.{
  State, Calls, clear_destructive_pending, expire, begin_install, commit_destructive, second,
  after_record, min_reboot_notice_with_user, run_destructive, reboot_delay, admit_destructive,
  destructive_pending_now, grace,
}

seconds_in_range : (n : ℤ) → (is_negative n || lt_ℤ (pos 3600) n) ≡ false → to_ℕ n ≤ 3600
seconds_in_range (pos n) h = ground arith
seconds_in_range (negsuc n) h = cc

args_in_range :
    (a : Option RebootArgs)
    → reboot_in_range a ≡ none
    → to_ℕ (delay (or_else no_reboot_args a)) ≤ 3600
unfolding reboot_in_range
args_in_range none h = cc
args_in_range (some a) h = seconds_in_range (delay a) (ground arith)

-- A machine.reboot whose arguments pass the check counts down at most an hour, and at least a
-- minute when somebody is using the machine.
pub reboot_delay-bounds :
    (lib : Args) (cmd : Command) (active : Bool)
    → validate_args lib cmd_machine_reboot cmd.args ≡ none
    → (reboot_delay lib cmd active ≤ 3600 * second)
      × ((if active then min_reboot_notice_with_user else 0) ≤ reboot_delay lib cmd active)
unfolding validate_args reboot_delay
reboot_delay-bounds lib cmd active valid =
    let most = args_in_range (lib.reboot_args cmd.args) valid in
    (ground (arith, most), ground arith)

-- a record of this command is kept
abbrev pub has_record : String → List PendingCommand → Bool
has_record id cs = any (λ (c : PendingCommand). str_eq c.id id) cs

forgotten :
    (id : String) (cs : List PendingCommand)
    → has_record id (filter (λ (d : PendingCommand). not (str_eq d.id id)) cs) ≡ false
forgotten id [] = refl
forgotten id (c ∷ cs) = ground (arith, forgotten id cs)

recorded :
    (id name : String) (now : ℕ) (cs : List PendingCommand)
    → has_record id (cs ++ record { id = id; name = name; accepted_at = now } ∷ []) ≡ true
recorded id name now [] = ground (arith, eq_iff id id)
recorded id name now (c ∷ cs) = ground (arith, recorded id name now cs)

-- A destructive command that does not go through leaves no commit and no record of its own, when
-- nothing was committed before and the record can be removed.
pub run_destructive_failure :
    (lib : Args) (id : String) (cmd : Command) (now : ℕ) (active : Bool) (calls : Calls) (s : State)
    → s.pending ≡ false
    → calls.remove_ok ≡ true
    → (run_destructive lib id cmd now active calls s).1 ≡ false
    → ((run_destructive lib id cmd now active calls s).0.pending ≡ false)
      × (has_record id (run_destructive lib id cmd now active calls s).0.stored ≡ false)
unfolding run_destructive after_record commit_destructive clear_destructive_pending
run_destructive_failure lib id cmd now active calls s idle removes failed =
    let none_left =
      forgotten id (s.stored ++ record { id = id; name = cmd.name; accepted_at = now } ∷ []) in
    elim (Bool-cases calls.add_ok) [
      | inr e ↦ rw (e, removes) (idle, forgotten id s.stored)
      | inl e ↦ elim (Bool-cases (ltb 0 s.installing)) [
        | inl f ↦ rw (e, f, removes) (idle, none_left)
        | inr f ↦ elim (Bool-cases calls.act_ok) [
          | inl g ↦ absurd (ground arith)
          | inr g ↦ rw (e, f, g, removes) (refl, none_left)
        ]
      ]
    ]

committed :
    (lib : Args) (id : String) (cmd : Command) (now : ℕ) (active : Bool) (calls : Calls) (s : State)
    → (run_destructive lib id cmd now active calls s).1 ≡ true
    → (s.installing ≡ 0)
      × ((run_destructive lib id cmd now active calls s).0 ≡ record {
        installing = s.installing;
        pending = true;
        deadline = some (now + grace lib cmd active);
        command_id = id;
        skip_logged = false;
        stored = s.stored ++ record { id = id; name = cmd.name; accepted_at = now } ∷ [];
      })
unfolding run_destructive after_record commit_destructive
committed lib id cmd now active calls s done = elim (Bool-cases calls.add_ok) [
  | inl e ↦ elim (Bool-cases (ltb 0 s.installing)) [
    | inr f ↦ elim (Bool-cases calls.act_ok) [
      | inl g ↦ (ground arith, rw (e, f, g) refl)
      | inr g ↦ absurd (ground arith)
    ]
    | inl f ↦ absurd (ground arith)
  ]
  | inr e ↦ absurd (ground arith)
]

-- the state that a committed command leaves
abbrev after_commit : ℕ → ℕ → String → List PendingCommand → State
after_commit n deadline id cs = record {
  installing = n;
  pending = true;
  deadline = some deadline;
  command_id = id;
  skip_logged = false;
  stored = cs;
}

refused_before :
    (lib : Args) (n d later : ℕ) (id : String) (cs : List PendingCommand) (other : Command)
    (w active : Bool)
    → later < d
    → destructive other.name ≡ true
    → ((begin_install later w (after_commit n d id cs)).1 ≡ false)
      × ((admit_destructive lib other later w active (after_commit n d id cs)).1 ≡ some busy)
unfolding begin_install expire admit_destructive destructive_pending_now
refused_before lib n d later id cs other w active early verb = (ground arith, ground arith)

healed_after :
    (n d later : ℕ) (id : String) (cs : List PendingCommand) (writable : Bool)
    → is_blank id ≡ false
    → has_record id cs ≡ true
    → d ≤ later
    → ((begin_install later writable (after_commit n d id cs)).1 ≡ true)
      × (has_record id (begin_install later writable (after_commit n d id cs)).0.stored
          ≡ not writable)
unfolding begin_install expire clear_destructive_pending
healed_after n d later id cs true given there late = (ground arith, ground (arith, forgotten id cs))
healed_after n d later id cs false given there late = (ground arith, ground arith)

-- A destructive command that goes through is recorded, and right after it, before any other command
-- commits or is cleared, installs and further destructive commands are refused until its deadline.
pub run_destructive_holds :
    (lib : Args) (id : String) (cmd : Command) (now : ℕ) (active : Bool) (calls : Calls) (s : State)
    (later : ℕ) (other : Command) (w active' : Bool)
    → (run_destructive lib id cmd now active calls s).1 ≡ true
    → later < now + grace lib cmd active
    → destructive other.name ≡ true
    → (has_record id (run_destructive lib id cmd now active calls s).0.stored ≡ true)
      × ((begin_install later w (run_destructive lib id cmd now active calls s).0).1 ≡ false)
      × ((admit_destructive lib other later w active'
            (run_destructive lib id cmd now active calls s).0).1
          ≡ some busy)
run_destructive_holds lib id cmd now active calls s later other w active' done early verb =
    let after = (committed lib id cmd now active calls s done).1 in
    let refused =
      refused_before lib s.installing (now + grace lib cmd active) later id _ other w active' early
        verb in
    rw after (recorded id cmd.name now s.stored, refused.0, refused.1)

-- When the restart or the reboot did not happen by its deadline, and no other command was committed in
-- between, the service heals: an install can begin, and the record of the command is gone exactly if
-- state.json could be written.
pub run_destructive_heals :
    (lib : Args) (id : String) (cmd : Command) (now : ℕ) (active : Bool) (calls : Calls) (s : State)
    (later : ℕ) (writable : Bool)
    → is_blank id ≡ false
    → (run_destructive lib id cmd now active calls s).1 ≡ true
    → now + grace lib cmd active ≤ later
    → ((begin_install later writable (run_destructive lib id cmd now active calls s).0).1 ≡ true)
      × (has_record id
            (begin_install later writable
              (run_destructive lib id cmd now active calls s).0).0.stored
          ≡ not writable)
run_destructive_heals lib id cmd now active calls s later writable given done late =
    let after = (committed lib id cmd now active calls s done).1 in
    rw after (
      healed_after s.installing (now + grace lib cmd active) later id _ writable given
        (recorded id cmd.name now s.stored) late)
