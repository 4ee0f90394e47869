-- ===== src/Examples/Channels.antt =====
-- Commands of the client channel on concrete inputs.
use emly_updater.Base.{
  ◌≡◌, refl, true, false, not, ◌||◌, ◌&&◌, none, some, List, [], ◌∷◌, lookup, is_blank, leb,
  contains, arith,
}
use emly_updater.WsClient.Protocol.{Command, validate_args, destructive, busy}
use emly_updater.Service.Power as PowerFile
use emly_updater.Service.Power.{
  Calls, second, min_reboot_notice_with_user, reboot_delay, run_destructive, begin_install,
  admit_destructive, grace, commit_destructive,
}
use emly_updater.Service.Power.Exclusion.{
  start, next, begins, commits, initial, IsExclusive, Reachable-IsExclusive,
}
use emly_updater.Service.Power.Outcome.{run_destructive_holds, run_destructive_heals, has_record}
use emly_updater.Service.Commands as CommandFile
use emly_updater.Service.Commands.{
  Env, State, empty_ring, seen, replayed, allows, admit_command, claim_command, fresh, admitted,
  add,
}
use emly_updater.Service.Commands.Window.{IsRing}
use emly_updater.Service.Commands.Dedupe.{Turn, delivered, run, start_redelivered}
use emly_updater.Service.Commands.Admission.{start_admitted}
use emly_updater.Examples.Standins.{no_arguments}

abbrev reboot : Command
reboot = record { name = "machine.reboot"; args = ""; expires_at = ""; issued_by = "admin" }

abbrev idle : PowerFile.State
idle = initial []

abbrev installing_now : PowerFile.State
installing_now = (begin_install 5 true idle).0

Reachable-IsExclusive_example : IsExclusive (commit_destructive "c1" 900 installing_now).0
Reachable-IsExclusive_example =
    Reachable-IsExclusive [] (commit_destructive "c1" 900 installing_now).0
      (next (next start (begins 5 true)) (commits "c1" 900))

abbrev refused_call : Calls
refused_call = record { add_ok = true; remove_ok = true; act_ok = false }

abbrev good_call : Calls
good_call = record { add_ok = true; remove_ok = true; act_ok = true }

run_destructive_holds_example :
    (has_record "c1" (run_destructive no_arguments "c1" reboot 5 false good_call idle).0.stored
      ≡ true)
    × ((begin_install 6 true (run_destructive no_arguments "c1" reboot 5 false good_call idle).0).1
        ≡ false)
    × ((admit_destructive no_arguments reboot 6 true false
          (run_destructive no_arguments "c1" reboot 5 false good_call idle).0).1
        ≡ some busy)
unfolding run_destructive commit_destructive reboot_delay
run_destructive_holds_example =
    run_destructive_holds no_arguments "c1" reboot 5 false good_call idle 6 reboot true false refl
      (omega arith) refl

run_destructive_heals_example :
    ((begin_install 9000000000000 true
        (run_destructive no_arguments "c1" reboot 5 false good_call idle).0).1
      ≡ true)
    × (has_record "c1"
          (begin_install 9000000000000 true
            (run_destructive no_arguments "c1" reboot 5 false good_call idle).0).0.stored
        ≡ false)
unfolding run_destructive commit_destructive reboot_delay
run_destructive_heals_example =
    run_destructive_heals no_arguments "c1" reboot 5 false good_call idle 9000000000000 true refl
      refl (omega arith)

abbrev channel : State
channel = record { ring = empty_ring; running = []; power = idle }

abbrev delivery : Env
delivery = record {
  now = 5;
  sent_at = none;
  expires_at = none;
  allowed = some ("machine.info" ∷ []);
  secure = true;
  active = false;
  writable = true;
  ack_ok = true;
}

abbrev info : Command
info = record { name = "machine.info"; args = ""; expires_at = ""; issued_by = "admin" }

empty-IsRing : IsRing empty_ring
unfolding lookup
empty-IsRing = record {
  bound = omega arith;
  single = refl;
  keys = λ id. refl;
  refused = λ id given. given;
}

abbrev turns : List Turn
turns = delivered delivery "c2" info ∷ []

abbrev first : State
first = (CommandFile.start no_arguments delivery "c1" info channel).0

start_redelivered_example :
    CommandFile.start no_arguments delivery "c1" info (run no_arguments turns first)
    ≡ (run no_arguments turns first, replayed "c1" (run no_arguments turns first).ring, false)
unfolding lookup
start_redelivered_example =
    start_redelivered no_arguments delivery delivery "c1" info info channel turns empty-IsRing refl
      refl (omega arith)

start_admitted_example :
    (is_blank "c1" ≡ false)
    × (seen "c1" empty_ring ≡ false)
    × (validate_args no_arguments "machine.info" "" ≡ none)
    × (allows delivery "machine.info" ≡ true)
    × (contains [] "machine.info" ≡ false)
    × ((not (destructive "machine.info") || true && not (leb 1 0)) ≡ true)
unfolding CommandFile.start fresh admitted admit_command claim_command validate_args allows lookup
    admit_destructive
start_admitted_example = start_admitted no_arguments delivery "c1" info channel refl
