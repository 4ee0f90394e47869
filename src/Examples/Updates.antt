-- ===== src/Examples/Updates.antt =====
-- Manifests, state.json and the self-update on concrete inputs.
use emly_updater.Base.{
  ℕ, ◌+◌, ◌*◌, ◌≤◌, ◌≡◌, ◌≢◌, ◌⊎◌, refl, true, false, none, some, List, [], ◌∷◌, ok, arith, filter,
}
use emly_updater.Manifest.{Manifest, less, channel_version}
use emly_updater.Manifest.Channel.{channel_version-not_behind}
use emly_updater.Manifest.Updater.{UpdaterManifest}
use emly_updater.State as StateFile
use emly_updater.State.{
  Dir, Io, SelfUpdate, stored, save, update, take_pending_commands, missing, with_pending,
}
use emly_updater.State.Atomic.{update_atomic, document}
use emly_updater.State.Lifecycles.{
  lifecycles_independent, add_command, clear_pending, run_ops, saved_ops, mutate_all, is_emly,
  is_updater, is_channel,
}
use emly_updater.SelfUpdate.{max_attempts, Decision, retrying, exhausted}
use emly_updater.Service.SelfUpdate.{Env}
use emly_updater.Service.SelfUpdate.Bounded.{launches_bounded, launches, spent}
use emly_updater.Examples.Standins.{versions, versions-IsStrictOrder}

abbrev two_channels : Manifest
two_channels = record {
  stable_version = "2.1.0";
  beta_version = "2.0.0";
  stable_download = "stable.exe";
  beta_download = "beta.exe";
  is_critical = false;
  min_required_version = "2.0.0";
  sha256_checksums = [];
  release_notes = [];
  detailed_release_notes = [];
}

channel_version-not_behind_example :
    (less versions "2.1.0" "2.1.0" ≡ ok false)
    × (((two_channels.stable_version ≡ "2.1.0") × (two_channels.stable_download ≡ "stable.exe"))
        ⊎ ((two_channels.stable_version ≡ two_channels.beta_version)
            × (two_channels.stable_download ≡ two_channels.beta_download)))
unfolding channel_version less
channel_version-not_behind_example =
    channel_version-not_behind versions versions-IsStrictOrder two_channels "2.1.0" "stable.exe"
      refl refl refl

abbrev release : UpdaterManifest
release = record {
  version = "2.2.0";
  download = "setup.exe";
  sha256 = "ab";
  size = 10;
  published_at = "";
  release_notes = [];
}

abbrev full : Io
full = record {
  read_ok = true;
  backup_ok = true;
  marshal_ok = true;
  mkdir_ok = true;
  create_ok = true;
  write_ok = true;
  close_ok = true;
  rename_ok = false;
}

abbrev works : Io
works = record full { rename_ok = true }

abbrev command : StateFile.PendingCommand
command = record { id = "c1"; name = "machine.reboot"; accepted_at = 5 }

abbrev saved_state : StateFile.State
saved_state = record { pending = none; self_update = none; pending_commands = command ∷ [] }

abbrev folder : Dir
folder = record { state_file = stored saved_state; backup = missing; temp = none }

update_atomic_example :
    (((update (with_pending none) full folder).1 ≡ none)
      × ((update (with_pending none) full folder).0.state_file
          ≡ stored (with_pending none (document folder.state_file))))
    ⊎ (((update (with_pending none) full folder).1 ≢ none)
        × (document (update (with_pending none) full folder).0.state_file
            ≡ document folder.state_file))
update_atomic_example = update_atomic (with_pending none) full folder

abbrev two_operations : List (StateFile.Lifecycles.Op × Io)
two_operations = (add_command command, works) ∷ (clear_pending, full) ∷ []

lifecycles_independent_example :
    let s = document (run_ops two_operations folder).state_file in
    let start = document folder.state_file in
    let saved = saved_ops two_operations folder in
    (s.pending ≡ (mutate_all (filter is_emly saved) start).pending)
    × (s.self_update ≡ (mutate_all (filter is_updater saved) start).self_update)
    × (s.pending_commands ≡ (mutate_all (filter is_channel saved) start).pending_commands)
lifecycles_independent_example = lifecycles_independent two_operations folder

abbrev launched_once : SelfUpdate
launched_once = record {
  version = "2.2.0";
  from_version = "2.1.0";
  setup_path = "setup.exe";
  sha256 = "ab";
  attempts = 1;
  gave_up = false;
  launched_at = 0;
}

abbrev late : ℕ
late = 700 * 1000000000

abbrev retry_decision : Decision
retry_decision = record {
  install = true;
  attempt = 2;
  give_up = false;
  reason = retrying "2.2.0" 2;
}

abbrev launched_thrice : SelfUpdate
launched_thrice = record launched_once { attempts = 3 }

abbrev last_decision : Decision
last_decision = record {
  install = false;
  attempt = 0;
  give_up = true;
  reason = exhausted "2.2.0" 3;
}

abbrev cycle : Env
cycle = record {
  enabled = true;
  load_ok = true;
  clear_ok = true;
  fetched = ok release;
  now = late;
  setup_path = some "setup.exe";
  verified = true;
  begin_ok = true;
  set_ok = true;
  launch_ok = true;
}

launches_bounded_example :
    launches versions "2.1.0" (cycle ∷ cycle ∷ cycle ∷ []) (some launched_once)
      + spent "2.2.0" (some launched_once)
    ≤ max_attempts
unfolding less
launches_bounded_example =
    launches_bounded versions "2.1.0" "2.2.0" (cycle ∷ cycle ∷ cycle ∷ []) (some launched_once) refl
      ((refl, refl), ((refl, refl), ((refl, refl), tt))) (omega arith)
