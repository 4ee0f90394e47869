-- ===== src/Examples/Events.antt =====
-- Events, packages, the preferred server and notifies on concrete inputs.
use emly_updater.Base.{
  str_eq, if◌then◌else◌, ℕ, ◌*◌, ◌≡◌, refl, pos, Bool, true, false, ◌||◌, none, some, List, [], ◌∷◌,
  ◌++◌, length, is_empty, leb, arith,
}
use emly_updater.Service.Events as EventFile
use emly_updater.Service.Events.{
  BufferedEvent, SendError, sent, gone, too_large, flush_events, clear_ws_session,
  event_buffer_size,
}
use emly_updater.Service.Events.Buffer.{Emission, IsFlush, flush_events-IsFlush}
use emly_updater.Service.Events.Sessions.{act_all, attempt, welcomed, clear_ws_session-final}
use emly_updater.Service.Announcements.{UpdateFailedKey}
use emly_updater.Service.Upgradable.{
  Package, UpgradablePackage, merge_upgradable, add_each, cut, result_payload_budget,
}
use emly_updater.Service.Upgradable.Merge.{cut-fits}
use emly_updater.Service.Notify as NotifyFile
use emly_updater.Service.Notify.{Notify, ConfigPublished, config_published, handle_notify}
use emly_updater.Service.Notify.Throttle.{IsThrottled, handle_all, handle_all-IsThrottled}
use emly_updater.Examples.Standins.{versions}

abbrev news : BufferedEvent
news = record { name = "update.available"; payload = "{}" }

abbrev offline : EventFile.State
offline = record { buffer = news ∷ []; session = none; generation = 4 }

abbrev emission : Emission
emission = record { event = news; accepted = true; answer = gone }

abbrev huge : BufferedEvent
huge = record news { payload = "huge" }

abbrev late : BufferedEvent
late = record news { payload = "late" }

-- the second is too large, and the session goes away at the fourth
abbrev answers : BufferedEvent → SendError
answers e =
    if str_eq e.payload "huge" then too_large else if str_eq e.payload "late" then gone else sent

abbrev full : EventFile.State
full = record offline { buffer = news ∷ huge ∷ news ∷ late ∷ news ∷ [] }

flush_events-IsFlush_example :
    (kept : List BufferedEvent) × ((flush_events answers (news ∷ []) full).0.buffer
      ≡ kept ++ news ∷ [])
    × IsFlush answers full.buffer (flush_events answers (news ∷ []) full).1 kept
flush_events-IsFlush_example = flush_events-IsFlush answers (news ∷ []) full

clear_ws_session-final_example :
    (act_all (welcomed 4 1 ∷ attempt ∷ []) (clear_ws_session 4 offline)).session ≡ none
clear_ws_session-final_example =
    clear_ws_session-final 4 (welcomed 4 1 ∷ attempt ∷ []) offline (omega arith) refl

abbrev jdk : Package
jdk = record {
  name = "JDK";
  id = "jdk";
  installed_version = "17";
  available = "21";
  source = "winget";
}

-- each package takes half the budget, and a little more
abbrev weight : List UpgradablePackage → ℕ
weight ps = 30001 * length ps

abbrev three : List UpgradablePackage
three =
    merge_upgradable (λ s. s) (jdk ∷ record jdk { id = "git" } ∷ []) (record jdk { id = "go" } ∷ [])

cut-fits_example :
    (qs : List UpgradablePackage) × (t : Bool) × (cut 4 weight three false ≡ some (qs, t))
    × ((leb (weight qs) result_payload_budget || is_empty qs) ≡ true)
unfolding merge_upgradable add_each
cut-fits_example = cut-fits 4 weight three false (omega arith)

abbrev quiet : NotifyFile.State
quiet = record { force_config = false; last_notify_wake = none; scheduled = [] }

abbrev at_noon : NotifyFile.Env
at_noon = record { running = "2.1.0"; emly = none; revision = some (pos 7); now = 100 }

abbrev newer_config : ConfigPublished
newer_config = record { revision = pos 8; jitter_seconds = pos 0 }

quiet-IsThrottled : IsThrottled quiet
quiet-IsThrottled = record { apart = refl; slow = refl; last = refl }

abbrev pushes : List (NotifyFile.Env × Notify)
pushes =
    (at_noon, config_published (some newer_config))
    ∷ (at_noon, config_published (some newer_config))
    ∷ []

handle_all-IsThrottled_example : IsThrottled (handle_all versions pushes quiet)
handle_all-IsThrottled_example = handle_all-IsThrottled versions pushes quiet quiet-IsThrottled

abbrev mismatch : UpdateFailedKey
mismatch = record {
  target = "updater";
  to_version = "2.2.0";
  attempt = 1;
  code = "version_mismatch";
}

abbrev failures : List UpdateFailedKey
failures = mismatch ∷ record mismatch { attempt = 2 } ∷ mismatch ∷ []
