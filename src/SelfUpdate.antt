-- ===== src/SelfUpdate.antt =====
-- internal/selfupdate: when the updater installs a release of itself. An instant is a number of
-- nanoseconds, 0 for the zero time; `now.Sub(t) < d` over the integers is `now < t + d`.
-- The text of a reason is its constructor with the values that it prints.
pub mod Rules
use emly_updater.Base.{
  ℕ, ◌+◌, ◌*◌, String, Bool, true, false, not, ◌||◌, Option, none, some, Result, ok, err, ◌>>=◌,
  ltb, leb, is_blank, str_eq, if◌then◌else◌,
}
use emly_updater.Manifest.{VersionLib, Error, less}
use emly_updater.Manifest.Updater.{UpdaterManifest, offered}
use emly_updater.State.{SelfUpdate}

abbrev pub max_attempts : ℕ
max_attempts = 3

-- ten minutes
abbrev pub cooldown : ℕ
cooldown = 600 * 1000000000

pub data Outcome : Type 0 where
  nothing landed missed : Outcome

pub data Reason : Type 0 where
  unpublished : Reason
  already_running : String → String → Reason
  new_release : Reason
  abandoned : String → ℕ → Reason
  exhausted : String → ℕ → Reason
  cooling : String → ℕ → Reason
  retrying : String → ℕ → Reason

pub record Decision : Type 0 where
  pub install : Bool
  pub attempt : ℕ
  pub give_up : Bool
  pub reason : Reason

abbrev pub skip : Reason → Decision
skip r = record { install = false; attempt = 0; give_up = false; reason = r }

module _ {V : Type 0} (lib : VersionLib V) where
  reconcile_version : String → String → Result Error Outcome
  reconcile_version running target =
      if is_blank target
      then ok nothing
      else (do behind ← less lib running target; ok (if behind then missed else landed))

  unfoldable pub reconcile : String → Option SelfUpdate → Result Error Outcome
  unfolding reconcile_version
  reconcile running none = ok nothing
  reconcile running (some rec) = reconcile_version running rec.version

  -- a release that is newer than the running version, with the record of a launch
  decide_newer : UpdaterManifest → Option SelfUpdate → ℕ → Decision
  decide_newer m none now = record {
    install = true;
    attempt = 1;
    give_up = false;
    reason = new_release;
  }
  decide_newer m (some rec) now =
      if not (str_eq rec.version m.version)
      then record { install = true; attempt = 1; give_up = false; reason = new_release }
      else if rec.gave_up
      then skip (abandoned rec.version rec.attempts)
      else if leb max_attempts rec.attempts
      then record {
        install = false;
        attempt = 0;
        give_up = true;
        reason = exhausted rec.version rec.attempts;
      }
      else if ltb now (rec.launched_at + cooldown)
      then skip (cooling rec.version rec.launched_at)
      else record {
        install = true;
        attempt = rec.attempts + 1;
        give_up = false;
        reason = retrying m.version (rec.attempts + 1);
      }

  decide_offered : String → UpdaterManifest → Option SelfUpdate → ℕ → Result Error Decision
  unfolding decide_newer
  decide_offered running m rec now = do
    newer ← less lib running m.version
    ok (if not newer then skip (already_running running m.version) else decide_newer m rec now)

  unfoldable pub decide :
      String → Option UpdaterManifest → Option SelfUpdate → ℕ → Result Error Decision
  unfolding decide_offered offered
  decide running none rec now = ok (skip unpublished)
  decide running (some m) rec now =
      if not (offered (some m)) then ok (skip unpublished) else decide_offered running m rec now
