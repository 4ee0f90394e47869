-- ===== src/SelfUpdate/Rules.antt =====
-- What a decision to install or to give up rests on (selfupdate.go, Decide and Reconcile).
use emly_updater.Base.{
  ℕ, ◌+◌, ◌≤◌, ◌≡◌, refl, ◌↔◌, String, Bool, true, false, not, ◌&&◌, ◌||◌, leb, Option, none, some,
  ok, str_eq, arith, eq_iff, if◌then◌else◌,
}
use emly_updater.Manifest.{VersionLib, less}
use emly_updater.Manifest.Updater.{UpdaterManifest, offered}
use emly_updater.State.{SelfUpdate}
use emly_updater.SelfUpdate.{
  Decision, decide, reconcile, landed, max_attempts, cooldown, skip, already_running,
}

module _ {V : Type 0} (lib : VersionLib V) where
  -- the launches of the release that the record counts
  abbrev pub counted : String → Option SelfUpdate → ℕ
  counted v none = 0
  counted v (some r) = if str_eq r.version v then r.attempts else 0

  -- no record of the release, or one that was not abandoned and whose cooldown is over
  abbrev pub is_open : String → Option SelfUpdate → ℕ → Bool
  is_open v none now = true
  is_open v (some r) now =
      not (str_eq r.version v) || (not r.gave_up && leb (r.launched_at + cooldown) now)

  -- An install is decided only for a release that is strictly newer than the running version, that
  -- was not abandoned and whose cooldown is over. Its attempt number is one more than the launches
  -- counted for the release, and at most the maximum.
  pub decide_install :
      (running : String) (m : UpdaterManifest) (rec : Option SelfUpdate) (now : ℕ) (d : Decision)
      → decide lib running (some m) rec now ≡ ok d
      → d.install ≡ true
      → (less lib running m.version ≡ ok true)
        × (d.attempt ≡ counted m.version rec + 1)
        × (d.attempt ≤ max_attempts)
        × (d.give_up ≡ false)
        × (is_open m.version rec now ≡ true)
  unfolding decide
  decide_install running m none now d h i =
      (ground arith, ground arith, ground arith, ground arith, ground arith)
  decide_install running m (some x) now d h i =
      (ground arith, ground arith, ground arith, ground arith, ground arith)

  -- A target is given up exactly when its release is offered and newer, the record is of it and
  -- not abandoned yet, and it was launched the maximum number of times.
  pub decide_give_up :
      (running : String) (m : UpdaterManifest) (r : SelfUpdate) (now : ℕ) (d : Decision)
      → decide lib running (some m) (some r) now ≡ ok d
      → (d.give_up ≡ true) ↔ (
          (offered (some m) ≡ true)
          × (less lib running m.version ≡ ok true)
          × (r.version ≡ m.version)
          × (r.gave_up ≡ false)
          × (max_attempts ≤ r.attempts))
  unfolding decide
  decide_give_up running m r now d h = (
    λ g. (
      ground arith,
      ground arith,
      ground (arith, eq_iff r.version m.version),
      ground arith,
      ground arith,
    ),
    λ g. ground (arith, eq_iff r.version m.version),
  )

  landed_not_behind :
      (running : String) (r : SelfUpdate)
      → reconcile lib running (some r) ≡ ok landed
      → less lib running r.version ≡ ok false
  unfolding reconcile
  landed_not_behind running r h = ground arith

  -- After a launch of a target has landed, the same release is not installed again: a running
  -- version that Reconcile finds landed gets no install of the recorded release.
  pub reconcile-decide :
      (running : String) (m : UpdaterManifest) (r : SelfUpdate) (now : ℕ)
      → offered (some m) ≡ true
      → r.version ≡ m.version
      → reconcile lib running (some r) ≡ ok landed
      → (d : Decision) × (decide lib running (some m) none now ≡ ok d) × (d.install ≡ false)
  unfolding reconcile decide
  reconcile-decide running m r now o e h =
      let current : less lib running m.version ≡ ok false =
        rw (← e) (landed_not_behind running r h) in
      (skip (already_running running m.version), ground (arith, current), refl)
