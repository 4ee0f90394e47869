-- ===== src/Service/Notify.antt =====
-- internal/service/clientnotify.go: how a notify of the server wakes the update loop. The installed EMLy
-- and the current cycle are arguments; the delays drawn at random are not modelled, their bounds are.
pub mod Throttle
use emly_updater.Base.{
  ℕ, suc, ◌+◌, ◌-◌, ◌*◌, ◌≡◌, ℤ, pos, lt_ℤ, to_ℕ, String, Bool, true, false, not, ◌&&◌, ◌||◌,
  Option, none, some, List, [], ◌∷◌, Result, ok, err, is_blank, str_eq, ltb, if◌then◌else◌,
}
use emly_updater.Manifest.{VersionLib, less}

abbrev pub second : ℕ
second = 1000000000

abbrev pub min_release_jitter : ℕ
min_release_jitter = 60 * second

abbrev pub min_config_jitter : ℕ
min_config_jitter = 30 * second

abbrev pub notify_wake_throttle : ℕ
notify_wake_throttle = 10 * 60 * second

pub record ReleasePublished : Type 0 where
  pub target : String
  pub channel : String
  pub version : String
  pub jitter_seconds : ℤ

pub record ConfigPublished : Type 0 where
  pub revision : ℤ
  pub jitter_seconds : ℤ

-- A notify by its topic; a payload that does not decode is `none`.
pub data Notify : Type 0 where
  release_published : Option ReleasePublished → Notify
  config_published : Option ConfigPublished → Notify
  unknown : String → Notify

-- The running updater's version, and the channel and version of the installed EMLy with the revision
-- in force (`none` before the first cycle).
pub record Env : Type 0 where
  pub running : String
  pub emly : Option (String × String)
  pub revision : Option ℤ
  pub now : ℕ

-- a scheduled wake: when it was allowed, and the longest delay it may take
pub record Wake : Type 0 where
  pub at : ℕ
  pub max_jitter : ℕ

pub record State : Type 0 where
  pub force_config : Bool
  pub last_notify_wake : Option ℕ
  -- latest first
  pub scheduled : List Wake

unfoldable pub too_early : Option ℕ → ℕ → Bool
too_early none now = false
too_early (some last) now = ltb (now - last) notify_wake_throttle

unfoldable pub allow_notify_wake : ℕ → State → State × Bool
unfolding too_early
allow_notify_wake now s =
    if too_early s.last_notify_wake now
    then (s, false)
    else (record s { last_notify_wake = some now }, true)

-- the jitter asked for, raised to the floor; a negative one is below it
abbrev pub jitter : ℤ → ℕ → ℕ
jitter seconds floor = let asked = to_ℕ seconds * second in if ltb asked floor then floor else asked

-- allowNotifyWake and, if it allows, scheduleWake
unfoldable pub wake : ℕ → ℕ → State → State
unfolding allow_notify_wake
wake now max_jitter s =
    let (s', allowed) = allow_notify_wake now s in
    if allowed
    then record s' { scheduled = record { at = now; max_jitter = max_jitter } ∷ s'.scheduled }
    else s'

-- the published revision is not above the one in force
unfoldable pub is_known : Option ℤ → ConfigPublished → Bool
is_known none p = false
is_known (some current) p = not (lt_ℤ current p.revision)

module _ {V : Type 0} (lib : VersionLib V) where
  is_newer : String → String → Bool
  is_newer installed offered = elim (less lib installed offered) [ ok b ↦ b | err _ ↦ false ]

  emly_concerned : Option (String × String) → ReleasePublished → Bool
  unfolding is_newer
  emly_concerned none p = false
  emly_concerned (some (channel, installed)) p =
      if not (is_blank p.channel) && not (str_eq p.channel channel)
      then false
      else is_newer installed p.version

  unfoldable pub release_concerns_me : Env → ReleasePublished → Bool
  unfolding is_newer emly_concerned
  release_concerns_me env p =
      if str_eq p.target "updater"
      then is_newer env.running p.version
      else if str_eq p.target "emly"
      then emly_concerned env.emly p
      else false

  unfoldable pub handle_notify : Env → Notify → State → State
  unfolding is_known
  handle_notify env (release_published none) s = s
  handle_notify env (release_published (some p)) s =
      if release_concerns_me env p
      then wake env.now (jitter p.jitter_seconds min_release_jitter) s
      else s
  handle_notify env (config_published none) s = s
  handle_notify env (config_published (some p)) s =
      if is_known env.revision p
      then s
      else wake env.now (jitter p.jitter_seconds min_config_jitter)
          (record s { force_config = true })
  handle_notify env (unknown topic) s = s
