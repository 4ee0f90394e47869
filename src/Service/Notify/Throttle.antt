-- ===== src/Service/Notify/Throttle.antt =====
-- internal/service/clientnotify.go: sequences of notifies, and the wakes that they schedule.
use emly_updater.Base.{
  ℕ, ◌-◌, ◌≡◌, refl, inl, inr, ◌≤◌, ℤ, lt_ℤ, Bool, true, false, ◌&&◌, ◌||◌, ◌∙◌, Option, none, some,
  List, [], ◌∷◌, all, leb, arith, Bool-cases,
}
use emly_updater.Manifest.{VersionLib}
use emly_updater.Service.Notify.{
  Env, Notify, ConfigPublished, State, Wake, release_published, config_published, unknown, wake,
  allow_notify_wake, handle_notify, release_concerns_me, notify_wake_throttle, min_config_jitter,
  min_release_jitter, jitter, is_known, too_early,
}

-- each wake is at least the throttle after the one before it
abbrev pub spaced : List Wake → Bool
spaced [] = true
spaced (w ∷ []) = true
spaced (w ∷ v ∷ ws) = leb notify_wake_throttle (w.at - v.at) && spaced (v ∷ ws)

-- each may be delayed by at least the shorter floor
abbrev pub spread : List Wake → Bool
spread ws = all (λ (w : Wake). leb min_config_jitter w.max_jitter) ws

abbrev pub last_at : List Wake → Option ℕ
last_at [] = none
last_at (w ∷ ws) = some w.at

pub record IsThrottled (s : State) : Type 0 where
  pub apart : spaced s.scheduled ≡ true
  pub slow : spread s.scheduled ≡ true
  pub last : s.last_notify_wake ≡ last_at s.scheduled

added_apart :
    (now m : ℕ) (ws : List Wake)
    → spaced ws ≡ true
    → too_early (last_at ws) now ≡ false
    → spaced (record { at = now; max_jitter = m } ∷ ws) ≡ true
unfolding too_early
added_apart now m [] apart h = refl
added_apart now m (v ∷ ws) apart h = ground arith

wake-IsThrottled :
    (now m : ℕ) (s : State) → min_config_jitter ≤ m → IsThrottled s → IsThrottled (wake now m s)
unfolding wake allow_notify_wake
wake-IsThrottled now m s long t = elim (Bool-cases (too_early s.last_notify_wake now)) [
  | inl e ↦ rw e t
  | inr e ↦ rw e (record {
    apart = added_apart now m s.scheduled t.apart (rw t.last at e);
    slow = ground (arith, t.slow, long);
    last = refl;
  })
]

jitter-floor : (n : ℤ) (floor : ℕ) → floor ≤ jitter n floor
jitter-floor n floor = ground arith

module _ {V : Type 0} (lib : VersionLib V) where
  unfoldable pub handle_all : List (Env × Notify) → State → State
  handle_all [] s = s
  handle_all ((env, n) ∷ ns) s = handle_all ns (handle_notify lib env n s)

  handle_notify-IsThrottled :
      (env : Env) (n : Notify) (s : State) → IsThrottled s → IsThrottled (handle_notify lib env n s)
  unfolding handle_notify
  handle_notify-IsThrottled env (release_published none) s t = t
  handle_notify-IsThrottled env (release_published (some p)) s t =
      elim (Bool-cases (release_concerns_me lib env p)) [
        | inl e ↦ rw e (
            wake-IsThrottled env.now _ s
              (ground (arith, jitter-floor p.jitter_seconds min_release_jitter)) t)
        | inr e ↦ rw e t
      ]
  handle_notify-IsThrottled env (config_published none) s t = t
  handle_notify-IsThrottled env (config_published (some p)) s t =
      elim (Bool-cases (is_known env.revision p)) [
        | inl e ↦ rw e t
        | inr e ↦ rw e (
            wake-IsThrottled env.now _ (record s { force_config = true })
              (jitter-floor p.jitter_seconds min_config_jitter)
              (record { apart = t.apart; slow = t.slow; last = t.last }))
      ]
  handle_notify-IsThrottled env (unknown topic) s t = t

  -- Whatever notifies arrive, and at whatever times, the wakes that are scheduled are ten minutes
  -- apart, and each may be delayed by thirty seconds at least.
  pub handle_all-IsThrottled :
      (ns : List (Env × Notify)) (s : State) → IsThrottled s → IsThrottled (handle_all ns s)
  unfolding handle_all
  handle_all-IsThrottled [] s t = t
  handle_all-IsThrottled ((env, n) ∷ ns) s t =
      handle_all-IsThrottled ns _ (handle_notify-IsThrottled env n s t)

  wake-force : (now m : ℕ) (s : State) → (wake now m s).force_config ≡ s.force_config
  unfolding wake allow_notify_wake
  wake-force now m s = ground arith

  -- A published revision above the one in force makes the next poll fetch the document, though the
  -- notify may be throttled; one that is not above leaves that as it is.
  pub handle_notify-force :
      (env : Env) (p : ConfigPublished) (s : State) (current : ℤ)
      → env.revision ≡ some current
      → (handle_notify lib env (config_published (some p)) s).force_config
        ≡ (s.force_config || lt_ℤ current p.revision)
  unfolding handle_notify is_known
  handle_notify-force env p s current e = elim (Bool-cases (lt_ℤ current p.revision)) [
    | inl f ↦ rw (e, f) (wake-force env.now _ (record s { force_config = true }) ∙ ground arith)
    | inr f ↦ rw (e, f) (ground arith)
  ]
