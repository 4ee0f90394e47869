-- ===== src/Policy/Matching/Switches.antt =====
-- Kill switches and selectors (match.go).
use emly_updater.Base.{
  ℕ, ◌≡◌, ◌≤◌, String, true, not, ◌||◌, Option, none, some, str_eq, eq_iff, arith,
}
use emly_updater.Policy.Document.{Document, app_mode_normal}
use emly_updater.Policy.Matching.{Std, expired, updater_enabled, app_control}

module _ {Ip Net : Type 0} (std : Std Ip Net) where
  -- An `until` that has expired at a time has expired at every later time.
  pub expired_mono :
      (u : Option String) (t t' : ℕ) → t ≤ t' → expired std u t ≡ true → expired std u t' ≡ true
  unfolding expired
  expired_mono none t t' l h = cc
  expired_mono (some s) t t' l h = ground arith

  -- A pause ends by itself and does not come back: once the updater is enabled under a document it
  -- stays enabled under that document, and so does the app; a normal mode of the app stays normal.
  pub enabled_mono :
      (doc : Document) (t t' : ℕ)
      → t ≤ t'
      → ((not (updater_enabled std doc t).0 || (updater_enabled std doc t').0) ≡ true)
        × ((not (app_control std doc t).enabled || (app_control std doc t').enabled) ≡ true)
        × ((not (str_eq (app_control std doc t).mode app_mode_normal)
              || str_eq (app_control std doc t').mode app_mode_normal)
            ≡ true)
  unfolding updater_enabled app_control
  enabled_mono doc t t' l = (
    ground (arith, expired_mono doc.control.updater.until t t' l),
    ground (arith, expired_mono doc.control.app.until t t' l),
    ground (
      arith,
      expired_mono doc.control.app.until t t' l,
      eq_iff doc.control.app.mode app_mode_normal,
      eq_iff app_mode_normal app_mode_normal,
    ),
  )
