-- ===== src/Service/SelfUpdate/Claims.antt =====
-- internal/service/selfupdate.go: the claim on `installing` that selfUpdate leaves.
use emly_updater.Base.{
  ℕ, ◌≡◌, refl, false, not, ◌&&◌, Option, Result, ok, err, String, arith, if_intro,
}
use emly_updater.Manifest.{VersionLib, Error as VersionError}
use emly_updater.Manifest.Updater.{UpdaterManifest}
use emly_updater.State.{SelfUpdate}
use emly_updater.SelfUpdate.{Decision}
use emly_updater.Service.SelfUpdate.{
  Env, FetchError, Done, Reconciled, apply_self_update, give_up, act, evaluated, resolved,
  after_reconcile, reconcile_self_update, self_update,
}

-- The install is claimed at the end exactly when a setup was launched, and none is launched without
-- a claim that was asked for and given.
abbrev pub Claims : Env → Done → Type 0
Claims env d = (d.claimed ≡ d.launched) × ((d.launched && not (d.asked && env.begin_ok)) ≡ false)

module _ {V : Type 0} (lib : VersionLib V) (running : String) where
  launch-Claims :
      (env : Env) (m : UpdaterManifest) (attempt : ℕ) (left : Option SelfUpdate)
      → Claims env (apply_self_update lib running env m attempt left)
  unfolding apply_self_update
  launch-Claims env m attempt left = ground arith

  give_up-Claims :
      (env : Env) (m : UpdaterManifest) (r : Reconciled) (d : Decision)
      → Claims env (give_up lib running env m r d)
  unfolding give_up
  give_up-Claims env m r d = ground arith

  act-Claims :
      (env : Env) (m : UpdaterManifest) (r : Reconciled) (d : Decision)
      → Claims env (act lib running env m r d)
  unfolding act
  act-Claims env m r d =
      if_intro (Claims env) d.give_up (λ _. give_up-Claims env m r d)
        λ _.
          if_intro (Claims env) (not d.install) (λ _. (refl, refl))
            (λ _. launch-Claims env m d.attempt r.left)

  evaluated-Claims :
      (env : Env) (m : UpdaterManifest) (r : Reconciled) (d : Result VersionError Decision)
      → Claims env (evaluated lib running env m r d)
  unfolding evaluated
  evaluated-Claims env m r (err e) = (refl, refl)
  evaluated-Claims env m r (ok d) = act-Claims env m r d

  resolved-Claims :
      (env : Env) (r : Reconciled) (m : Result FetchError UpdaterManifest)
      → Claims env (resolved lib running env r m)
  unfolding resolved
  resolved-Claims env r (err e) = (refl, refl)
  resolved-Claims env r (ok m) = evaluated-Claims env m r _

  pub self_update-Claims :
      (env : Env) (rec : Option SelfUpdate) → Claims env (self_update lib running env rec)
  unfolding self_update after_reconcile
  self_update-Claims env rec =
      if_intro (Claims env) (not env.enabled) (λ _. (refl, refl))
        (λ _. resolved-Claims env (reconcile_self_update lib running env rec) env.fetched)
