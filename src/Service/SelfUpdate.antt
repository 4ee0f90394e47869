-- ===== src/Service/SelfUpdate.antt =====
-- internal/service/selfupdate.go: one cycle of the updater's own update. What the cycle reads from
-- outside (the state file, the sources, the setup, the clock, the launch) is its argument `Env`.
-- Every call of emitUpdateFailed counts as an event: that it emits the same failure once only, and
-- the call of announceUpdate, are left out.
pub mod Bounded
pub mod Claims
use emly_updater.Base.{
  ℕ, String, Bool, true, false, not, Option, none, some, Result, ok, err, List, [], ◌∷◌, ◌++◌, ltb,
  or_else, if◌then◌else◌,
}
use emly_updater.Manifest.{VersionLib, Error as VersionError}
use emly_updater.Manifest.Updater.{UpdaterManifest}
use emly_updater.State.{SelfUpdate}
use emly_updater.SelfUpdate.{
  Outcome, nothing, landed, missed, Decision, decide, reconcile, max_attempts,
}

-- The error of a resolution; `not_found` is source.ErrNotFound.
pub data FetchError : Type 0 where
  not_found unreachable : FetchError

pub record Env : Type 0 where
  pub enabled : Bool
  pub load_ok : Bool
  pub clear_ok : Bool
  pub fetched : Result FetchError UpdaterManifest
  pub now : ℕ
  pub setup_path : Option String
  pub verified : Bool
  pub begin_ok : Bool
  pub set_ok : Bool
  pub launch_ok : Bool

-- The events of the client channel that a cycle emits, in order.
pub data Emitted : Type 0 where
  applied : String → String → ℕ → Emitted
  started : String → ℕ → Emitted
  failed : String → ℕ → Bool → String → Emitted

-- What a cycle leaves: the record in state.json, the record of a landed update, the setup that is
-- left in the cache, the claim on `installing`, and whether a setup was launched.
pub record Done : Type 0 where
  pub launched : Bool
  pub stored : Option SelfUpdate
  pub landed_rec : Option SelfUpdate
  -- whether it asked for a claim on `installing`, and whether it keeps one
  pub asked : Bool
  pub claimed : Bool
  pub emitted : List Emitted

abbrev pub idle : Option SelfUpdate → List Emitted → Done
idle rec es = record {
  launched = false;
  stored = rec;
  landed_rec = none;
  asked = false;
  claimed = false;
  emitted = es;
}

-- the claim was refused, or given back
abbrev pub unclaimed : Option SelfUpdate → List Emitted → Done
unclaimed rec es = record (idle rec es) { asked = true }

-- What reconcileSelfUpdate returns (`seen`) and what it leaves in the state file.
pub record Reconciled : Type 0 where
  pub seen : Option SelfUpdate
  pub left : Option SelfUpdate
  pub landed_rec : Option SelfUpdate
  pub emitted : List Emitted

cleared : Bool → SelfUpdate → Option SelfUpdate
cleared clear_ok rec = if clear_ok then none else some rec

module _ {V : Type 0} (lib : VersionLib V) (running : String) where
  settle : Env → SelfUpdate → Result VersionError Outcome → Reconciled
  settle env rec (err _) = record {
    seen = none;
    left = cleared env.clear_ok rec;
    landed_rec = none;
    emitted = [];
  }
  settle env rec (ok landed) = record {
    seen = none;
    left = cleared env.clear_ok rec;
    landed_rec = some rec;
    emitted = applied rec.from_version running rec.attempts ∷ [];
  }
  settle env rec (ok missed) = record {
    seen = some rec;
    left = some rec;
    landed_rec = none;
    emitted =
        failed rec.version rec.attempts (ltb rec.attempts max_attempts) "version_mismatch" ∷ [];
  }
  settle env rec (ok nothing) = record {
    seen = some rec;
    left = some rec;
    landed_rec = none;
    emitted = [];
  }

  unfoldable pub reconcile_self_update : Env → Option SelfUpdate → Reconciled
  unfolding settle cleared
  reconcile_self_update env none = record {
    seen = none;
    left = none;
    landed_rec = none;
    emitted = [];
  }
  reconcile_self_update env (some rec) =
      if not env.load_ok
      then record { seen = none; left = some rec; landed_rec = none; emitted = [] }
      else settle env rec (reconcile lib running (some rec))

  -- `left` is what the state file holds before.
  unfoldable pub apply_self_update : Env → UpdaterManifest → ℕ → Option SelfUpdate → Done
  apply_self_update env m attempt left = elim env.setup_path [
    | none ↦ idle left (failed m.version attempt true "download_failed" ∷ [])
    | some path ↦
        if not env.verified
        then idle left (failed m.version attempt true "signature_invalid" ∷ [])
        else if not env.begin_ok
        then unclaimed left []
        else if not env.set_ok
        then unclaimed left []
        else (let rec : SelfUpdate = record {
          version = m.version;
          from_version = running;
          setup_path = path;
          sha256 = m.sha256;
          attempts = attempt;
          gave_up = false;
          launched_at = env.now;
        } in
            if not env.launch_ok
            then unclaimed (some rec)
                (started m.version attempt ∷ failed m.version attempt true "launch_failed" ∷ [])
            else record {
              launched = true;
              stored = some rec;
              landed_rec = none;
              asked = true;
              claimed = true;
              emitted = started m.version attempt ∷ [];
            })
  ]

  give_up : Env → UpdaterManifest → Reconciled → Decision → Done
  give_up env m r d = elim r.seen [
    | none ↦ idle r.left (failed m.version d.attempt false "gave_up" ∷ [])
    | some rec ↦
        idle (if env.set_ok then some (record rec { gave_up = true }) else r.left)
          (failed m.version rec.attempts false "gave_up" ∷ [])
  ]

  act : Env → UpdaterManifest → Reconciled → Decision → Done
  unfolding give_up apply_self_update
  act env m r d =
      if d.give_up
      then give_up env m r d
      else if not d.install
      then idle r.left []
      else apply_self_update env m d.attempt r.left

  evaluated : Env → UpdaterManifest → Reconciled → Result VersionError Decision → Done
  unfolding act
  evaluated env m r (err _) = idle r.left []
  evaluated env m r (ok d) = act env m r d

  resolved : Env → Reconciled → Result FetchError UpdaterManifest → Done
  unfolding evaluated
  resolved env r (err _) = idle r.left []
  resolved env r (ok m) = evaluated env m r (decide lib running (some m) r.seen env.now)

  -- The landed record and the events of the reconciliation come before those of the rest.
  after_reconcile : Env → Reconciled → Done
  unfolding resolved
  after_reconcile env r =
      let done = resolved env r env.fetched in
      record done { landed_rec = r.landed_rec; emitted = r.emitted ++ done.emitted }

  unfoldable pub self_update : Env → Option SelfUpdate → Done
  unfolding after_reconcile reconcile_self_update
  self_update env rec =
      if not env.enabled then idle rec [] else after_reconcile env (reconcile_self_update env rec)
