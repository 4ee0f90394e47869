-- ===== src/Service/RemoteConfig/Cache.antt =====
-- internal/service/remoteconfig.go: the policy to start with, and the cache that a self-update moves
-- aside (initPolicy, retireCache, restoreCache).
use emly_updater.Base.{
  ℕ, ◌≡◌, refl, Bool, true, false, not, Option, none, some, ok, err, is_some, if◌then◌else◌,
}
use emly_updater.Manifest.{VersionLib}
use emly_updater.Policy.Json.{Value, Fields}
use emly_updater.Policy.Matching.{Std}
use emly_updater.Policy.Parse.{Json}
use emly_updater.Policy.Parse.Whole.{parse}
use emly_updater.Policy.Snapshot.{Snapshot, cached}
use emly_updater.Service.RemoteConfig.{CacheFile}

-- What is on disk at the start of the service: no cache, an unreadable one, or a file.
pub data Stored : Type 0 where
  missing unreadable : Stored
  file : ℕ → Option Value → CacheFile → Stored

-- initPolicy: the snapshot to start with, and whether the cache is moved aside.
unfoldable pub init_policy :
    {Ip Net V : Type 0}
    → Std Ip Net
    → VersionLib V
    → Json
    → Bool
    → Snapshot
    → Fields
    → Stored
    → Snapshot × Bool
init_policy std lib json enabled fallback defaults missing = (fallback, false)
init_policy std lib json enabled fallback defaults unreadable = (fallback, enabled)
init_policy std lib json enabled fallback defaults (file size body c) =
    if not enabled then (fallback, false) else elim (parse std lib json size body defaults) [
      | err _ ↦ (fallback, true)
      | ok parsed ↦ (
        record {
          parsed = parsed;
          source = cached;
          fetched_at = c.fetched_at;
          fetched_from = c.fetched_from;
          etag = c.etag;
        },
        false,
      )
    ]

-- The cache at its path and at the path it is moved to, for retireCache and restoreCache; the
-- second part is the error of a rename.
pub record Files : Type 0 where
  pub at_path : Option CacheFile
  pub at_prev : Option CacheFile

unfoldable pub retire_cache : Bool → Files → Files × Bool
retire_cache renames f = elim f.at_path [
  | none ↦ (f, false)
  | some c ↦ if renames then (record { at_path = none; at_prev = some c }, false) else (f, true)
]

unfoldable pub restore_cache : Bool → Files → Files × Bool
restore_cache renames f = if is_some f.at_path then (f, false) else elim f.at_prev [
  | none ↦ (f, false)
  | some c ↦ if renames then (record { at_path = some c; at_prev = none }, false) else (f, true)
]

-- A cache that retireCache was asked to move aside, whether the rename succeeded or not, stands at
-- its path after a restoreCache whose rename succeeds.
pub restore_cache-retire :
    (f : Files) (renames : Bool) (c : CacheFile)
    → f.at_path ≡ some c
    → (restore_cache true (retire_cache renames f).0).0.at_path ≡ some c
unfolding restore_cache retire_cache
restore_cache-retire f true c e = rw (e, retire_cache, restore_cache) refl
restore_cache-retire f false c e = rw (e, retire_cache, restore_cache) (rw e refl)
