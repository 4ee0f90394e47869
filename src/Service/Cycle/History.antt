-- ===== src/Service/Cycle/History.antt =====
-- internal/service/service.go, RunLoop: any number of cycles, each with its own policy and answers.
use emly_updater.Base.{String, Bool, All, ◌+◌, ◌≡◌, List, [], ◌∷◌, arith}
use emly_updater.Manifest.{VersionLib}
use emly_updater.Download.Paths.{IsJoin, setup_path-apart}
use emly_updater.Service.World.{Config, World, Round}
use emly_updater.Service.Install.Evidence.{Lists}
use emly_updater.Service.Cycle.{Asks, Facts, under, cycle, cycles, launched_in}
use emly_updater.Service.Cycle.Balance.{cycle-balanced}
use emly_updater.Service.Cycle.Trusted.{Keeps, cycle-Keeps}

module _ {V : Type 0} (lib : VersionLib V) (cfg : Config) where
  -- Where `listed` has what the manifests list that the servers serve, and what follows holds at the
  -- start, it holds after any number of cycles, whatever else the servers, the setups, the file system,
  -- the clock and the command goroutines do: every setup that is started has the checksum that is listed
  -- for its version, runs under a claim of `installing` and while no destructive command is committed;
  -- EMLy is killed only for a forced update; and the update that is queued in state.json has its setup
  -- at the cache path of its version, and the checksum listed for it. filepath.Join keeps the end of
  -- its last element.
  pub cycles-Keeps :
      (listed : String → String → Bool) (history : List (Facts × Asks)) (w : World)
      → IsJoin cfg.lib
      → All (λ (h : Facts × Asks). (r : Round) → Lists listed (h.1.env.net r)) history
      → Keeps listed cfg w
      → Keeps listed cfg (cycles lib cfg history w)
  unfolding cycles
  cycles-Keeps listed [] w joins lists k = k
  cycles-Keeps listed ((f, asks) ∷ rest) w joins (now, later) k =
      cycles-Keeps listed rest (cycle lib (under f cfg) asks w).0 joins later (
        cycle-Keeps lib (under f cfg) asks listed now (setup_path-apart cfg.lib cfg.downloads joins)
          w k)

  -- Over any number of cycles the count of installs grows by exactly the number of self-updates that are
  -- launched: every other claim on it is given back.
  pub cycles-balanced :
      (history : List (Facts × Asks)) (w : World)
      → (cycles lib cfg history w).power.installing
        ≡ launched_in lib cfg history w + w.power.installing
  unfolding cycles
  cycles-balanced [] w = omega arith
  cycles-balanced ((f, asks) ∷ rest) w =
      let w' = (cycle lib (under f cfg) asks w).0 in
      omega (arith, cycles-balanced rest w', cycle-balanced lib (under f cfg) asks w)
