-- ===== src/Examples/Cycles.antt =====
-- Installs and cycles on concrete inputs.
use emly_updater.Base.{
  str_eq, eq_iff, ◌&&◌, Bool, ◌+◌, subst, ℕ, ◌+◌, ◌≡◌, ◌⊎◌, refl, ◌∙◌, ap, sym, String, Bool, true,
  false, Option, none, some, ok, err, List, [], ◌∷◌, In, lookup, str_eq, ◌<>◌, if◌then◌else◌,
  is_blank, arith, all, not,
}
use emly_updater.Manifest.{less}
use emly_updater.State as StateFile
use emly_updater.State.{Pending, stored, missing, load, set_pending, clear_pending, update, save}
use emly_updater.State.Atomic.{document}
use emly_updater.Download as Download
use emly_updater.Download.{
  Lib, Manager, ensure, verify_file, setup_path, cleanup_except, absent, listed, kept_name,
}
use emly_updater.Source.Resolver.{World as Net, failure}
use emly_updater.Service.Power as Power
use emly_updater.Service.Power.Exclusion.{initial}
use emly_updater.Service.Preferred.{preferred_chain}
use emly_updater.Service.Targets.{urls_of, resolve_target_with}
use emly_updater.Service.Targets as Targets
use emly_updater.Service.Install.{reinstall}
use emly_updater.Service.World.{
  Config, Env, Info, World, poll, redownload, first, clean, stopped, setup_failed, install_failed,
  uninstalled, commits, at_setup, at_gate,
}
use emly_updater.Service.Install.Outcomes.{reinstall_offline, runs}
use emly_updater.Service.Cycle.{
  Asks, Facts, cycle, cycles, launched_in, fetch, apply, check, self_update, under, queued,
}
use emly_updater.Service.Install.Evidence.{Lists}
use emly_updater.Service.SelfUpdate.{unreachable}
use emly_updater.Manifest.{Manifest}
use emly_updater.Service.Cycle.Trusted.{Keeps}
use emly_updater.Service.Cycle.History.{cycles-Keeps, cycles-balanced}
use emly_updater.Service.Cycle.Queue.{fetch_resumed, queued_at}
use emly_updater.Examples.Standins.{versions}
use emly_updater.Examples.Downloads.{
  windows, windows-IsJoin, downloads, release, good_download, served, online, offline, at_server,
  settings, chain,
}

abbrev works : StateFile.Io
works = record {
  read_ok = true;
  backup_ok = true;
  marshal_ok = true;
  mkdir_ok = true;
  create_ok = true;
  write_ok = true;
  close_ok = true;
  rename_ok = true;
}

abbrev config : Config
config = record {
  lib = windows;
  downloads = downloads;
  url = at_server;
  settings = settings;
  chain = chain;
  info = record {
    installed_version = "2.0.0";
    channel = "stable";
    language = "en";
    fresh_install = false;
  };
  running = "1.0.0";
}

-- the setup exits with 0 and EMLy reports the new version; a reboot is asked for meanwhile
abbrev answers : Env
answers = record {
  others = λ p. commits "c1" 500 ∷ [];
  clock = λ p. 1000;
  writable = λ p. true;
  io = λ c. works;
  listing = λ c. listed (("EMLy-2.1.0-setup.exe", false) ∷ []);
  removed = λ c name. true;
  read_ok = λ c. true;
  net = λ r. online;
  ensure_io = λ r. good_download;
  exits = λ a. true;
  config_after = λ a. some "2.1.0";
}

abbrev cut_off : Env
cut_off = record answers { net = λ r. offline; exits = λ a. false }

abbrev queued_update : Pending
queued_update = record {
  version = "2.1.0";
  setup_path = "d\\EMLy-2.1.0-setup.exe";
  sha256 = "bits";
  forced = false;
  downloaded_at = 0;
}

abbrev start : World
start = record {
  files = ("d\\EMLy-2.1.0-setup.exe", "bits") ∷ [];
  store = record {
    state_file = stored (record StateFile.empty { pending = some queued_update });
    backup = missing;
    temp = none;
  };
  power = initial [];
  preferred = none;
  announced = [];
  failures = [];
  notified = false;
  actions = [];
}

abbrev asks : Asks
asks = record {
  env = answers;
  enabled = true;
  self = record {
    enabled = true;
    load_ok = true;
    clear_ok = true;
    fetched = err unreachable;
    now = 1000;
    setup_path = none;
    verified = true;
    begin_ok = true;
    set_ok = true;
    launch_ok = true;
  };
  load_io = works;
  wake_reason = "";
  running = false;
  warning = true;
  shown = true;
  cut_short = false;
  exited = true;
  self_known = true;
  toasted = true;
}

abbrev now : Facts
now = record { url = at_server; settings = settings; chain = chain; info = config.info }

abbrev two_cycles : List (Facts × Asks)
two_cycles =
    (now, asks)
    ∷ (record { url = at_server; settings = settings; chain = []; info = config.info }, asks)
    ∷ []

-- what the manifest of the stand-ins lists
abbrev listed_sums : String → String → Bool
listed_sums version sum = str_eq version "2.1.0" && str_eq sum "bits"

listed_lem :
    (v sum : String) → lookup v served.sha256_checksums ≡ some sum → listed_sums v sum ≡ true
unfolding lookup
listed_lem v sum h = ground (arith, eq_iff v "2.1.0", eq_iff "2.1.0" v, eq_iff sum "bits")

online-Lists : Lists listed_sums online
online-Lists n source v sum m h sums =
    let e : m ≡ served = ground arith in
    listed_lem v sum (subst (λ (x : Manifest). lookup v x.sha256_checksums ≡ some sum) e sums)

start-Keeps : Keeps listed_sums config start
unfolding setup_path
start-Keeps = (refl, (refl, refl))

cycles-Keeps_example : Keeps listed_sums config (cycles versions config two_cycles start)
cycles-Keeps_example =
    cycles-Keeps versions config listed_sums two_cycles start windows-IsJoin
      (λ r. online-Lists, (λ r. online-Lists, tt)) start-Keeps

cycles-balanced_example :
    (cycles versions config two_cycles start).power.installing
    ≡ launched_in versions config two_cycles start + 0
cycles-balanced_example = cycles-balanced versions config two_cycles start

clears : (d : StateFile.Dir) → (clear_pending works d).1 ≡ none
unfolding clear_pending update save
clears d = ground arith

saves : (d : StateFile.Dir) (p : Pending) → (set_pending p works d).1 ≡ none
unfolding set_pending update save
saves d p = ground arith

reinstall_offline_example :
    let (w', r) = reinstall versions config cut_off queued_update "resume" start in
    (r ≡ some (install_failed setup_failed))
    × In uninstalled w'.actions
    × (runs w' ≡ [])
    × (lookup "d\\EMLy-2.1.0-setup.exe" w'.files ≡ none)
    × ((document w'.store.state_file).pending ≡ none)
unfolding Download.spared kept_name emly_updater.Base.has_prefix resolve_target_with
    emly_updater.Source.Resolver.resolve_with Targets.new_resolver preferred_chain
reinstall_offline_example =
    reinstall_offline versions config cut_off queued_update "resume" start
      (("EMLy-2.1.0-setup.exe", false) ∷ []) (Targets.unreachable (failure 0)) refl refl
      (clears start.store) refl

abbrev waiting : Asks
waiting = record asks { running = true; exited = false; env = record answers { others = λ p. [] } }

fetch_stops : (fetch versions config waiting release false start).1 ≡ some stopped
unfolding fetch emly_updater.Service.Cycle.downloaded ensure verify_file lookup set_pending update
    save emly_updater.Service.Cycle.announce emly_updater.Service.Announcements.announce_update
    setup_path apply emly_updater.Service.Cycle.check Power.destructive_pending_now Power.expire
    emly_updater.Service.Install.arrive emly_updater.Service.World.moves queued
fetch_stops = refl

abbrev kept_state : StateFile.State
kept_state = record StateFile.empty {
  pending = some (record {
    version = "2.1.0";
    setup_path = "d\\EMLy-2.1.0-setup.exe";
    sha256 = "bits";
    forced = false;
    downloaded_at = 1000;
  });
}

fetch_leaves :
    (fetch versions config waiting release false start).0.store.state_file ≡ stored kept_state
unfolding fetch emly_updater.Service.Cycle.downloaded ensure verify_file lookup set_pending update
    save emly_updater.Service.Cycle.announce emly_updater.Service.Announcements.announce_update
    setup_path apply emly_updater.Service.Cycle.check Power.destructive_pending_now Power.expire
    emly_updater.Service.Install.arrive emly_updater.Service.World.moves queued
fetch_leaves = refl

loads_stored : (d : StateFile.Dir) → d.state_file ≡ stored kept_state → load works d ≡ ok kept_state
unfolding load
loads_stored d e = rw e refl

-- the service after its restart, which updates itself no more
abbrev back : Asks
back = record asks { self = record asks.self { enabled = false } }

gate_passes :
    (check versions
      (under now config)
      back
      at_gate
      (fetch versions config waiting release false start).0).1
    ≡ false
unfolding fetch emly_updater.Service.Cycle.downloaded ensure verify_file lookup set_pending update
    save emly_updater.Service.Cycle.announce emly_updater.Service.Announcements.announce_update
    setup_path apply emly_updater.Service.Cycle.check Power.destructive_pending_now Power.expire
    emly_updater.Service.Install.arrive emly_updater.Service.World.moves queued
    Power.commit_destructive
gate_passes = refl

launches_none : (w : World) → (self_update versions (under now config) back w).1 ≡ false
unfolding self_update emly_updater.Service.SelfUpdate.self_update
launches_none w = refl

fetch_resumed_example :
    let w' = (fetch versions config waiting release false start).0 in
    let passed = (check versions (under now config) back at_gate w').0 in
    cycle versions (under now config) back w'
    ≡ apply versions
        (under now config)
        back
        (queued_at versions config waiting release false)
        "resume"
        (self_update versions (under now config) back passed).0
unfolding less
fetch_resumed_example =
    fetch_resumed versions config waiting back release false start now kept_state saves fetch_stops
      refl gate_passes (launches_none _) (loads_stored _ fetch_leaves) refl refl
