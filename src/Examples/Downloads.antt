-- ===== src/Examples/Downloads.antt =====
-- Downloads and the resolution of a target on concrete inputs.
use text.Mathlib.TextLemmas.{append_assoc}
use Prim.Native.Char.{code}
use emly_updater.Base.{
  ℕ, ◌+◌, ◌≡◌, ◌⊎◌, refl, ◌∙◌, ap, sym, String, Bool, true, false, Option, none, some, ok, err,
  List, [], ◌∷◌, In, lookup, str_eq, ◌==◌, ◌<>◌, if◌then◌else◌, is_blank, arith, all, not,
}
use emly_updater.Manifest.{Manifest, Target, channel_version}
use emly_updater.Download as Download
use emly_updater.Download.{
  Lib, Manager, ensure, verify_file, setup_path, cleanup_except, absent, listed, kept_name,
}
use emly_updater.Download.Verified.{ensure-IsVerified}
use emly_updater.Download.Cleanup.{cleanup_except_exactly}
use emly_updater.Download.Paths.{IsJoin}
use emly_updater.Source.Resolver.{World as Net, failure}
use emly_updater.Service.Preferred.{preferred_chain}
use emly_updater.Service.Targets.{urls_of, resolve_target_with}
use emly_updater.Service.Targets as Targets
use emly_updater.Service.Targets.Chosen.{Targets, resolve_target_with-Targets}
use emly_updater.Examples.Standins.{versions}

-- what follows the first backslash
unfoldable pub after_slash : String → String
after_slash String.[] = ""
after_slash (String.◌∷◌ c s) = let rest = after_slash s in if code c == 0x5c then s else rest

-- contents are their own digests
abbrev pub windows : Lib
windows = record {
  digest = λ s. s;
  equal_fold = λ s t. str_eq s t;
  join = λ dir name. dir <> "\\" <> name;
  base = λ p. after_slash p;
}

pub windows-IsJoin : IsJoin windows
windows-IsJoin = record {
  keeps_end = λ dir name. (
    dir <> "\\" <> name,
    ap (λ (s : String). dir <> s) (sym (append_assoc "\\" name "-setup.exe"))
        ∙ sym (append_assoc dir ("\\" <> name) "-setup.exe"),
  );
}

abbrev pub downloads : Manager
downloads = record { dir = "d"; prefix = "" }

abbrev pub served : Manifest
served = record {
  stable_version = "2.1.0";
  beta_version = "2.0.0";
  stable_download = "stable.exe";
  beta_download = "beta.exe";
  is_critical = false;
  min_required_version = "";
  sha256_checksums = ("2.1.0", "bits") ∷ [];
  release_notes = [];
  detailed_release_notes = [];
}

abbrev pub release : Target
release = record { version = "2.1.0"; download_ref = "stable.exe"; sha256 = "bits" }

abbrev pub good_download : Download.Io
good_download = record {
  mkdir_ok = true;
  cached_read_ok = true;
  dest_removed = true;
  fetched = some "bits";
  fetch_ok = true;
  partial_read_ok = true;
  rename_ok = true;
  partial_removed = true;
}

ensure-IsVerified_example :
    ("d\\EMLy-2.1.0-setup.exe" ≡ setup_path windows downloads release.version)
    × (verify_file windows "d\\EMLy-2.1.0-setup.exe" release.sha256 true
          (ensure windows downloads good_download release []).0
        ≡ none)
unfolding ensure verify_file lookup Download.fetch_anew Download.finish Download.left_by
    emly_updater.Base.insert emly_updater.Base.delete setup_path
ensure-IsVerified_example =
    ensure-IsVerified windows downloads good_download release [] "d\\EMLy-2.1.0-setup.exe" refl

abbrev pub entries : List (String × Bool)
entries = ("EMLy-2.0.0-setup.exe", false) ∷ ("notes.txt", false) ∷ []

abbrev swept : Download.Files
swept = ("d\\notes.txt", "n") ∷ ("d\\EMLy-2.0.0-setup.exe", "old") ∷ []

cleanup_except_exactly_example :
    lookup "d\\notes.txt"
      (cleanup_except windows downloads (λ _. true) "2.1.0" (listed entries) swept).0
    ≡ some "n"
unfolding setup_path after_slash emly_updater.Base.has_prefix lookup
cleanup_except_exactly_example =
    cleanup_except_exactly windows downloads (λ _. true) "2.1.0" "d\\notes.txt" entries swept

abbrev pub online : Net String Manifest
online = record { fetch = λ n s. ok served; done_waiting = λ n. false; done = λ n. false }

abbrev pub offline : Net String Manifest
offline = record { fetch = λ n s. err (failure 0); done_waiting = λ n. false; done = λ n. false }

abbrev pub at_server : String → String
at_server name = "https://" <> name

abbrev pub settings : Targets.Settings
settings = record { attempts = 1; base_backoff = 5 }

abbrev pub chain : List String
chain = "main" ∷ "backup" ∷ []

resolve_target_with-Targets_example :
    let urls = urls_of at_server (preferred_chain chain none).0 in
    In "https://main" (urls.0 ∷ urls.1)
    × ((n : ℕ) × (online.fetch n "https://main" ≡ ok served))
    × Targets versions "stable" served release
unfolding resolve_target_with emly_updater.Source.Resolver.resolve_with Targets.new_resolver
    emly_updater.Source.Http.resolve_target channel_version lookup preferred_chain
resolve_target_with-Targets_example =
    resolve_target_with-Targets versions online at_server settings chain "stable" true none
      "https://main" served release refl
