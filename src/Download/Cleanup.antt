-- ===== src/Download/Cleanup.antt =====
-- internal/download/download.go: what `CleanupExcept` deletes and what it spares.
use emly_updater.Base.{
  ◌≡◌, ◌⊎◌, refl, String, Bool, not, ◌&&◌, ◌||◌, Option, none, some, List, [], ◌∷◌, lookup, any,
  str_eq, arith, has_prefix, is_blank, inr, if◌then◌else◌, or_else,
}
use emly_updater.Download.{
  Lib, Manager, Error, not_removed, Files, Listing, listed, unlisted, absent, remove, spared, sweep,
  cleanup_except, kept_name, prefix_of, setup_path,
}
use emly_updater.Download.Verified.{lookup-remove}

module _ (lib : Lib) (m : Manager) (removed : String → Bool) where
  -- whether the path is that of an entry which is no directory, has the prefix ("EMLy-" by default), is
  -- not the name to keep, and can be removed
  abbrev pub deletes : String → List (String × Bool) → String → Bool
  deletes keep es path =
      any
        (λ (e : String × Bool).
          not e.1
          && has_prefix e.0 (if is_blank m.prefix then "EMLy-" else m.prefix)
          && not (str_eq e.0 keep)
          && removed e.0
          && str_eq (lib.join m.dir e.0) path)
        es

  sweep_exactly :
      (keep path : String) (es : List (String × Bool)) (files : Files) (e : Option Error)
      → lookup path (sweep lib m removed keep es files e).0
        ≡ (if deletes keep es path then none else lookup path files)
  unfolding sweep spared prefix_of
  sweep_exactly keep path [] files e = refl
  sweep_exactly keep path ((name, is_dir) ∷ es) files e =
      let skip = spared m keep (name, is_dir) in
      let gone = removed name in
      ground (
        arith,
        sweep_exactly keep path es (if skip then files else remove gone (lib.join m.dir name) files)
            (if skip || gone then e else some (or_else not_removed e)),
        lookup-remove gone (lib.join m.dir name) path files,
      )

  -- Exactly the files are gone that an entry names which is no directory, has the prefix, is not the
  -- setup to keep and can be removed; every other file is as it was.
  pub cleanup_except_exactly :
      (version path : String) (es : List (String × Bool)) (files : Files)
      → lookup path (cleanup_except lib m removed version (listed es) files).0 ≡ (
          if deletes (if is_blank version then "" else lib.base (setup_path lib m version)) es path
          then none
          else lookup path files)
  unfolding cleanup_except kept_name
  cleanup_except_exactly version path es files =
      sweep_exactly (kept_name lib m version) path es files none

  -- A sweep only deletes.
  pub cleanup_except_kept :
      (version path : String) (l : Listing) (files : Files)
      → (lookup path (cleanup_except lib m removed version l files).0 ≡ none)
        ⊎ (lookup path (cleanup_except lib m removed version l files).0 ≡ lookup path files)
  unfolding cleanup_except
  cleanup_except_kept version path absent files = inr refl
  cleanup_except_kept version path unlisted files = inr refl
  cleanup_except_kept version path (listed es) files =
      ground (arith, sweep_exactly (kept_name lib m version) path es files none)
