-- ===== src/Download.antt =====
-- internal/download/download.go: the cache of setups and its checksums. The files of the machine are a
-- map from paths to contents; what a system call answers is an argument. SHA-256 with its hexadecimal
-- encoding, strings.EqualFold and filepath.Join and filepath.Base are the argument `Lib`.
pub mod Verified
pub mod Cleanup
pub mod Paths
use emly_updater.Base.{
  ◌≡◌, String, Bool, true, false, not, ◌&&◌, ◌||◌, Option, none, some, Result, ok, err, List, [],
  ◌∷◌, Dict, lookup, insert, delete, is_blank, str_eq, has_prefix, or_else, is_some, ◌<>◌,
  if◌then◌else◌,
}
use emly_updater.Manifest.{Target}

pub record Lib : Type 0 where
  pub digest : String → String
  pub equal_fold : String → String → Bool
  pub join : String → String → String
  pub base : String → String

pub record Manager : Type 0 where
  pub dir : String
  pub prefix : String

abbrev pub Files : Type 0
Files = Dict String

pub data Error : Type 0 where
  no_checksum not_opened not_read mismatch no_dir not_fetched not_renamed not_listed not_removed :
      Error

-- os.Remove; a failure leaves the file, and a missing file is one.
abbrev pub remove : Bool → String → Files → Files
remove true path files = delete path files
remove false path files = files

-- os.Rename over whatever stands at the destination
abbrev pub rename : String → String → Files → Files
rename source dest files = elim (lookup source files) [
  | none ↦ files
  | some content ↦ insert dest content (delete source files)
]

-- What one `Ensure` is answered: `fetched` is what FetchSetup leaves at its destination, also when it
-- fails.
pub record Io : Type 0 where
  pub mkdir_ok : Bool
  pub cached_read_ok : Bool
  pub dest_removed : Bool
  pub fetched : Option String
  pub fetch_ok : Bool
  pub partial_read_ok : Bool
  pub rename_ok : Bool
  pub partial_removed : Bool

abbrev pub default_prefix : String
default_prefix = "EMLy-"

unfoldable pub prefix_of : Manager → String
prefix_of m = if is_blank m.prefix then default_prefix else m.prefix

-- the last element of SetupPath
unfoldable pub setup_name : Manager → String → String
unfolding prefix_of
setup_name m version = prefix_of m <> version <> "-setup.exe"

module _ (lib : Lib) where
  unfoldable pub setup_path : Manager → String → String
  unfolding setup_name
  setup_path m version = lib.join m.dir (setup_name m version)

  checked : String → Bool → Option String → Option Error
  checked expected read_ok none = some not_opened
  checked expected read_ok (some content) =
      if not read_ok
      then some not_read
      else if lib.equal_fold (lib.digest content) expected
      then none
      else some mismatch

  -- VerifyFile; `none` is a nil error.
  unfoldable pub verify_file : String → String → Bool → Files → Option Error
  unfolding checked
  verify_file path expected read_ok files =
      if is_blank expected then some no_checksum else checked expected read_ok (lookup path files)

  unfoldable pub left_by : Io → String → Files → Files
  left_by io partial files = elim io.fetched [
    | none ↦ files
    | some content ↦ insert partial content files
  ]

  -- From FetchSetup on. The deferred removal of the partial file comes last, on every path.
  unfoldable pub finish : Io → String → String → String → Files → Files × Result Error String
  finish io dest partial sha256 files =
      if not io.fetch_ok
      then (files, err not_fetched)
      else if is_some (verify_file partial sha256 io.partial_read_ok files)
      then (files, err (or_else mismatch (verify_file partial sha256 io.partial_read_ok files)))
      else if not io.rename_ok
      then (files, err not_renamed)
      else (rename partial dest files, ok dest)

  unfoldable pub fetch_anew : Io → String → String → String → Files → Files × Result Error String
  fetch_anew io dest partial sha256 files =
      let (files', r) =
        finish io dest partial sha256 (left_by io partial (remove io.dest_removed dest files)) in
      (remove io.partial_removed partial files', r)

  unfoldable pub ensure : Manager → Io → Target → Files → Files × Result Error String
  ensure m io t files =
      let dest = setup_path m t.version in
      if not io.mkdir_ok
      then (files, err no_dir)
      else if is_some (verify_file dest t.sha256 io.cached_read_ok files)
      then fetch_anew io dest (dest <> ".partial") t.sha256 files
      else (files, ok dest)

-- what os.ReadDir answers: each entry's name, and whether it is a directory
pub data Listing : Type 0 where
  absent : Listing
  unlisted : Listing
  listed : List (String × Bool) → Listing

-- The name that CleanupExcept spares, "" for none.
unfoldable pub kept_name : Lib → Manager → String → String
kept_name lib m version = if is_blank version then "" else lib.base (setup_path lib m version)

-- whether the loop passes over an entry
unfoldable pub spared : Manager → String → String × Bool → Bool
spared m keep (name, is_dir) = is_dir || str_eq name keep || not (has_prefix name (prefix_of m))

module _ (lib : Lib) (m : Manager) (removed : String → Bool) where
  -- The loop over the entries, with the first error.
  unfoldable pub sweep : String → List (String × Bool) → Files → Option Error → Files × Option Error
  sweep keep [] files e = (files, e)
  sweep keep ((name, is_dir) ∷ es) files e =
      let gone = removed name in
      let skip = spared m keep (name, is_dir) in
      sweep keep es (if skip then files else remove gone (lib.join m.dir name) files)
        (if skip || gone then e else some (or_else not_removed e))

  unfoldable pub cleanup_except : String → Listing → Files → Files × Option Error
  unfolding sweep
  cleanup_except version absent files = (files, none)
  cleanup_except version unlisted files = (files, some not_listed)
  cleanup_except version (listed es) files = sweep (kept_name lib m version) es files none
