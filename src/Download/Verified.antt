-- ===== src/Download/Verified.antt =====
-- internal/download/download.go: what `Ensure` returns and what it leaves.
use emly_updater.Base.{
  ◌≡◌, ◌⊎◌, inl, inr, refl, String, Bool, true, false, ◌&&◌, none, some, ok, err, lookup, delete,
  lookup-insert, lookup-delete, str_eq, eq_iff, append-ne, ◌<>◌, arith, Option-cases, if◌then◌else◌,
}
use emly_updater.Manifest.{Target}
use emly_updater.Download.{
  Lib, Manager, Files, Io, Error, ensure, setup_path, verify_file, rename, remove, left_by, finish,
  fetch_anew,
}

pub lookup-remove :
    (r : Bool) (path x : String) (files : Files)
    → lookup x (remove r path files) ≡ (if r && str_eq path x then none else lookup x files)
lookup-remove true path x files = lookup-delete path x files
lookup-remove false path x files = refl

lookup-rename :
    (a b x : String) (c : String) (files : Files)
    → lookup a files ≡ some c
    → lookup x (rename a b files)
      ≡ (if str_eq b x then some c else if str_eq a x then none else lookup x files)
lookup-rename a b x c files e =
    ground (arith, lookup-insert b x c (delete a files), lookup-delete a x files)

module _ (lib : Lib) where
  -- whether a content has the checksum
  abbrev pub has_checksum : String → String → Bool
  has_checksum expected content = lib.equal_fold (lib.digest content) expected

  pub verify_file-content :
      (path expected : String) (r : Bool) (files : Files)
      → verify_file lib path expected r files ≡ none
      → (c : String) × (lookup path files ≡ some c) × (has_checksum expected c ≡ true)
  unfolding verify_file
  verify_file-content path expected r files h = elim (Option-cases (lookup path files)) [
    | inl e ↦ absurd (ground arith)
    | inr (c, e) ↦ (c, e, ground arith)
  ]

  pub verify_file-again :
      (path other expected c : String) (r : Bool) (files files' : Files)
      → verify_file lib path expected r files ≡ none
      → lookup path files ≡ some c
      → lookup other files' ≡ some c
      → verify_file lib other expected true files' ≡ none
  unfolding verify_file
  verify_file-again path other expected c r files files' h e e' = ground arith

  -- a download that succeeds has moved the verified partial into place
  finish-Renames :
      (io : Io) (dest partial sha256 path : String) (files : Files)
      → (finish lib io dest partial sha256 files).1 ≡ ok path
      → (path ≡ dest)
        × ((finish lib io dest partial sha256 files).0 ≡ rename partial dest files)
        × (verify_file lib partial sha256 io.partial_read_ok files ≡ none)
  unfolding finish
  finish-Renames io dest partial sha256 path files h = ground arith

  finish-IsVerified :
      (io : Io) (dest partial sha256 path : String) (files : Files)
      → str_eq partial dest ≡ false
      → (finish lib io dest partial sha256 files).1 ≡ ok path
      → (path ≡ dest)
        × (verify_file lib dest sha256 true
              (remove io.partial_removed partial (finish lib io dest partial sha256 files).0)
            ≡ none)
  finish-IsVerified io dest partial sha256 path files ne h =
      let (same, moved, good) = finish-Renames io dest partial sha256 path files h in
      let (c, at, fits) = verify_file-content partial sha256 io.partial_read_ok files good in
      (
        same,
        verify_file-again partial dest sha256 c io.partial_read_ok files
            (remove io.partial_removed partial (finish lib io dest partial sha256 files).0) good at
            (rw moved (
              ground (
                arith,
                eq_iff dest dest,
                lookup-remove io.partial_removed partial dest (rename partial dest files),
                lookup-rename partial dest dest c files at,
              ))),
      )

  fetch_anew-IsVerified :
      (io : Io) (dest partial sha256 path : String) (files : Files)
      → str_eq partial dest ≡ false
      → (fetch_anew lib io dest partial sha256 files).1 ≡ ok path
      → (path ≡ dest)
        × (verify_file lib dest sha256 true (fetch_anew lib io dest partial sha256 files).0 ≡ none)
  unfolding fetch_anew
  fetch_anew-IsVerified io dest partial sha256 path files ne h =
      finish-IsVerified io dest partial sha256 path
        (left_by lib io partial (remove io.dest_removed dest files)) ne h

  finish_others :
      (io : Io) (dest partial sha256 x : String) (files : Files)
      → str_eq dest x ≡ false
      → str_eq partial x ≡ false
      → lookup x (finish lib io dest partial sha256 files).0 ≡ lookup x files
  unfolding finish
  finish_others io dest partial sha256 x files nd np = elim (Option-cases (lookup partial files)) [
    | inl e ↦ ground arith
    | inr (c, e) ↦ ground (arith, lookup-rename partial dest x c files e)
  ]

  left_by_others :
      (io : Io) (partial x : String) (files : Files)
      → str_eq partial x ≡ false
      → lookup x (left_by lib io partial files) ≡ lookup x files
  unfolding left_by
  left_by_others io partial x files ne = elim (Option-cases io.fetched) [
    | inl e ↦ rw e refl
    | inr (c, e) ↦ rw e (ground (arith, lookup-insert partial x c files))
  ]

  fetch_anew_others :
      (io : Io) (dest partial sha256 x : String) (files : Files)
      → str_eq dest x ≡ false
      → str_eq partial x ≡ false
      → lookup x (fetch_anew lib io dest partial sha256 files).0 ≡ lookup x files
  unfolding fetch_anew
  fetch_anew_others io dest partial sha256 x files nd np =
      let start = remove io.dest_removed dest files in
      let arrived = left_by lib io partial start in
      ground (
        arith,
        lookup-remove io.partial_removed partial x (finish lib io dest partial sha256 arrived).0,
        finish_others io dest partial sha256 x arrived nd np,
        left_by_others io partial x start np,
        lookup-remove io.dest_removed dest x files,
      )

  finish_failed :
      (io : Io) (dest partial sha256 : String) (files : Files) (e : Error)
      → (finish lib io dest partial sha256 files).1 ≡ err e
      → (finish lib io dest partial sha256 files).0 ≡ files
  unfolding finish
  finish_failed io dest partial sha256 files e h = ground arith

  fetch_anew_failed :
      (io : Io) (dest partial sha256 x : String) (files : Files) (e : Error)
      → str_eq partial x ≡ false
      → (fetch_anew lib io dest partial sha256 files).1 ≡ err e
      → (lookup x (fetch_anew lib io dest partial sha256 files).0 ≡ none)
        ⊎ (lookup x (fetch_anew lib io dest partial sha256 files).0 ≡ lookup x files)
  unfolding fetch_anew
  fetch_anew_failed io dest partial sha256 x files e np h =
      let start = remove io.dest_removed dest files in
      let arrived = left_by lib io partial start in
      ground (
        arith,
        finish_failed io dest partial sha256 arrived e h,
        lookup-remove io.partial_removed partial x (finish lib io dest partial sha256 arrived).0,
        left_by_others io partial x start np,
        lookup-remove io.dest_removed dest x files,
      )

  module _ (m : Manager) (io : Io) (t : Target) (files : Files) where
    -- A path that Ensure returns is the cache path of the version, and the file there has the
    -- checksum of the target.
    pub ensure-IsVerified :
        (path : String)
        → (ensure lib m io t files).1 ≡ ok path
        → (path ≡ setup_path lib m t.version)
          × (verify_file lib path t.sha256 true (ensure lib m io t files).0 ≡ none)
    unfolding ensure
    ensure-IsVerified path h =
        let dest = setup_path lib m t.version in
        elim (Option-cases (verify_file lib dest t.sha256 io.cached_read_ok files)) [
          | inl hit ↦
              let (c, at, fits) = verify_file-content dest t.sha256 io.cached_read_ok files hit in
              ground (
                arith,
                verify_file-again dest dest t.sha256 c io.cached_read_ok files files hit at at,
              )
          | inr (e, miss) ↦ ground (
            arith,
            fetch_anew-IsVerified io dest (dest <> ".partial") t.sha256 path files
                (append-ne dest ".partial" refl),
          )
        ]

    -- No other file is touched.
    pub ensure_others :
        (path : String)
        → str_eq (setup_path lib m t.version) path ≡ false
        → str_eq (setup_path lib m t.version <> ".partial") path ≡ false
        → lookup path (ensure lib m io t files).0 ≡ lookup path files
    unfolding ensure
    ensure_others path nd np =
        let dest = setup_path lib m t.version in
        ground (arith, fetch_anew_others io dest (dest <> ".partial") t.sha256 path files nd np)

    -- A failed Ensure leaves every file but the partial as it was, or deleted.
    pub ensure_failed :
        (path : String) (e : Error)
        → str_eq (setup_path lib m t.version <> ".partial") path ≡ false
        → (ensure lib m io t files).1 ≡ err e
        → (lookup path (ensure lib m io t files).0 ≡ none)
          ⊎ (lookup path (ensure lib m io t files).0 ≡ lookup path files)
    unfolding ensure
    ensure_failed path e np h =
        let dest = setup_path lib m t.version in
        ground (arith, fetch_anew_failed io dest (dest <> ".partial") t.sha256 path files e np)
