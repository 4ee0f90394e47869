-- ===== src/Manifest/Updater.antt =====
-- The updater's own release manifest (updater.go).
use Prim.Native.Nat.{ℕ}
use emly_updater.Base.{
  ◌≡◌, String, Bool, true, false, not, Option, none, some, Result, ok, err, [], ◌∷◌, Dict, lookup,
  is_blank, arith, if◌then◌else◌, trim_space,
}
use emly_updater.Manifest.{Error, bad_json, no_download, no_checksum, Target}

pub record UpdaterManifest : Type 0 where
  pub version : String
  pub download : String
  pub sha256 : String
  pub size : ℕ
  pub published_at : String
  pub release_notes : Dict String

trimmed : UpdaterManifest → UpdaterManifest
trimmed m = record m {
  version = trim_space m.version;
  download = trim_space m.download;
  sha256 = trim_space m.sha256;
}

validated : UpdaterManifest → Result Error UpdaterManifest
validated m =
    if is_blank m.version
    then ok m
    else if is_blank m.download
    then err (no_download m.version)
    else if is_blank m.sha256
    then err (no_checksum m.version)
    else ok m

-- What follows json.Unmarshal in `ParseUpdater`; `none` is a decoding error.
unfoldable pub checked_updater : Option UpdaterManifest → Result Error UpdaterManifest
unfolding trimmed validated
checked_updater none = err bad_json
checked_updater (some m) = validated (trimmed m)

-- the receiver may be nil
unfoldable pub offered : Option UpdaterManifest → Bool
offered none = false
offered (some m) = not (is_blank m.version)

unfoldable pub target : UpdaterManifest → Target
target m = record { version = m.version; download_ref = m.download; sha256 = m.sha256 }

-- the loop over every note; Go's order of a map is the order of the entries here
first_note : Dict String → String
first_note [] = ""
first_note ((k, n) ∷ r) = let rest = first_note r in if is_blank n then rest else n

note_of : String → Dict String → Option String
note_of lang notes = elim (lookup lang notes) [
  | none ↦ none
  | some n ↦ if is_blank n then none else some n
]

unfoldable pub notes : UpdaterManifest → String → String
unfolding first_note note_of
notes m lang = elim (note_of lang m.release_notes) [
  | some n ↦ n
  | none ↦ elim (note_of "en" m.release_notes) [ some n ↦ n | none ↦ first_note m.release_notes ]
]

-- A manifest that is accepted and offers a release has a download and a checksum, so that what
-- is handed to the download manager can be fetched and verified.
pub checked_updater-installable :
    (raw : Option UpdaterManifest) (m : UpdaterManifest)
    → checked_updater raw ≡ ok m
    → offered (some m) ≡ true
    → (is_blank (target m).download_ref ≡ false) × (is_blank (target m).sha256 ≡ false)
unfolding checked_updater offered target
checked_updater-installable none m h o = cc
checked_updater-installable (some raw) m h o = ground arith

first_note-nonblank :
    (notes : Dict String) (k n : String)
    → lookup k notes ≡ some n
    → is_blank n ≡ false
    → is_blank (first_note notes) ≡ false
unfolding first_note lookup
first_note-nonblank [] k n h b = cc
first_note-nonblank ((j, v) ∷ r) k n h b = ground (arith, first_note-nonblank r k n)

-- A note is found whenever one of the languages has one.
pub notes-nonblank :
    (m : UpdaterManifest) (lang k n : String)
    → lookup k m.release_notes ≡ some n
    → is_blank n ≡ false
    → is_blank (notes m lang) ≡ false
unfolding notes
notes-nonblank m lang k n h b = ground (arith, first_note-nonblank m.release_notes k n h b)
