-- ===== src/Ipc/Version.antt =====
-- internal/ipc/version.go: the range of EMLy releases accepted for one protocol version.
use emly_updater.Base.{
  ◌≡◌, ap, ◌∙◌, and-true, inl, inr, ℤ, String, Bool, true, false, not, ◌&&◌, Option, none, some, [],
  ◌∷◌, lookup, Result, ok, err, is_blank, or_else, arith, if◌then◌else◌, Bool-cases, Option-cases,
  Result-cases,
}
use emly_updater.Manifest as ManifestOrder
use emly_updater.Manifest.{VersionLib, IsStrictOrder, less, parsed}
use emly_updater.Manifest.Channel.{less-parsed, less-of_parsed}
use emly_updater.Policy.Document.{IpcProtocol, IpcVersion, is_enabled}

abbrev pub min_compatible_emly_version : String
min_compatible_emly_version = "2.0.0"

abbrev pub max_compatible_emly_version : String
max_compatible_emly_version = "2.1.0"

pub record Compat : Type 0 where
  pub enabled : Bool
  pub min : String
  pub max : String

abbrev pub compiled_compat : Compat
compiled_compat = record {
  enabled = true;
  min = min_compatible_emly_version;
  max = max_compatible_emly_version;
}

-- The compiled matrix in the document's shape, for the protocol version and its numeral.
abbrev pub compiled_ipc_protocol : ℤ → String → IpcProtocol
compiled_ipc_protocol version numeral = record {
  versions =
      (
        numeral,
        record {
          updater = record { min = none; max = none };
          emly = record {
            min = some min_compatible_emly_version;
            max = some max_compatible_emly_version;
          };
          enabled = some true;
        },
      )
      ∷ [];
  default_version = version;
}

pub data Refusal : Type 0 where
  disabled : Refusal
  missing : Refusal
  invalid : ManifestOrder.Error → Refusal
  too_old : String → Refusal

module _ {V : Type 0} (lib : VersionLib V) where
  -- the document's minimum where it is a higher one
  raised : String → String → String
  raised compiled m = elim (less lib compiled m) [
    | ok b ↦ if b then m else compiled
    | err _ ↦ compiled
  ]

  raised_min : String → Option String → String
  unfolding raised
  raised_min compiled none = compiled
  raised_min compiled (some m) = if is_blank m then compiled else raised compiled m

  -- The protocol version is given by its numeral.
  unfoldable pub effective_compat : Compat → IpcProtocol → String → Compat
  unfolding raised_min
  effective_compat compiled remote v = elim (lookup v remote.versions) [
    | none ↦ compiled
    | some entry ↦ record {
      enabled = compiled.enabled && is_enabled entry.enabled;
      min = raised_min compiled.min entry.emly.min;
      max = or_else "" entry.emly.max;
    }
  ]

  at_least_min : Compat → String → Result Refusal (Unit {0})
  at_least_min c version = elim (less lib version c.min) [
    | err e ↦ err (invalid e)
    | ok below ↦ if below then err (too_old version) else ok tt
  ]

  -- The warning about a client above the maximum is only logged.
  unfoldable pub check_peer_version : Compat → String → Result Refusal (Unit {0})
  unfolding at_least_min
  check_peer_version c version =
      if not c.enabled
      then err disabled
      else if is_blank version
      then err missing
      else at_least_min c version

  -- no policy wired in, or none yet: as compiled
  abbrev pub compat : Option IpcProtocol → String → Compat
  compat none v = compiled_compat
  compat (some remote) v = effective_compat compiled_compat remote v

  accepted :
      (c : Compat) (version : String)
      → check_peer_version c version ≡ ok tt
      → (c.enabled ≡ true) × (is_blank version ≡ false) × (less lib version c.min ≡ ok false)
  unfolding check_peer_version at_least_min
  accepted c version h = (ground arith, ground arith, ground arith)

  accept :
      (c : Compat) (version : String)
      → c.enabled ≡ true
      → is_blank version ≡ false
      → less lib version c.min ≡ ok false
      → check_peer_version c version ≡ ok tt
  unfolding check_peer_version at_least_min
  accept c version on given fits = ground arith

module _ {V : Type 0} (lib : VersionLib V) (order : IsStrictOrder lib) where
  below_raised :
      (compiled m version : String)
      → less lib version (raised lib compiled m) ≡ ok false
      → less lib version compiled ≡ ok false
  unfolding raised
  below_raised compiled m version h = elim (Result-cases (less lib compiled m)) [
    | inr (e, q) ↦ rw (q, raised) at h
    | inl (false, q) ↦ rw (q, raised) at h
    | inl (true, q) ↦
        let (vc, vm, ec, em, lt) = less-parsed lib compiled m q in
        let fits : less lib version m ≡ ok false = rw (q, raised) at h in
        let (vv, vn, ev, en, ge) = less-parsed lib version m fits in
        let same : vn ≡ vm = ground arith in
        let up = order.transitive vv vc vm in
        let low : lib.less_than vv vc ≡ false = elim (Bool-cases (lib.less_than vv vc)) [
          | inl l ↦ absurd (ground (arith, up l lt, same))
          | inr l ↦ l
        ] in
        less-of_parsed lib version compiled vv vc ev ec ∙ ap ok low
  ]

  below_min :
      (compiled : String) (m : Option String) (version : String)
      → less lib version (raised_min lib compiled m) ≡ ok false
      → less lib version compiled ≡ ok false
  unfolding raised_min
  below_min compiled none version h = h
  below_min compiled (some m) version h = elim (Bool-cases (is_blank m)) [
    | inl e ↦ rw (e, raised_min) at h
    | inr e ↦ below_raised compiled m version (rw (e, raised_min) at h)
  ]

  -- The remote document can only narrow: where versions are strictly ordered, a peer that is
  -- accepted under the effective range is accepted under the compiled one, for every document.
  pub effective_compat-narrows :
      (compiled : Compat) (remote : IpcProtocol) (v version : String)
      → check_peer_version lib (effective_compat lib compiled remote v) version ≡ ok tt
      → check_peer_version lib compiled version ≡ ok tt
  unfolding effective_compat
  effective_compat-narrows compiled remote v version h =
      elim (Option-cases (lookup v remote.versions)) [
        | inl e ↦ rw (e, effective_compat) at h
        | inr (entry, e) ↦
            let (on, given, fits) = accepted lib _ version (rw (e, effective_compat) at h) in
            accept lib compiled version (and-true compiled.enabled (is_enabled entry.enabled) on).0
              given (below_min compiled.min entry.emly.min version fits)
      ]

  -- A peer that is accepted is no older than the minimum that the document lists for the protocol
  -- version, if that one is a version, and the document has not disabled the protocol version.
  pub effective_compat-enforces :
      (compiled : Compat) (remote : IpcProtocol) (v version : String) (entry : IpcVersion)
      (m : String) (least lowest : V)
      → lookup v remote.versions ≡ some entry
      → entry.emly.min ≡ some m
      → is_blank m ≡ false
      → lib.new_version m ≡ some least
      → lib.new_version compiled.min ≡ some lowest
      → check_peer_version lib (effective_compat lib compiled remote v) version ≡ ok tt
      → (is_enabled entry.enabled ≡ true) × (less lib version m ≡ ok false)
  unfolding effective_compat raised_min raised
  effective_compat-enforces compiled remote v version entry m least lowest listed minimum given
        parses compiled_parses h =
      let (on, _, fits) = accepted lib _ version (rw (listed, effective_compat) at h) in
      let q = less-of_parsed lib compiled.min m lowest least compiled_parses parses in
      let fits' : less lib version (raised lib compiled.min m) ≡ ok false =
        rw (minimum, raised_min, given) at fits in
      (
        (and-true compiled.enabled (is_enabled entry.enabled) on).1,
        elim (Bool-cases (lib.less_than lowest least)) [
          | inl l ↦ rw (q, raised, l) at fits'
          | inr l ↦
              let low : less lib version compiled.min ≡ ok false = rw (q, raised, l) at fits' in
              let (vv, vc, ev, ec, ge) = less-parsed lib version compiled.min low in
              let same : vc ≡ lowest = ground arith in
              let split = order.weak vv lowest least in
              less-of_parsed lib version m vv least ev parses
              ∙ ap ok (elim (Bool-cases (lib.less_than vv least)) [
                | inl u ↦ absurd (ground (arith, split u, same))
                | inr u ↦ u
              ])
        ],
      )
