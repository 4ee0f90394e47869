-- ===== src/Service/RemoteConfig.antt =====
-- internal/service/remoteconfig.go: which document is in force, and how a new one replaces it.
-- The requests are the argument `fetch`, from the address and the etag to the answer; the cache
-- file is the document last written with its header, and a write fails when `writable` is false.
pub mod Safety
pub mod Candidates
pub mod Cache
use emly_updater.Base.{
  ℕ, suc, ◌+◌, ◌-◌, ◌*◌, ◌≡◌, refl, ℤ, lt_ℤ, String, Bool, true, false, not, ◌&&◌, ◌||◌, Option,
  none, some, List, [], ◌∷◌, ◌++◌, Result, ok, err, is_blank, is_some, contains, ltb, or_else, ◌<>◌,
  ◌==◌, if◌then◌else◌, trim_slashes,
}
use emly_updater.Manifest.{VersionLib}
use emly_updater.Policy.Document.{Document, Host, minutes}
use emly_updater.Policy.Json.{Value, Fields}
use emly_updater.Policy.Matching.{Std, chain, base_url, updater_enabled}
use emly_updater.Policy.Parse.{Json}
use emly_updater.Policy.Parse.Whole.{Parsed, Effective, parse, effective}
use emly_updater.Policy.Snapshot.{
  Source, Snapshot, default, cached, remote, is_default, revision, stale,
}

-- an answer's status, its body with its size, and its etag
pub record Response : Type 0 where
  pub status : ℕ
  pub size : ℕ
  pub body : Option Value
  pub etag : String

pub record CacheFile : Type 0 where
  pub fetched_at : Option ℕ
  pub fetched_from : String
  pub etag : String
  pub document : Document

pub record Candidate : Type 0 where
  pub name : String
  pub base : String

pub record Settings : Type 0 where
  pub enabled : Bool
  pub endpoints : List String
  pub route : String

pub record State : Type 0 where
  pub policy : Snapshot
  pub cache : Option CacheFile
  pub last_attempt : Option ℕ
  pub unreachable : Bool
  pub last_stale_warn : Option ℕ
  pub paused : Bool

abbrev pub stale_warn_every : ℕ
stale_warn_every = 24 * 60 * 60 * 1000000000

-- `add`, on the candidates found so far; the bases among them are the keys of `seen`.
unfoldable pub add : List Candidate → List String → String × String → List Candidate × List String
add out seen (name, base) =
    let b = trim_slashes base in
    if is_blank b || contains seen b
    then (out, seen)
    else (out ++ record { name = name; base = b } ∷ [], b ∷ seen)

unfoldable pub add_all :
    List Candidate → List String → List (String × String) → List Candidate × List String
add_all out seen [] = (out, seen)
add_all out seen (p ∷ ps) = let (out', seen') = add out seen p in add_all out' seen' ps

named : Document → List String → List (String × String)
named doc [] = []
named doc (n ∷ ns) = (n, base_url doc n) ∷ named doc ns

unfoldable pub endpoints_of : List String → List (String × String)
endpoints_of [] = []
endpoints_of (e ∷ es) = (e, e) ∷ endpoints_of es

abbrev pub default_of : Document → List String
default_of doc = if is_blank doc.default_server then [] else doc.default_server ∷ []

-- saveCache; the default policy is never written.
unfoldable pub save_cache : Bool → Snapshot → State → State
save_cache writable snap s = if is_default snap.source || not writable then s else record s {
  cache = some (record {
    fetched_at = snap.fetched_at;
    fetched_from = snap.fetched_from;
    etag = snap.etag;
    document = snap.parsed.global;
  });
}

unfoldable pub set_policy : Bool → Snapshot → State → State
unfolding save_cache
set_policy writable snap s = save_cache writable snap (record s { policy = snap })

unfoldable pub confirm_snapshot : Bool → Snapshot → String → ℕ → State → State
confirm_snapshot writable snap from now s =
    set_policy writable
      (record snap { source = remote; fetched_at = some now; fetched_from = from }) s

-- The mark of the last warning, and whether event 903 is logged now.
unfoldable pub warn_if_stale : Snapshot → ℕ → State → State × Bool
warn_if_stale snap now s =
    if not (stale snap now)
    then (record s { last_stale_warn = none }, false)
    else elim s.last_stale_warn [
      | none ↦ (record s { last_stale_warn = some now }, true)
      | some at ↦
          if ltb (now - at) stale_warn_every
          then (s, false)
          else (record s { last_stale_warn = some now }, true)
    ]

module _ {Ip Net V : Type 0} (std : Std Ip Net) (lib : VersionLib V) (json : Json) where
  -- the servers that the policy gives this host, none when the overrides were refused
  unfoldable pub policy_servers : Snapshot → Host → List (String × String)
  unfolding named
  policy_servers snap host =
      let e = effective std lib json snap.parsed host in
      if e.refused then [] else named e.doc ((chain std e.doc host).1 ++ default_of e.doc)

  unfoldable pub config_candidates : Settings → Snapshot → Host → List Candidate
  unfolding policy_servers endpoints_of
  config_candidates cfg snap host =
      (add_all [] [] (policy_servers snap host ++ endpoints_of cfg.endpoints)).0

  -- What follows `Parse` in acceptDocument; problems keep the current policy.
  unfoldable pub take_parsed :
      {E : Type 0} → Bool → Response → String → ℕ → State → Result E Parsed → State
  take_parsed writable resp from now s (err _) = s
  take_parsed writable resp from now s (ok parsed) =
      if not (is_default s.policy.source) && lt_ℤ parsed.global.revision (revision s.policy)
      then s
      else set_policy writable
          (record {
            parsed = parsed;
            source = remote;
            fetched_at = some now;
            fetched_from = from;
            etag = resp.etag;
          })
          s

  unfoldable pub accept_document : Fields → Bool → Response → String → ℕ → State → State
  unfolding take_parsed
  accept_document defaults writable resp from now s =
      take_parsed writable resp from now s (parse std lib json resp.size resp.body defaults)

  -- The switch on the status of an answer.
  unfoldable pub answered : Fields → Bool → Response → String → ℕ → State → State
  answered defaults writable resp from now s =
      if resp.status == 304
      then confirm_snapshot writable s.policy from now s
      else if resp.status == 204
      then s
      else accept_document defaults writable resp from now s

  -- The loop over the candidates, up to the first that answers; `cancelled i` is ctx.Err before
  -- the i-th request.
  unfoldable pub ask :
      Fields
      → Bool
      → (String → String → Option Response)
      → (ℕ → Bool)
      → String
      → String
      → ℕ
      → ℕ
      → List Candidate
      → State
      → State
  ask defaults writable fetch cancelled route etag now i [] s = record s { unreachable = true }
  ask defaults writable fetch cancelled route etag now i (c ∷ cs) s =
      let rest = ask defaults writable fetch cancelled route etag now (i + 1) cs s in
      if cancelled i then s else elim (fetch (c.base <> route) etag) [
        | none ↦ rest
        | some resp ↦ answered defaults writable resp c.name now (record s { unreachable = false })
      ]

  -- whether the last attempt is less than the document's interval ago
  unfoldable pub too_soon : State → ℕ → Bool
  too_soon s now = elim s.last_attempt [
    | none ↦ false
    | some at ↦ ltb (now - at) (minutes s.policy.parsed.global.refresh.interval_minutes)
  ]

  sent_etag : Snapshot → String
  sent_etag snap = if is_default snap.source then "" else snap.etag

  unfoldable pub refresh_config :
      Settings
      → Fields
      → Bool
      → (String → String → Option Response)
      → (ℕ → Bool)
      → Bool
      → Host
      → ℕ
      → State
      → State
  unfolding too_soon sent_etag
  refresh_config cfg defaults writable fetch cancelled force host now s =
      if not cfg.enabled || (not force && too_soon s now)
      then s
      else ask defaults writable fetch cancelled cfg.route (sent_etag s.policy) now 0
          (config_candidates cfg s.policy host) (record s { last_attempt = some now })

  -- `cyc.eff` and `cyc.host.Now`; the second part is whether event 904 is logged.
  unfoldable pub apply_control_gate : Effective → ℕ → State → State × Bool × Bool
  apply_control_gate eff now s =
      let enabled = (updater_enabled std eff.doc now).0 in
      (
        record s { paused = not enabled },
        (enabled && s.paused) || (not enabled && not s.paused),
        enabled,
      )
