-- ===== src/Service/SourcePolicy.antt =====
-- internal/service/sourcepolicy.go: the facts about the machine that a cycle starts from, and the policy
-- as it applies to them. The answers of the domain controller lookup and of the address enumeration are
-- arguments; a wait's length is left out, and times are in nanoseconds.
pub mod Lookups
pub mod Hosts
pub mod Reports
pub mod Streaks
use emly_updater.Base.{
  ℕ, zero, suc, ◌+◌, ◌-◌, ◌*◌, ◌≡◌, String, Bool, true, false, not, ◌&&◌, ◌||◌, Option, none, some,
  List, [], ◌∷◌, ◌++◌, ℤ, pos, lt_ℤ, to_ℕ, ltb, is_blank, str_eq, ◌<>◌, trim_space, or_else,
  if◌then◌else◌,
}
use emly_updater.Manifest.{VersionLib}
use emly_updater.Policy.Document.{Document, Host, DcLookupRetry}
use emly_updater.Policy.Matching.{Std, chain}
use emly_updater.Policy.Parse.{Json}
use emly_updater.Policy.Parse.Whole.{Effective, effective}
use emly_updater.Policy.Snapshot.{Snapshot}
use emly_updater.Service.RemoteConfig.{State, warn_if_stale}

-- NearestDomainController's answer: the controller's name, or the error
pub data Lookup : Type 0 where
  found lost : String → Lookup

abbrev pub dc_cache_ttl : ℕ
dc_cache_ttl = 3600 * 1000000000

-- the lookup asked once more, with what came of asking it again after that
abbrev pub asked : Lookup → Lookup × ℕ → Lookup × ℕ
asked (found d) later = (found d, 1)
asked (lost e) later = (later.0, suc later.1)

-- `answers n` is the answer of the n-th retry, and `stops n` whether the service stops in the wait before
-- it; the answer, with how often the lookup was asked.
unfoldable pub retried : (ℕ → Lookup) → (ℕ → Bool) → ℕ → ℕ → Lookup → Lookup × ℕ
retried answers stops zero n last = (last, 0)
retried answers stops (suc left) n last =
    let later = retried answers stops left (suc n) (answers n) in
    if stops n then (last, 0) else asked (answers n) later

unfoldable pub retries : DcLookupRetry → Bool → ℕ
retries r joined =
    if not (lt_ℤ (pos 0) r.attempts) || not (lt_ℤ (pos 0) r.delay_seconds) || not joined
    then 0
    else to_ℕ r.attempts

-- resolveDC; the first answer is `answers 0`.
unfoldable pub resolve_dc : DcLookupRetry → (ℕ → Lookup) → (ℕ → Bool) → Bool → Lookup × ℕ
unfolding retries
resolve_dc r answers stops joined =
    asked (answers 0) (retried answers stops (retries r joined) 1 (answers 0))

-- siteState
pub record SiteState : Type 0 where
  pub dc : Option Lookup
  pub dc_at : ℕ
  pub ips : List String
  pub last_key : String
  pub dc_failed_logged : Bool

-- What the service knows of the machine from its start.
pub record Machine : Type 0 where
  pub hwid : String
  pub hostname : String
  pub ad_domain : String

-- slices.Equal
unfoldable pub equal : List String → List String → Bool
equal [] [] = true
equal [] (y ∷ ys) = false
equal (x ∷ xs) [] = false
equal (x ∷ xs) (y ∷ ys) = str_eq x y && equal xs ys

-- What the world answers in a cycle: the clock, the local addresses (none for an error), the lookups, and
-- the stops.
pub record Facts : Type 0 where
  pub now : ℕ
  pub ips : Option (List String)
  pub answers : ℕ → Lookup
  pub stops : ℕ → Bool

abbrev pub name_of : Option Lookup → String
name_of none = ""
name_of (some (found d)) = d
name_of (some (lost e)) = ""

abbrev pub failed : Option Lookup → Bool
failed (some (lost e)) = true
failed _ = false

abbrev pub once : DcLookupRetry
once = record { attempts = pos 0; delay_seconds = pos 0 }

unfoldable pub need_dc : Bool → Facts → SiteState → Bool
need_dc first f s =
    first || not (equal (or_else [] f.ips) s.ips) || ltb dc_cache_ttl (f.now - s.dc_at)

-- machineinfo.DomainJoined; `fold` is what EqualFold compares.
unfoldable pub domain_joined : (String → String) → Machine → Bool
domain_joined fold m =
    let d = trim_space m.ad_domain in
    if is_blank d || str_eq (fold d) (fold "WORKGROUP")
    then false
    else not (str_eq (fold d) (fold m.hostname))

unfoldable pub looked_up : DcLookupRetry → Bool → Bool → Facts → SiteState → SiteState
looked_up retry joined first f s =
    if need_dc first f s
    then record s {
      dc = some (resolve_dc (if first then retry else once) f.answers f.stops joined).0;
      dc_at = f.now;
      ips = or_else [] f.ips;
    }
    else s

-- resolveHost: the site state with the lookup kept or made anew, and the host
unfoldable pub resolve_host :
    DcLookupRetry → Bool → Machine → Bool → Facts → SiteState → SiteState × Host
resolve_host retry joined m first f s =
    let s' = looked_up retry joined first f s in
    (
      s',
      record {
        hwid = m.hwid;
        hostname = m.hostname;
        dc = name_of s'.dc;
        domain = if joined then m.ad_domain else "";
        ips = or_else [] f.ips;
        now = f.now;
      },
    )

pub record CycleState : Type 0 where
  pub snap : Snapshot
  pub host : Host
  pub eff : Effective
  pub site : String
  pub chain : List String

-- the events of the log: 701, 700 with the decision's key, and 903
pub data Event : Type 0 where
  source_failed : Event
  source_decided : String → Event
  stale_policy : Event

pub record Node : Type 0 where
  pub config : State
  pub site : SiteState
  pub cur : Option CycleState

-- strings.Join
abbrev pub join : List String → String
join [] = ""
join (x ∷ []) = x
join (x ∷ y ∷ ys) = x <> ("," <> join (y ∷ ys))

abbrev pub key_of : CycleState → String
key_of c = c.site <> ("|" <> (join c.chain <> ("|" <> join c.eff.applied)))

-- the report of a lookup that failed, once per streak
unfoldable pub note_failure : Bool → SiteState → SiteState × List Event
note_failure joined s =
    if failed s.dc && joined
    then (
      record s { dc_failed_logged = true },
      if s.dc_failed_logged then [] else source_failed ∷ [],
    )
    else (record s { dc_failed_logged = false }, [])

-- the report of a decision that is not the last one
unfoldable pub note_decision : String → SiteState → SiteState × List Event
note_decision key s =
    if str_eq key s.last_key
    then (s, [])
    else (record s { last_key = key }, source_decided key ∷ [])

module _ {Ip Net V : Type 0} (std : Std Ip Net) (lib : VersionLib V) (json : Json) where
  -- the policy of the snapshot for a host
  unfoldable pub state_for : Snapshot → Host → CycleState
  state_for snap host =
      let eff = effective std lib json snap.parsed host in
      let (site, names) = chain std eff.doc host in
      record { snap = snap; host = host; eff = eff; site = site; chain = names }

  unfoldable pub begin_cycle : Machine → Bool → Facts → Node → Node × List Event
  begin_cycle m first f n =
      let snap = n.config.policy in
      let joined = domain_joined std.fold m in
      let (s, host) =
        resolve_host snap.parsed.global.updater.dc_lookup_retry joined m first f n.site in
      let c = state_for snap host in
      let (config, stale) = warn_if_stale snap f.now n.config in
      let (s', failures) = note_failure joined s in
      let (s'', decisions) = note_decision (key_of c) s' in
      (
        record { config = config; site = s''; cur = some c },
        (if stale then stale_policy ∷ [] else []) ++ (failures ++ decisions),
      )

  -- current
  unfoldable pub current : Machine → ℕ → Node → CycleState
  current m now n =
      or_else
        (state_for n.config.policy (record {
          hwid = m.hwid;
          hostname = m.hostname;
          dc = "";
          domain = "";
          ips = [];
          now = now;
        }))
        n.cur

  -- cycles that follow each other, each with the facts of its moment; the first of a service is `first`
  unfoldable pub begun : Machine → Bool → List Facts → Node → Node × List Event
  begun m first [] n = (n, [])
  begun m first (f ∷ fs) n =
      let (n', es) = begin_cycle m first f n in
      let (n'', later) = begun m false fs n' in (n'', es ++ later)
