-- ===== src/Policy/Matching.antt =====
-- internal/policy/match.go, and the name comparisons of parse.go: which hosts a selector picks,
-- which site a host is at, and what the effective document says for it.
pub mod Sites
pub mod Switches
use emly_updater.Base.{
  ℕ, ◌≡◌, ℤ, String, Bool, true, false, not, ◌&&◌, ◌||◌, Option, none, some, List, [], ◌∷◌, Dict,
  lookup, any, ltb, is_empty, is_blank, str_eq, trim_space, before_dot, or_else, if◌then◌else◌,
}
use emly_updater.Policy.Document.{
  Selector, Host, Site, Document, Control, ControlUpdater, ControlApp, is_enabled, app_mode_normal,
}

-- What url.Parse makes of an address.
pub record Url : Type 0 where
  pub scheme : String
  pub host : String
  pub raw_query : String
  pub fragment : String
  pub path : String
  pub path_ends_in_slash : Bool

-- The standard library's parsers and its tables of letters. `Ip` and `Net` are net.IP and
-- net.IPNet; `fold` takes each letter to one that stands for all that strings.EqualFold takes for
-- the same.
pub record Std (Ip Net : Type 0) : Type 0 where
  pub fold : String → String
  pub to_lower : String → String
  -- time.Parse(time.RFC3339, s)
  pub parse_time : String → Option ℕ
  pub parse_ip : String → Option Ip
  pub parse_cidr : String → Option Net
  pub in_net : Net → Ip → Bool
  pub is_ipv4 : Net → Bool
  pub parse_url : String → Option Url
  -- strconv.Atoi and strconv.Itoa
  pub atoi : String → Option ℤ
  pub itoa : ℤ → String

-- The leading label of a host name, without any DNS suffix.
unfoldable pub host_label : String → String
host_label name = before_dot (trim_space name)

module _ {Ip Net : Type 0} (std : Std Ip Net) where
  abbrev pub equal_fold : String → String → Bool
  equal_fold s t = str_eq (std.fold s) (std.fold t)

  unfoldable pub same_dc_name : String → String → Bool
  same_dc_name a b = equal_fold (host_label a) (host_label b)

  unfoldable pub contains_fold : List String → String → Bool
  contains_fold list s =
      if is_blank s then false else any (λ x. equal_fold (trim_space x) (trim_space s)) list

  ip_in : Net → String → Bool
  ip_in n ip = elim (std.parse_ip (trim_space ip)) [
    | none ↦ false
    | some parsed ↦ std.in_net n parsed
  ]

  any_ip_in : List String → String → Bool
  unfolding ip_in
  any_ip_in ips c = elim (std.parse_cidr (trim_space c)) [
    | none ↦ false
    | some n ↦ any (ip_in n) ips
  ]

  unfoldable pub any_ip_in_subnets : List String → List String → Bool
  unfolding any_ip_in
  any_ip_in_subnets ips cidrs = any (any_ip_in ips) cidrs

  -- An empty list does not restrict.
  abbrev restricted : List String → Bool → Bool
  restricted list passes = is_empty list || passes

  unfoldable pub selects : Selector → Host → Bool
  selects s h =
      if s.everyone
      then true
      else restricted s.hwids (contains_fold s.hwids h.hwid)
        && restricted s.hostnames (contains_fold s.hostnames h.hostname)
        && restricted s.dcs (not (is_blank h.dc) && any (λ dc. same_dc_name dc h.dc) s.dcs)
        && restricted s.domains (contains_fold s.domains h.domain)
        && restricted s.subnets (any_ip_in_subnets h.ips s.subnets)

  -- whether an `until` is set and not after `now`
  unfoldable pub expired : Option String → ℕ → Bool
  expired none now = false
  expired (some s) now =
      if is_blank s
      then false
      else elim (std.parse_time s) [ none ↦ false | some t ↦ not (ltb now t) ]

  -- The loop over the sites; its order is that of Go's map, which is the order of the entries.
  unfoldable pub find_site : Dict Site → Host → Option (String × Site)
  find_site [] h = none
  find_site ((key, s) ∷ r) h =
      let rest = find_site r h in
      if not (same_dc_name key h.dc) || not (is_enabled s.enabled)
      then rest
      else if any_ip_in_subnets h.ips s.internal_subnets
      then some (key, s)
      else none

  unfoldable pub site_of : Document → Host → Option (String × Site)
  site_of doc h = if is_blank h.dc then none else find_site doc.dc_lookup_map h

  unfoldable pub chain_at : Document → Option (String × Site) → String × List String
  chain_at doc (some (name, s)) = (name, s.base_server ∷ s.backup_server)
  chain_at doc none = ("", doc.default_server ∷ [])

  -- the site, "" for none, and the server names in the order to try
  unfoldable pub chain : Document → Host → String × List String
  unfolding chain_at
  chain doc h = chain_at doc (site_of doc h)

  unfoldable pub is_whitelisted : Document → Host → Bool
  is_whitelisted doc h =
      let w = doc.host_integrity.whitelist in
      contains_fold w.hostnames h.hostname || contains_fold w.hwids h.hwid

  -- whether the update machinery may run, and the reason where it may not
  unfoldable pub updater_enabled : Document → ℕ → Bool × String
  updater_enabled doc now =
      let c = doc.control.updater in
      if c.enabled || expired c.until now then (true, "") else (false, or_else "" c.reason)

  unfoldable pub app_control : Document → ℕ → ControlApp
  app_control doc now =
      let c = doc.control.app in
      record c {
        enabled = c.enabled || expired c.until now;
        mode =
            if not (str_eq c.mode app_mode_normal) && expired c.until now
            then app_mode_normal
            else c.mode;
      }

-- BaseURL: "" for a name that is not listed.
unfoldable pub base_url : Document → String → String
base_url doc name = or_else "" (lookup name doc.servers)
