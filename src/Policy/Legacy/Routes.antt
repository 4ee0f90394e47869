-- ===== src/Policy/Legacy/Routes.antt =====
-- internal/policy/legacy.go: a legacy policy sends no host to a server that it does not list.
use emly_updater.Base.{
  ◌≡◌, refl, ◌∙◌, String, Bool, true, false, ◌&&◌, ◌||◌, Option, none, some, List, [], ◌∷◌, In,
  here, there, Dict, lookup-insert, is_empty, is_blank, ok, all, all-append, str_eq, eq_iff, arith,
  if_intro, Bool-cases, inl, inr, if◌then◌else◌,
}
use emly_updater.Config.{Config}
use emly_updater.Config.Load.{Ini, load}
use emly_updater.Config.Bounds.{validate-given, load-IsLoaded}
use emly_updater.Policy.Document.{Document, Host, Site}
use emly_updater.Policy.Json.{Fields}
use emly_updater.Policy.Matching.{Std, chain, chain_at, site_of, find_site}
use emly_updater.Policy.Matching.Sites.{find_site_sound}
use emly_updater.Policy.Legacy.Addresses.{add_server-other}
use emly_updater.Policy.Legacy.{
  Defaults, Servers, added, add_server, servers_of, cut_suffix, manifest_path, from_legacy,
  legacy_document, has, default_server, backups_of, sites_for, sites_of, legacy_external,
  legacy_internal, legacy_internal_backup,
}

default_server-has :
    (cfg : Config) (servers : Dict String)
    → (has legacy_external servers || has legacy_internal servers) ≡ true
    → has (default_server cfg servers) servers ≡ true
unfolding default_server
default_server-has cfg servers h =
    let P = λ (n : String). has n servers ≡ true in
    if_intro P
      (has legacy_internal servers
        && is_empty cfg.dc_subnet_map
        && str_eq cfg.primary legacy_internal)
      (λ e. ground arith) λ _. if_intro P (has legacy_external servers) (λ e. e) (λ e. ground arith)

listed_alone :
    (n : String) (servers : Dict String)
    → all (λ (x : String). has x servers) (if has n servers then n ∷ [] else []) ≡ true
listed_alone n servers =
    if_intro (λ (r : List String). all (λ (x : String). has x servers) r ≡ true) (has n servers)
      (λ e. ground arith) (λ _. refl)

backups_of-has :
    (servers : Dict String) → all (λ (n : String). has n servers) (backups_of servers) ≡ true
unfolding backups_of
backups_of-has servers =
    all-append (λ (n : String). has n servers)
      (if has legacy_internal_backup servers then legacy_internal_backup ∷ [] else [])
      (if has legacy_external servers then legacy_external ∷ [] else [])
    ∙ rw (listed_alone legacy_internal_backup servers, listed_alone legacy_external servers) refl

sites_for-In :
    (backups : List String) (m : Dict (List String)) {name : String} {site : Site}
    → In (name, site) (sites_for backups m)
    → (site.base_server ≡ legacy_internal) × (site.backup_server ≡ backups)
unfolding sites_for
sites_for-In backups [] {name = name} {site = site} x = elim x [ ]
sites_for-In backups ((dc, subnets) ∷ m) here = (refl, refl)
sites_for-In backups ((dc, subnets) ∷ m) (there i) = sites_for-In backups m i

both : (b c : Bool) → b ≡ true → c ≡ true → (b && c) ≡ true
both b c h k = rw (h, k) refl

either : (b c : Bool) → b ≡ true → (b || c) ≡ true
either b c h = rw h refl

sites_of-In :
    (cfg : Config) (servers : Dict String) {name : String} {site : Site}
    → In (name, site) (sites_of cfg servers)
    → all (λ (n : String). has n servers) (site.base_server ∷ site.backup_server) ≡ true
unfolding sites_of
sites_of-In cfg servers {name} {site} i =
    if_intro
      (λ (d : Dict Site).
        In (name, site) d
        → all (λ (n : String). has n servers) (site.base_server ∷ site.backup_server) ≡ true)
      (has legacy_internal servers)
      (λ e k.
        let (base, backups) = sites_for-In (backups_of servers) cfg.dc_subnet_map k in
        rw (base, backups) (both (has legacy_internal servers) _ e (backups_of-has servers)))
      (λ e k. elim k [ ]) i

added-has :
    (name url : String) (o : Option String) (s : Servers)
    → has name (added name url o s).bases ≡ true
unfolding added
added-has name url none s = ground (arith, lookup-insert name name url s.bases, eq_iff name name)
added-has name url (some b) s = ground (arith, lookup-insert name name b s.bases, eq_iff name name)

add_server-has :
    (name url : String) (s : Servers)
    → is_blank url ≡ false
    → has name (add_server name url s).bases ≡ true
unfolding add_server
add_server-has name url s h =
    if_intro (λ (r : Servers). has name r.bases ≡ true) (is_blank url) (λ e. absurd (ground arith))
      (λ _. added-has name url (cut_suffix url manifest_path) s)

servers_of-has :
    (cfg : Config)
    → (is_blank cfg.external_manifest_url && is_blank cfg.internal_manifest_url) ≡ false
    → (has legacy_external (servers_of cfg).bases || has legacy_internal (servers_of cfg).bases)
      ≡ true
unfolding servers_of
servers_of-has cfg h =
    let s0 : Servers = record { bases = []; urls = [] } in
    let s1 = add_server legacy_external cfg.external_manifest_url s0 in
    let s2 = add_server legacy_internal cfg.internal_manifest_url s1 in
    let (_, _, kept1) =
      add_server-other legacy_internal_backup legacy_external cfg.backup_internal_manifest_url s2
        refl in
    let (_, _, kept2) =
      add_server-other legacy_internal legacy_external cfg.internal_manifest_url s1 refl in
    let (_, _, kept3) =
      add_server-other legacy_internal_backup legacy_internal cfg.backup_internal_manifest_url s2
        refl in
    elim (Bool-cases (is_blank cfg.external_manifest_url)) [
      | inl e ↦
          let i : is_blank cfg.internal_manifest_url ≡ false = ground arith in
          rw (kept3, add_server-has legacy_internal cfg.internal_manifest_url s1 i) (ground arith)
      | inr e ↦
          rw (kept1, kept2, add_server-has legacy_external cfg.external_manifest_url s0 e) refl
    ]

module _ {Ip Net : Type 0} (std : Std Ip Net) where
  chain_at-has :
      (cfg : Config) (d : Defaults) (h : Host) (o : Option (String × Site))
      → (is_blank cfg.external_manifest_url && is_blank cfg.internal_manifest_url) ≡ false
      → site_of std (legacy_document cfg d) h ≡ o
      → all
          (λ (n : String). has n (servers_of cfg).bases)
          (chain_at std (legacy_document cfg d) o).1
        ≡ true
  unfolding chain_at site_of legacy_document
  chain_at-has cfg d h none given e =
      ground (arith, default_server-has cfg (servers_of cfg).bases (servers_of-has cfg given))
  chain_at-has cfg d h (some (name, site)) given e =
      let servers = (servers_of cfg).bases in
      let found : find_site std (sites_of cfg servers) h ≡ some (name, site) = ground arith in
      sites_of-In cfg servers (find_site_sound std (sites_of cfg servers) h (name, site) found).0

  -- When config.ini gives an external or an internal address, the policy made from it sends a host, at
  -- whatever site, only to servers that it lists.
  pub from_legacy-listed :
      (encode : Document → Fields) (encode_defaults : Defaults → Fields) (cfg : Config)
      (d : Defaults) (h : Host)
      → (is_blank cfg.external_manifest_url && is_blank cfg.internal_manifest_url) ≡ false
      → all
          (λ (n : String). has n (from_legacy encode encode_defaults cfg d).0.global.servers)
          (chain std (from_legacy encode encode_defaults cfg d).0.global h).1
        ≡ true
  unfolding from_legacy chain legacy_document
  from_legacy-listed encode encode_defaults cfg d h given =
      chain_at-has cfg d h (site_of std (legacy_document cfg d) h) given refl

  -- Whatever config.ini says, if Load accepts it then the policy made from it sends a host, at whatever
  -- site, only to servers that it lists.
  pub load-listed :
      (print_net : Net → String) (version : String) (ini : Ini) (encode : Document → Fields)
      (encode_defaults : Defaults → Fields) (cfg : Config) (d : Defaults) (h : Host)
      → load std print_net version ini ≡ ok cfg
      → all
          (λ (n : String). has n (from_legacy encode encode_defaults cfg d).0.global.servers)
          (chain std (from_legacy encode encode_defaults cfg d).0.global h).1
        ≡ true
  load-listed print_net version ini encode encode_defaults cfg d h loaded =
      from_legacy-listed encode encode_defaults cfg d h
        (validate-given std cfg (load-IsLoaded std print_net version ini cfg loaded).valid)
