-- ===== src/Policy/Validate/Refs.antt =====
-- internal/policy/parse.go, `validateDocument`: the references to servers, and match.go, `Chain`.
use emly_updater.Base.{
  ℕ, ◌+◌, ◌≡◌, String, Bool, none, some, List, [], ◌∷◌, Dict, lookup, lookup-In, In, here, there,
  All, append-eq-nil, concat-eq-nil, arith, Option-cases, inl, inr,
}
use emly_updater.Manifest.{VersionLib}
use emly_updater.Policy.Document.{Document, Site, Host}
use emly_updater.Policy.Matching.{Std, chain, site_of, chain_at, find_site}
use emly_updater.Policy.Matching.Sites.{find_site_sound}
use emly_updater.Policy.Validate.{
  Problem, each, valid_server_url, validate_server, server_ref, validate_sites, validate_site,
  site_label,
}
use emly_updater.Policy.Validate.Whole.{problems_of, sections, topology}

each-nil {ℓ} :
    {A : Type ℓ} (f : ℕ → A → List Problem) (i : ℕ) (xs : List A) {x : A}
    → each f i xs ≡ []
    → In x xs
    → (j : ℕ) × (f j x ≡ [])
unfolding each
each-nil f i (x ∷ xs) h here = (i, (append-eq-nil (f i x) (each f (i + 1) xs) h).0)
each-nil f i (y ∷ xs) h (there m) =
    each-nil f (i + 1) xs (append-eq-nil (f i y) (each f (i + 1) xs) h).1 m
each-nil f i [] h m = elim m [ ]

module _ {Ip Net V : Type 0} (std : Std Ip Net) (lib : VersionLib V) where
  -- The name is listed, with an address that the updater accepts.
  abbrev pub Resolves : Document → String → Type 0
  Resolves d name =
      (url : String) × (lookup name d.servers ≡ some url) × (valid_server_url std lib url ≡ none)

  server_ref-nil :
      (d : Document) (path name : String)
      → server_ref std lib d.servers path name ≡ []
      → (url : String) × (lookup name d.servers ≡ some url)
  unfolding server_ref
  server_ref-nil d path name h = elim (Option-cases (lookup name d.servers)) [
    | inl e ↦ absurd (ground arith)
    | inr found ↦ found
  ]

  validate_server-nil :
      (i : ℕ) (name url : String)
      → validate_server std lib i (name, url) ≡ []
      → valid_server_url std lib url ≡ none
  unfolding validate_server
  validate_server-nil i name url h = elim (Option-cases (valid_server_url std lib url)) [
    | inl e ↦ e
    | inr (m, e) ↦ absurd (ground arith)
  ]

  -- The parts of a valid document that concern its servers.
  pub record IsSound (d : Document) : Type 0 where
    pub servers : each (validate_server std lib) 0 d.servers ≡ []
    pub default : server_ref std lib d.servers "/defaultServer" d.default_server ≡ []
    pub sites : validate_sites std lib d.servers [] d.dc_lookup_map ≡ []

  pub problems_of-nil :
      (d : Document) (remote : Bool) → problems_of std lib d remote ≡ [] → IsSound d
  unfolding problems_of sections topology
  problems_of-nil d remote h =
      let parts = concat-eq-nil (sections std lib d remote) h in
      let topo = concat-eq-nil (topology std lib d) parts.1.1.0 in
      record { servers = topo.1.0; default = topo.1.1.0; sites = topo.1.1.1.1.0 }

  site_refs :
      (d : Document) (seen : List String) (m : Dict Site) {e : String × Site}
      → validate_sites std lib d.servers seen m ≡ []
      → In e m
      → validate_site std lib d.servers e ≡ []
  unfolding validate_sites
  site_refs d seen [] h m = elim m [ ]
  site_refs d seen ((name, site) ∷ r) h here = (append-eq-nil _ _ (append-eq-nil _ _ h).1).0
  site_refs d seen ((name, site) ∷ r) h (there m) =
      site_refs d (site_label std lib name ∷ seen) r (append-eq-nil _ _ (append-eq-nil _ _ h).1).1 m

  resolved :
      (d : Document) (path name : String)
      → IsSound d
      → server_ref std lib d.servers path name ≡ []
      → Resolves d name
  resolved d path name s h =
      let (url, l) = server_ref-nil d path name h in
      let (i, v) =
        each-nil (validate_server std lib) 0 d.servers s.servers (lookup-In name d.servers l) in
      (url, l, validate_server-nil i name url v)

  every_server :
      (d : Document) (f : ℕ → String) (i : ℕ) (names : List String)
      → IsSound d
      → each (λ j b. server_ref std lib d.servers (f j) b) i names ≡ []
      → All (Resolves d) names
  unfolding each
  every_server d f i [] s h = tt
  every_server d f i (n ∷ names) s h =
      let (this, rest) = append-eq-nil _ _ h in
      (resolved d (f i) n s this, every_server d f (i + 1) names s rest)

  site_resolved :
      (d : Document) (name : String) (site : Site)
      → IsSound d
      → validate_site std lib d.servers (name, site) ≡ []
      → All (Resolves d) (site.base_server ∷ site.backup_server)
  unfolding validate_site
  site_resolved d name site s h =
      let cidrs = append-eq-nil _ _ h in
      let servers = append-eq-nil _ _ cidrs.1 in
      let (base, backups) = append-eq-nil _ _ servers.1 in
      (resolved d _ site.base_server s base, every_server d _ 0 site.backup_server s backups)

  at_site :
      (d : Document) (h : Host) {e : String × Site}
      → site_of std d h ≡ some e
      → find_site std d.dc_lookup_map h ≡ some e
  unfolding site_of
  at_site d h p = ground arith

  -- Under a document in which validation finds no problem, whatever the host, every server of the
  -- chain is a listed one whose address the updater accepts.
  pub chain_resolves :
      (d : Document) (remote : Bool) (h : Host)
      → problems_of std lib d remote ≡ []
      → All (Resolves d) (chain std d h).1
  unfolding chain
  chain_resolves d remote h valid =
      let s = problems_of-nil d remote valid in
      elim (Option-cases (site_of std d h)) [
        | inl e ↦ rw (e, chain_at) (resolved d _ d.default_server s s.default, tt)
        | inr ((name, site), e) ↦
            let (m, _) = find_site_sound std d.dc_lookup_map h (name, site) (at_site d h e) in
            rw (e, chain_at)
              (site_resolved d name site s (site_refs d [] d.dc_lookup_map s.sites m))
      ]
