-- ===== src/Policy/Matching/Sites.antt =====
-- internal/policy/match.go, `Site`: the search for the site of a host.
use emly_updater.Base.{
  ◌≡◌, ◌↔◌, inl, inr, String, true, false, not, ◌||◌, some, [], ◌∷◌, Dict, In, here, there,
  is_blank, arith, Bool-cases, ap, subst,
}
use emly_updater.Policy.Document.{Host, Site, Document, is_enabled}
use emly_updater.Policy.Matching.{Std, same_dc_name, any_ip_in_subnets, find_site, site_of}

module _ {Ip Net : Type 0} (std : Std Ip Net) where
  -- The entry is an enabled one of the host's domain controller.
  abbrev pub IsCandidate : Host → String × Site → Type 0
  IsCandidate h e = (same_dc_name std e.0 h.dc ≡ true) × (is_enabled e.1.enabled ≡ true)

  -- ... and the host is on its network.
  abbrev pub IsAt : Host → String × Site → Type 0
  IsAt h e = IsCandidate h e × (any_ip_in_subnets std h.ips e.1.internal_subnets ≡ true)

  -- No two entries of the map are candidates.
  abbrev pub IsSingle : Dict Site → Host → Type 0
  IsSingle m h =
      (e e' : String × Site) → In e m → In e' m → IsCandidate h e → IsCandidate h e' → e ≡ e'

  pub find_site_sound :
      (m : Dict Site) (h : Host) (e : String × Site)
      → find_site std m h ≡ some e
      → In e m × IsAt h e
  unfolding find_site
  find_site_sound [] h e p = cc
  find_site_sound ((key, s) ∷ r) h e p =
      elim (Bool-cases (not (same_dc_name std key h.dc) || not (is_enabled s.enabled))) [
        | inl skip ↦ let (m, at) = find_site_sound r h e (rw skip at p) in (there m, at)
        | inr stay ↦
            let same : ◌≡◌ {A = String × Site} (key, s) e = ground arith in
            subst (λ x. In x ((key, s) ∷ r) × IsAt h x) same
              (here, ((ground arith, ground arith), ground arith))
      ]

  In-later :
      (h : Host) {key : String} {s : Site} {r : Dict Site} {e : String × Site}
      → In e ((key, s) ∷ r)
      → IsCandidate h e
      → (not (same_dc_name std key h.dc) || not (is_enabled s.enabled)) ≡ true
      → In e r
  In-later h here c skip = absurd (ground arith)
  In-later h (there i) c skip = i

  find_site_complete :
      (m : Dict Site) (h : Host) (e : String × Site)
      → IsSingle m h
      → In e m
      → IsAt h e
      → find_site std m h ≡ some e
  unfolding find_site
  find_site_complete [] h e one m at = elim m [ ]
  find_site_complete ((key, s) ∷ r) h e one m at =
      elim (Bool-cases (not (same_dc_name std key h.dc) || not (is_enabled s.enabled))) [
        | inl skip ↦ rw skip (
            find_site_complete r h e (λ a b i j. one a b (there i) (there j))
              (In-later h m at.0 skip) at)
        | inr stay ↦
            let same : ◌≡◌ {A = String × Site} (key, s) e =
              one (key, s) e here m (ground arith, ground arith) at.0 in
            let found : any_ip_in_subnets std h.ips s.internal_subnets ≡ true =
              rw (← same) at at.1 in
            rw (stay, found) (ap some same)
      ]

  -- Where at most one enabled entry is of the host's domain controller, the host is at a site
  -- exactly if one of its addresses is in that entry's subnets, in whatever order the map is read.
  pub site_of_iff :
      (doc : Document) (h : Host) (e : String × Site)
      → IsSingle doc.dc_lookup_map h
      → (site_of std doc h ≡ some e) ↔ ((is_blank h.dc ≡ false) × In e doc.dc_lookup_map × IsAt h e)
  unfolding site_of
  site_of_iff doc h e one = elim (Bool-cases (is_blank h.dc)) [
    | inl b ↦ (λ p. cc (p, b), λ p. cc (p.0, b))
    | inr b ↦ (
      λ p. let (m, at) = find_site_sound doc.dc_lookup_map h e (rw b at p) in (b, m, at),
      λ p. rw b (find_site_complete doc.dc_lookup_map h e one p.1 p.2),
    )
  ]
