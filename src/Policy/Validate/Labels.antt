-- ===== src/Policy/Validate/Labels.antt =====
-- internal/policy/parse.go, `validateDocument`: the names of the domain controllers, and match.go,
-- `Site`, for a valid document.
use emly_updater.Base.{
  ◌≡◌, refl, sym, ◌∙◌, ◌↔◌, String, Bool, false, some, List, [], ◌∷◌, Dict, In, here, there,
  append-eq-nil, contains, is_blank, str_eq, eq_iff, or-false, arith,
}
use emly_updater.Manifest.{VersionLib}
use emly_updater.Policy.Document.{Document, Site, Host}
use emly_updater.Policy.Matching.{Std, host_label, same_dc_name, site_of}
use emly_updater.Policy.Matching.Sites.{IsAt, IsSingle, site_of_iff}
use emly_updater.Policy.Validate.{label_problems, site_label, validate_sites}
use emly_updater.Policy.Validate.Whole.{problems_of}
use emly_updater.Policy.Validate.Refs.{problems_of-nil}

clash : (a b : String) (seen : List String) → a ≡ b → contains (a ∷ seen) b ≡ false → ⊥
clash a b seen same fresh = ground (arith, eq_iff a b)

module _ {Ip Net V : Type 0} (std : Std Ip Net) (lib : VersionLib V) where
  -- The labels of two keys that strings.EqualFold takes for the same have one lower-case form.
  abbrev pub HasAlikeLetters : Dict Site → Type 0
  HasAlikeLetters m =
      (e e' : String × Site)
      → In e m
      → In e' m
      → std.fold (host_label e.0) ≡ std.fold (host_label e'.0)
      → site_label std lib e.0 ≡ site_label std lib e'.0

  label_new :
      (seen : List String) (label path : String)
      → label_problems std lib seen label path ≡ []
      → contains seen label ≡ false
  unfolding label_problems
  label_new seen label path h = ground arith

  label_fresh :
      (d : Dict String) (seen : List String) (m : Dict Site) {e : String × Site}
      → validate_sites std lib d seen m ≡ []
      → In e m
      → contains seen (site_label std lib e.0) ≡ false
  unfolding validate_sites
  label_fresh d seen [] h m = elim m [ ]
  label_fresh d seen ((name, site) ∷ r) h here =
      label_new seen (site_label std lib name) _ (append-eq-nil _ _ h).0
  label_fresh d seen ((name, site) ∷ r) {e = e} h (there m) =
      let ih =
        label_fresh d (site_label std lib name ∷ seen) r
          (append-eq-nil _ _ (append-eq-nil _ _ h).1).1 m in
      (or-false (str_eq (site_label std lib name) (site_label std lib e.0))
        (contains seen (site_label std lib e.0)) ih).1

  labels_distinct :
      (d : Dict String) (seen : List String) (m : Dict Site) {e e' : String × Site}
      → validate_sites std lib d seen m ≡ []
      → In e m
      → In e' m
      → site_label std lib e.0 ≡ site_label std lib e'.0
      → e ≡ e'
  unfolding validate_sites
  labels_distinct d seen [] h i j same = elim i [ ]
  labels_distinct d seen ((name, site) ∷ r) h here here same = refl
  labels_distinct d seen ((name, site) ∷ r) {e' = e'} h here (there j) same =
      let fresh =
        label_fresh d (site_label std lib name ∷ seen) r
          (append-eq-nil _ _ (append-eq-nil _ _ h).1).1 j in
      absurd (clash (site_label std lib name) (site_label std lib e'.0) seen same fresh)
  labels_distinct d seen ((name, site) ∷ r) {e = e} h (there i) here same =
      let fresh =
        label_fresh d (site_label std lib name ∷ seen) r
          (append-eq-nil _ _ (append-eq-nil _ _ h).1).1 i in
      absurd (clash (site_label std lib name) (site_label std lib e.0) seen (sym same) fresh)
  labels_distinct d seen ((name, site) ∷ r) h (there i) (there j) same =
      labels_distinct d (site_label std lib name ∷ seen) r
        (append-eq-nil _ _ (append-eq-nil _ _ h).1).1 i j same

  valid-IsSingle :
      (d : Document) (remote : Bool) (h : Host)
      → problems_of std lib d remote ≡ []
      → HasAlikeLetters d.dc_lookup_map
      → IsSingle std d.dc_lookup_map h
  unfolding same_dc_name
  valid-IsSingle d remote h valid alike e e' i j c c' =
      labels_distinct d.servers [] d.dc_lookup_map (problems_of-nil std lib d remote valid).sites i
        j
        (alike e e' i j (
          (eq_iff (std.fold (host_label e.0)) (std.fold (host_label h.dc))).0 c.0
          ∙ sym ((eq_iff (std.fold (host_label e'.0)) (std.fold (host_label h.dc))).0 c'.0)))

  -- Under a document in which validation finds no problem, the host is at a site exactly if the
  -- site is an enabled one of its domain controller and one of its addresses is in the site's
  -- subnets: the order in which the map is read does not matter. The labels that fold alike are to be
  -- lowered alike.
  pub valid_site_iff :
      (d : Document) (remote : Bool) (h : Host) (e : String × Site)
      → problems_of std lib d remote ≡ []
      → HasAlikeLetters d.dc_lookup_map
      → (site_of std d h ≡ some e) ↔ ((is_blank h.dc ≡ false) × In e d.dc_lookup_map × IsAt std h e)
  valid_site_iff d remote h e valid alike =
      site_of_iff std d h e (valid-IsSingle d remote h valid alike)
