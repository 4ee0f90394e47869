-- ===== src/Service/RemoteConfig/Candidates.antt =====
-- internal/service/remoteconfig.go, configCandidates: the servers that are asked for the document.
use emly_updater.Base.{
  ◌≡◌, refl, sym, ◌∙◌, all, inl, inr, String, Bool, true, false, not, ◌&&◌, ◌||◌, List, [], ◌∷◌,
  ◌++◌, In, here, there, In-append_right, is_blank, str_eq, contains, trim_slashes, arith,
  Bool-cases, eq_iff, or-false,
}
use emly_updater.Manifest.{VersionLib}
use emly_updater.Policy.Document.{Host}
use emly_updater.Policy.Matching.{Std}
use emly_updater.Policy.Parse.{Json}
use emly_updater.Policy.Snapshot.{Snapshot}
use emly_updater.Service.RemoteConfig.{
  Candidate, Settings, add, add_all, config_candidates, policy_servers, endpoints_of,
}

-- the bases of the candidates
abbrev pub bases : List Candidate → List String
bases [] = []
bases (c ∷ cs) = c.base ∷ bases cs

-- no address stands twice, and none is empty
abbrev pub once_each : List String → Bool
once_each [] = true
once_each (b ∷ bs) = not (is_blank b) && not (contains bs b) && once_each bs

-- The bases found are those in `seen`, latest first.
Agrees : List Candidate → List String → Type 0
Agrees out seen =
    (once_each (bases out) ≡ true) × ((b : String) → contains seen b ≡ contains (bases out) b)

bases-append :
    (cs : List Candidate) (c : Candidate) (b : String)
    → contains (bases (cs ++ c ∷ [])) b ≡ (contains (bases cs) b || str_eq c.base b)
bases-append [] c b = ground arith
bases-append (d ∷ cs) c b = ground (arith, bases-append cs c b)

once_each-append :
    (cs : List Candidate) (c : Candidate)
    → once_each (bases cs) ≡ true
    → is_blank c.base ≡ false
    → contains (bases cs) c.base ≡ false
    → once_each (bases (cs ++ c ∷ [])) ≡ true
once_each-append [] c d given fresh = ground arith
once_each-append (x ∷ cs) c d given fresh = ground (
  arith,
  bases-append cs c x.base,
  eq_iff c.base x.base,
  eq_iff x.base c.base,
  once_each-append cs c (ground arith) given (ground arith),
)

add-Agrees :
    (out : List Candidate) (seen : List String) (p : String × String)
    → Agrees out seen
    → Agrees (add out seen p).0 (add out seen p).1
unfolding add Agrees
add-Agrees out seen (name, base) (d, same) =
    elim (Bool-cases (is_blank (trim_slashes base) || contains seen (trim_slashes base))) [
      | inl e ↦ rw e (d, same)
      | inr e ↦
          let (given, fresh) = or-false _ _ e in
          rw e (
            once_each-append out (record { name = name; base = trim_slashes base }) d given
                (ground (arith, same (trim_slashes base))),
            λ b. ground (
              arith,
              same b,
              bases-append out (record { name = name; base = trim_slashes base }) b,
            ),
          )
    ]

add_all-Agrees :
    (out : List Candidate) (seen : List String) (ps : List (String × String))
    → Agrees out seen
    → Agrees (add_all out seen ps).0 (add_all out seen ps).1
unfolding add_all
add_all-Agrees out seen [] a = a
add_all-Agrees out seen (p ∷ ps) a =
    add_all-Agrees (add out seen p).0 (add out seen p).1 ps (add-Agrees out seen p a)

add_keeps :
    (out : List Candidate) (seen : List String) (p : String × String) (b : String)
    → contains seen b ≡ true
    → contains (add out seen p).1 b ≡ true
unfolding add
add_keeps out seen (name, base) b h =
    elim (Bool-cases (is_blank (trim_slashes base) || contains seen (trim_slashes base))) [
      | inl e ↦ rw (add, e) h
      | inr e ↦ rw (add, e) (ground arith)
    ]

add_has :
    (out : List Candidate) (seen : List String) (p : String × String)
    → is_blank (trim_slashes p.1) ≡ false
    → contains (add out seen p).1 (trim_slashes p.1) ≡ true
unfolding add
add_has out seen (name, base) given = ground (arith, eq_iff (trim_slashes base) (trim_slashes base))

grows :
    (out : List Candidate) (seen : List String) (ps : List (String × String)) (b : String)
    → contains seen b ≡ true
    → contains (add_all out seen ps).1 b ≡ true
unfolding add_all
grows out seen [] b h = h
grows out seen (p ∷ ps) b h =
    grows (add out seen p).0 (add out seen p).1 ps b (add_keeps out seen p b h)

listed :
    (out : List Candidate) (seen : List String) (ps : List (String × String)) {p : String × String}
    → In p ps
    → is_blank (trim_slashes p.1) ≡ false
    → contains (add_all out seen ps).1 (trim_slashes p.1) ≡ true
unfolding add_all
listed out seen [] m given = elim m [ ]
listed out seen (p ∷ ps) here given =
    grows (add out seen p).0 (add out seen p).1 ps (trim_slashes p.1) (add_has out seen p given)
listed out seen (p ∷ ps) (there m) given = listed (add out seen p).0 (add out seen p).1 ps m given

endpoint : (es : List String) {e : String} → In e es → In (e, e) (endpoints_of es)
unfolding endpoints_of
endpoint [] m = elim m [ ]
endpoint (e ∷ es) here = here
endpoint (e ∷ es) (there m) = there (endpoint es m)

all_listed :
    (found es : List String)
    → ((e : String)
        → In e es
        → is_blank (trim_slashes e) ≡ false
        → contains found (trim_slashes e) ≡ true)
    → all (λ e. is_blank (trim_slashes e) || contains found (trim_slashes e)) es ≡ true
all_listed found [] h = refl
all_listed found (e ∷ es) h = ground (arith, h e here, all_listed found es (λ d m. h d (there m)))

-- No server is asked twice in one refresh, none has an empty address, and every endpoint of the
-- configuration is among them (the trailing slashes left out).
pub config_candidates-distinct :
    {Ip Net V : Type 0} (std : Std Ip Net) (lib : VersionLib V) (json : Json) (cfg : Settings)
    (snap : Snapshot) (host : Host)
    → (once_each (bases (config_candidates std lib json cfg snap host)) ≡ true)
      × (all
            (λ e.
              is_blank (trim_slashes e)
              || contains (bases (config_candidates std lib json cfg snap host)) (trim_slashes e))
            cfg.endpoints
          ≡ true)
unfolding config_candidates Agrees
config_candidates-distinct std lib json cfg snap host =
    let ps = policy_servers std lib json snap host ++ endpoints_of cfg.endpoints in
    let (d, same) = add_all-Agrees [] [] ps (refl, λ b. refl) in
    (
      d,
      all_listed (bases (add_all [] [] ps).0) cfg.endpoints (λ e m given.
          sym (same (trim_slashes e))
          ∙ listed [] [] ps
              (In-append_right (policy_servers std lib json snap host) (endpoint cfg.endpoints m))
              given),
    )
