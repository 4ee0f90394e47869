-- ===== src/Policy/Parse/Safety.antt =====
-- internal/policy/parse.go `Parse` and match.go `Effective`: validity, from the document that is parsed
-- to the one that a host runs on.
use emly_updater.Base.{
  ℕ, ◌≡◌, refl, inl, inr, String, Bool, true, false, not, ◌||◌, Option, none, some, List, [], ◌∷◌,
  ◌++◌, Result, ok, err, All, is_empty, is_blank, append-eq-nil, arith, if◌then◌else◌, Bool-cases,
  Option-cases, lt_ℤ, pos, ◌∙◌, subst,
}
use emly_updater.Manifest.{VersionLib}
use emly_updater.Policy.Document.{Document, Override, Host}
use emly_updater.Policy.Json.{Value, null, bool, num, real, str, arr, obj, Fields, get}
use emly_updater.Policy.Matching.{Std, chain}
use emly_updater.Policy.Parse.{Json}
use emly_updater.Policy.Parse.Whole.{
  Parsed, parse, effective, parse_fields, with_global, with_overrides, checked, dry_run_overrides,
  is_schema, applied_overrides,
}
use emly_updater.Policy.Validate.{Problem, validate_remote}
use emly_updater.Policy.Validate.Whole.{
  problems_of, validate_document, clamp_refresh, sections, topology,
}
use emly_updater.Policy.Validate.Refs.{Resolves, chain_resolves}

-- a document that came from the server
abbrev pub is_remote : Document → Bool
is_remote d = lt_ℤ (pos 0) d.revision || not (is_blank d.generated_at)

module _ {Ip Net V : Type 0} (std : Std Ip Net) (lib : VersionLib V) (json : Json) where
  -- Neither the clamp of the interval nor the list of overrides is looked at by validation.
  problems_of-clamp :
      (d : Document) (remote : Bool) (os : List Override)
      → problems_of std lib (record (clamp_refresh d) { overrides = os }) remote
        ≡ problems_of std lib d remote
  unfolding problems_of sections topology clamp_refresh
  problems_of-clamp d remote os = refl

  -- a check that was passed
  passed :
      {E A : Type 0} (b : Bool) (e : E) (r : Result E A) (a : A)
      → (if not b then err e else r) ≡ ok a
      → (b ≡ true) × (r ≡ ok a)
  passed true e r a h = (refl, h)
  passed false e r a h = cc

  empty-nil : {A : Type 0} (xs : List A) → is_empty xs ≡ true → xs ≡ []
  empty-nil [] h = refl
  empty-nil (x ∷ xs) h = cc

  with_global-ok :
      (defaults raw : Fields) (b : Result (List Problem) Document)
      (found : List Override × List Problem) (p : Parsed)
      → with_global std lib json defaults raw b found ≡ ok p
      → problems_of std lib p.global true ≡ []
  unfolding with_global with_overrides validate_document
  with_global-ok defaults raw (err ps) (os, found) p h = cc
  with_global-ok defaults raw (ok d) (os, found) p h =
      let ps = problems_of std lib d true in
      let one = passed (is_empty (ps ++ found)) (ps ++ found) _ p h in
      let dry = dry_run_overrides std lib json defaults raw os in
      let two = passed (is_empty dry) dry _ p one.1 in
      let same : ◌≡◌ {A = Result (List Problem) Parsed}
          (ok (record {
            global = record (clamp_refresh d) { overrides = os };
            raw = raw;
            defaults = defaults;
          }))
          (ok p) =
        two.1 in
      let global : record (clamp_refresh d) { overrides = os } ≡ p.global = cc in
      subst (λ (g : Document). problems_of std lib g true ≡ []) global
        (problems_of-clamp d true os ∙ (append-eq-nil ps found (empty-nil (ps ++ found) one.0)).0)

  fields-ok :
      (defaults fs : Fields) (p : Parsed)
      → parse_fields std lib json defaults fs ≡ ok p
      → problems_of std lib p.global true ≡ []
  unfolding parse_fields
  fields-ok defaults fs p h = elim (Option-cases (get "schemaVersion" fs)) [
    | inl e ↦ absurd (ground arith)
    | inr (sv, e) ↦
        with_global-ok defaults _ _ _ p (passed (is_schema sv) _ _ p (rw (e, parse_fields) at h)).1
  ]

  -- The global document of what `Parse` accepts has no problem.
  pub parse-ok :
      (size : ℕ) (value : Option Value) (defaults : Fields) (p : Parsed)
      → parse std lib json size value defaults ≡ ok p
      → problems_of std lib p.global true ≡ []
  unfolding parse
  parse-ok size (some (obj fs)) defaults p h = fields-ok defaults fs p (ground arith)
  parse-ok size none defaults p h = absurd (ground arith)
  parse-ok size (some null) defaults p h = absurd (ground arith)
  parse-ok size (some (bool _)) defaults p h = absurd (ground arith)
  parse-ok size (some (num _)) defaults p h = absurd (ground arith)
  parse-ok size (some (real _)) defaults p h = absurd (ground arith)
  parse-ok size (some (str _)) defaults p h = absurd (ground arith)
  parse-ok size (some (arr _)) defaults p h = absurd (ground arith)

  checked-valid :
      (p : Parsed) (ids : List String) (remote : Bool) (b : Result (List Problem) Document)
      → problems_of std lib p.global remote ≡ []
      → problems_of std lib (checked std lib json p ids remote b).doc remote ≡ []
  unfolding checked validate_document
  checked-valid p ids remote (err _) h = h
  checked-valid p ids remote (ok d) h =
      elim (Bool-cases (is_empty (problems_of std lib d remote))) [
        | inl e ↦ rw e (
            problems_of-clamp d remote p.global.overrides
            ∙ empty-nil (problems_of std lib d remote) e)
        | inr e ↦ rw e h
      ]

  local-valid :
      (d : Document) (remote : Bool)
      → problems_of std lib d true ≡ []
      → problems_of std lib d remote ≡ []
  unfolding problems_of sections
  local-valid d true h = h
  local-valid d false h = (append-eq-nil (validate_remote std lib d.revision d.generated_at) _ h).1

  -- What `Parse` accepts never becomes an invalid policy on any host: whichever overrides apply,
  -- validation finds no problem in the effective document, and every server of its chain is a
  -- listed one whose address the updater accepts.
  pub effective_valid :
      (size : ℕ) (value : Option Value) (defaults : Fields) (p : Parsed) (h : Host)
      → parse std lib json size value defaults ≡ ok p
      → (problems_of std lib (effective std lib json p h).doc (is_remote p.global) ≡ [])
        × All
            (Resolves std lib (effective std lib json p h).doc)
            (chain std (effective std lib json p h).doc h).1
  unfolding effective
  effective_valid size value defaults p h accepted =
      let global =
        local-valid p.global (is_remote p.global) (parse-ok size value defaults p accepted) in
      let valid : problems_of std lib (effective std lib json p h).doc (is_remote p.global) ≡ [] =
        elim (Bool-cases (is_empty (applied_overrides std lib json p.global.overrides h))) [
          | inl e ↦ rw e global
          | inr e ↦ rw e (checked-valid p _ (is_remote p.global) _ global)
        ] in
      (valid, chain_resolves std lib _ (is_remote p.global) h valid)
