-- ===== src/Policy/Parse/Whole.antt =====
-- internal/policy/parse.go `Parse`, `dryRunOverrides`, and match.go `Effective`.
use emly_updater.Base.{
  ℕ, ◌+◌, ◌*◌, ℤ, pos, lt_ℤ, String, Bool, true, false, not, ◌&&◌, ◌||◌, Option, none, some, List,
  [], ◌∷◌, ◌++◌, map, Result, ok, err, is_empty, is_blank, ltb, length, ◌<>◌, if◌then◌else◌,
}
use emly_updater.Manifest.{VersionLib}
use emly_updater.Policy.Document.{Document, Override, Selector, Host}
use emly_updater.Policy.Json.{Value, null, num, obj, Fields, get, remove, merge_fields}
use emly_updater.Policy.Matching.{Std, expired, selects}
use emly_updater.Policy.Parse.{Json, problem, value_at, build}
use emly_updater.Policy.Parse.Overrides.{parse_overrides}
use emly_updater.Policy.Validate.{
  Problem, required, too_large, bad_json, null_document, bad_schema, index,
}
use emly_updater.Policy.Validate.Whole.{validate_document}

abbrev pub max_document_size : ℕ
max_document_size = 1024 * 1024

abbrev pub schema_version : ℤ
schema_version = pos 1

pub record Parsed : Type 0 where
  pub global : Document
  pub raw : Fields
  pub defaults : Fields

pub record Effective : Type 0 where
  pub doc : Document
  pub applied : List String
  -- the overrides that were set aside because they combine into an invalid document
  pub refused : Bool

-- the number is integral and is the schema of this build
unfoldable pub is_schema : Value → Bool
is_schema (num (pos n)) = not (ltb n 1) && not (ltb 1 n)
is_schema _ = false

abbrev pub prefixed : String → List Problem → List Problem
prefixed path = map (λ (p : Problem). record p { path = path <> p.path })

abbrev merge_all : Fields → List Override → Fields
merge_all raw [] = raw
merge_all raw (o ∷ os) = merge_all (merge_fields raw o.patch) os

module _ {Ip Net V : Type 0} (std : Std Ip Net) (lib : VersionLib V) (json : Json) where
  -- the problems of a document that was built
  built_problems : Result (List Problem) Document → List Problem
  built_problems (err ps) = ps
  built_problems (ok doc) = (validate_document std lib doc true).1

  -- each override on its own
  dry_run_each : Fields → Fields → ℕ → List Override → List Problem
  unfolding built_problems
  dry_run_each defaults raw i [] = []
  dry_run_each defaults raw i (o ∷ os) =
      prefixed (index std lib "/overrides" i <> "/patch")
        (built_problems (build json defaults (merge_fields raw o.patch)))
      ++ dry_run_each defaults raw (i + 1) os

  unfoldable pub dry_run_overrides : Fields → Fields → List Override → List Problem
  unfolding dry_run_each
  dry_run_overrides defaults raw overrides =
      let single = dry_run_each defaults raw 0 overrides in
      if ltb 1 (length overrides) && is_empty single
      then single
        ++ prefixed "/overrides" (built_problems (build json defaults (merge_all raw overrides)))
      else single

  -- `found` are the problems of the overrides themselves.
  unfoldable pub with_overrides :
      Fields
      → Fields
      → Document × List Problem
      → List Override × List Problem
      → Result (List Problem) Parsed
  with_overrides defaults raw (doc, ps) (os, found) =
      if not (is_empty (ps ++ found))
      then err (ps ++ found)
      else (let dry = dry_run_overrides defaults raw os in
          if not (is_empty dry)
          then err dry
          else ok
              (record { global = record doc { overrides = os }; raw = raw; defaults = defaults }))

  unfoldable pub with_global :
      Fields
      → Fields
      → Result (List Problem) Document
      → List Override × List Problem
      → Result (List Problem) Parsed
  unfolding with_overrides
  with_global defaults raw (err ps) (os, found) = err (ps ++ found)
  with_global defaults raw (ok doc) found =
      with_overrides defaults raw (validate_document std lib doc true) found

  unfoldable pub parse_fields : Fields → Fields → Result (List Problem) Parsed
  unfolding with_global is_schema
  parse_fields defaults fs = elim (get "schemaVersion" fs) [
    | none ↦ err (problem "/schemaVersion" required)
    | some sv ↦
        if not (is_schema sv)
        then err (problem "/schemaVersion" bad_schema)
        else (let raw = remove "overrides" fs in
            with_global defaults raw (build json defaults raw)
              (parse_overrides std lib json (value_at "overrides" fs)))
  ]

  -- `Parse` of bytes, from their number and what json.Unmarshal makes of them; `none` is an error.
  unfoldable pub parse : ℕ → Option Value → Fields → Result (List Problem) Parsed
  unfolding parse_fields
  parse size value defaults =
      if ltb max_document_size size then err (problem "/" too_large) else elim value [
        | some (obj fs) ↦ parse_fields defaults fs
        | some null ↦ err (problem "/" null_document)
        | _ ↦ err (problem "/" bad_json)
      ]

  excepts : Option Selector → Host → Bool
  excepts none h = false
  excepts (some s) h = selects std s h

  -- whether an override applies to the host
  unfoldable pub applies : Override → Host → Bool
  unfolding excepts
  applies o h =
      not (expired std o.until h.now) && selects std o.matching h && not (excepts o.except h)

  unfoldable pub applied_overrides : List Override → Host → List Override
  applied_overrides [] h = []
  applied_overrides (o ∷ os) h =
      let rest = applied_overrides os h in if applies o h then o ∷ rest else rest

  unfoldable pub checked : Parsed → List String → Bool → Result (List Problem) Document → Effective
  checked p ids remote (err _) = record { doc = p.global; applied = []; refused = true }
  checked p ids remote (ok built) =
      let (doc, ps) = validate_document std lib built remote in
      if is_empty ps
      then record {
        doc = record doc { overrides = p.global.overrides };
        applied = ids;
        refused = false;
      }
      else record { doc = p.global; applied = []; refused = true }

  unfoldable pub effective : Parsed → Host → Effective
  unfolding checked
  effective p h =
      let os = applied_overrides p.global.overrides h in
      let remote = lt_ℤ (pos 0) p.global.revision || not (is_blank p.global.generated_at) in
      if is_empty os
      then record { doc = p.global; applied = []; refused = false }
      else checked p (map (λ (o : Override). o.id) os) remote
          (build json p.defaults (merge_all p.raw os))
