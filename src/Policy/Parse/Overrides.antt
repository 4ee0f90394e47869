-- ===== src/Policy/Parse/Overrides.antt =====
-- internal/policy/parse.go: `parseOverrides` and `validateSelector`.
use emly_updater.Base.{
  ℕ, ◌+◌, String, Bool, true, false, not, ◌&&◌, Option, none, some, List, [], ◌∷◌, ◌++◌, is_some,
  is_empty, is_blank, contains, ltb, ◌<>◌, or_else, if◌then◌else◌,
}
use emly_updater.Manifest.{VersionLib}
use emly_updater.Policy.Document.{Override, Selector, patchable_sections}
use emly_updater.Policy.Json.{
  Value, null, bool, arr, obj, Items, nil, cons, Fields, end, field, get, is_null,
}
use emly_updater.Policy.Matching.{Std}
use emly_updater.Policy.Parse.{Json, problem}
use emly_updater.Policy.Validate.{
  Problem, unless, each, report, required, undecodable, not_a_list, not_an_object, duplicate_id,
  not_allowed, must_be_true, only_key, needs_a_list, not_patchable, valid_cidr, timestamp, index,
}

-- the fields whose value is no null
unfoldable pub present : Fields → Fields
present end = end
present (field k v fs) = if is_null v then present fs else field k v (present fs)

unfoldable pub size : Fields → ℕ
size end = 0
size (field k v fs) = size fs + 1

is_true : Value → Bool
is_true (bool b) = b
is_true _ = false

-- a JSON object has this key
unfoldable pub has : String → Fields → Bool
has k fs = is_some (get k fs)

module _ {Ip Net V : Type 0} (std : Std Ip Net) (lib : VersionLib V) where
  lists_problem : Selector → String → List Problem
  lists_problem s path =
      unless
        (not (
          is_empty s.hwids
          && is_empty s.hostnames
          && is_empty s.dcs
          && is_empty s.domains
          && is_empty s.subnets))
        path needs_a_list

  all_problem : Value → Fields → String → Bool → List Problem
  unfolding is_true
  all_problem v fs path allow_all =
      if not allow_all
      then problem (path <> "/all") not_allowed
      else if not (is_true v)
      then problem (path <> "/all") must_be_true
      else if ltb 1 (size fs)
      then problem (path <> "/all") only_key
      else []

  selector_lists : Selector → String → List Problem
  unfolding lists_problem
  selector_lists s path =
      lists_problem s path
      ++ each (λ i c. report std lib (index std lib (path <> "/subnets") i) (valid_cidr std lib c))
          0 s.subnets

  -- `all` where it is present: its problems, or none at all if it may stand
  selector_fields : Selector → Fields → String → Bool → List Problem
  unfolding all_problem selector_lists
  selector_fields s fs path allow_all = elim (get "all" fs) [
    | none ↦ selector_lists s path
    | some v ↦ all_problem v fs path allow_all
  ]

  unfoldable pub validate_selector : Selector → Value → String → Bool → List Problem
  unfolding selector_fields
  validate_selector s (obj fs) path allow_all = selector_fields s (present fs) path allow_all
  validate_selector s _ path allow_all = problem path not_an_object

  except_problems : Option Selector → Option Value → String → List Problem
  except_problems none raw path = []
  except_problems (some s) none path = []
  except_problems (some s) (some raw) path =
      if is_null raw then [] else validate_selector s raw (path <> "/except") false

  match_problems : Selector → Option Value → String → List Problem
  match_problems s none path = problem (path <> "/match") required
  match_problems s (some raw) path = validate_selector s raw (path <> "/match") true

  unfoldable pub patch_problems : Fields → String → List Problem
  patch_problems end path = []
  patch_problems (field k v fs) path =
      unless (contains patchable_sections k) (path <> "/patch/" <> k) not_patchable
      ++ patch_problems fs path

  -- the patch is nil where the key is missing or null
  patch_missing : Fields → String → List Problem
  patch_missing m path =
      unless (not (is_null (or_else null (get "patch" m)))) (path <> "/patch") required

  unfoldable pub override_problems : Override → Fields → List String → String → List Problem
  unfolding except_problems match_problems patch_missing
  override_problems o m seen path =
      (if is_blank o.id
        then problem (path <> "/id") required
        else unless (not (contains seen o.id)) (path <> "/id") duplicate_id)
      ++ (match_problems o.matching (get "match" m) path
          ++ (except_problems o.except (get "except" m) path
              ++ (timestamp std lib o.until (path <> "/until")
                  ++ (patch_missing m path ++ patch_problems o.patch path))))

  -- The loop over the items; an item that is no object, or that does not decode, is passed over
  -- with its problem.
  unfoldable pub override_items : Json → ℕ → List String → Items → List Override × List Problem
  override_items json i seen nil = ([], [])
  override_items json i seen (cons (obj m) r) = elim (json.decode_override m) [
    | none ↦
        let (os, ps) = override_items json (i + 1) seen r in
        (os, problem (index std lib "/overrides" i) undecodable ++ ps)
    | some o ↦
        let (os, ps) = override_items json (i + 1) (o.id ∷ seen) r in
        (o ∷ os, override_problems o m seen (index std lib "/overrides" i) ++ ps)
  ]
  override_items json i seen (cons _ r) =
      let (os, ps) = override_items json (i + 1) seen r in
      (os, problem (index std lib "/overrides" i) not_an_object ++ ps)

  unfoldable pub parse_overrides : Json → Value → List Override × List Problem
  unfolding override_items
  parse_overrides json null = ([], [])
  parse_overrides json (arr items) = override_items json 0 [] items
  parse_overrides json _ = ([], problem "/overrides" not_a_list)
