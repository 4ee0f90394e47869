-- ===== src/Policy/Json.antt =====
-- internal/policy/merge.go: generic JSON values and the merge patch of RFC 7386. Copies of a value
-- are the value itself here. An object is a list of fields; a map's keys are different (IsUnique).
pub mod Merge
use emly_updater.Base.{
  ◌≡◌, ℕ, ℤ, String, Bool, true, false, not, Option, none, some, str_eq, or_else, if◌then◌else◌,
  ◌&&◌,
}

mutual
  pub data Value : Type 0 where
    obj : Fields → Value
    arr : Items → Value
    str : String → Value
    -- an integer, and a float64 that is none
    num : ℤ → Value
    real : ℕ → Value
    bool : Bool → Value
    null : Value

  -- map[string]any
  pub data Fields : Type 0 where
    field : String → Value → Fields → Fields
    end : Fields

  -- []any
  pub data Items : Type 0 where
    cons : Value → Items → Items
    nil : Items

abbrev pub is_null : Value → Bool
is_null null = true
is_null _ = false

-- v, ok := m[k]
unfoldable pub get : String → Fields → Option Value
get k end = none
get k (field j v fs) = if str_eq j k then some v else get k fs

-- delete(m, k)
unfoldable pub remove : String → Fields → Fields
remove k end = end
remove k (field j v fs) = let rest = remove k fs in if str_eq j k then rest else field j v rest

-- m[k] = v
unfoldable pub put : String → Value → Fields → Fields
put k v end = field k v end
put k v (field j w fs) =
    let rest = put k v fs in if str_eq j k then field k v fs else field j w rest

-- target.(map[string]any), an empty map for any other value
abbrev pub fields_of : Value → Fields
fields_of (obj fs) = fs
fields_of _ = end

-- One key of a patch: null deletes, anything else stores the merged value.
abbrev pub put_merged : Value → String → Value → Fields → Fields
put_merged null k merged out = remove k out
put_merged _ k merged out = put k merged out

unfoldable mutual
  pub merge_patch : Value → Value → Value
  merge_patch target null = null
  merge_patch target (bool b) = bool b
  merge_patch target (num n) = num n
  merge_patch target (real r) = real r
  merge_patch target (str s) = str s
  merge_patch target (arr xs) = arr xs
  merge_patch target (obj ps) = obj (merge_fields (fields_of target) ps)

  -- the loop over the keys of the patch
  pub merge_fields : Fields → Fields → Fields
  merge_fields out end = out
  merge_fields out (field k v ps) =
      merge_fields (put_merged v k (merge_patch (or_else null (get k out)) v) out) ps

unfoldable mutual
  pub strip_nulls : Value → Value
  strip_nulls null = null
  strip_nulls (bool b) = bool b
  strip_nulls (num n) = num n
  strip_nulls (real r) = real r
  strip_nulls (str s) = str s
  strip_nulls (arr xs) = arr xs
  strip_nulls (obj fs) = obj (strip_fields fs)

  pub strip_fields : Fields → Fields
  strip_fields end = end
  strip_fields (field k v fs) =
      if is_null v then strip_fields fs else field k (strip_nulls v) (strip_fields fs)

-- No key stands twice.
unfoldable pub has_key : String → Fields → Bool
has_key k end = false
has_key k (field j v fs) = if str_eq j k then true else has_key k fs

abbrev pub IsUnique : Fields → Type 0
IsUnique end = Unit
IsUnique (field k v fs) = (has_key k fs ≡ false) × IsUnique fs
