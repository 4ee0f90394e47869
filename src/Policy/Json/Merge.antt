-- ===== src/Policy/Json/Merge.antt =====
-- What a merge patch does to each key (merge.go).
use emly_updater.Base.{
  ◌≡◌, refl, inl, inr, String, Bool, true, false, ap, sym, subst, Option, none, some, arith, eq_iff,
  str_eq, or_else, if◌then◌else◌, Bool-cases, ◌∙◌, if_intro,
}
use emly_updater.Policy.Json.{
  Value, obj, arr, str, num, real, bool, null, Fields, end, field, fields_of, is_null, get, remove,
  put, put_merged, merge_patch, merge_fields, has_key, IsUnique,
}

get-remove :
    (k j : String) (m : Fields) → get j (remove k m) ≡ (if str_eq k j then none else get j m)
unfolding get remove
get-remove k j end = ground arith
get-remove k j (field i w m) = ground (arith, eq_iff k j, eq_iff i k, eq_iff i j, get-remove k j m)

get-put :
    (k j : String) (v : Value) (m : Fields)
    → get j (put k v m) ≡ (if str_eq k j then some v else get j m)
unfolding get put
get-put k j v end = refl
get-put k j v (field i w m) = ground (arith, eq_iff k j, eq_iff i k, eq_iff i j, get-put k j v m)

-- What a key holds after the patch, from what it held and what the patch has for it.
abbrev pub merged : Option Value → Option Value → Option Value
merged old none = old
merged old (some v) = if is_null v then none else some (merge_patch (or_else null old) v)

get-put_merged :
    (v : Value) (k j : String) (x : Value) (out : Fields)
    → get j (put_merged v k x out)
      ≡ (if str_eq k j then (if is_null v then none else some x) else get j out)
get-put_merged null k j x out = get-remove k j out
get-put_merged v k j x out = get-put k j x out

get-absent : (k : String) (m : Fields) → has_key k m ≡ false → get k m ≡ none
unfolding get has_key
get-absent k end h = refl
get-absent k (field i w m) h = ground (arith, get-absent k m)

-- After a merge patch each key holds what the patch says: a key that the patch does not name keeps
-- its value, one that it sets to null is gone, and any other holds its old value merged with the
-- patch's, whatever the order of the patch's keys.
pub get-merge_fields :
    (j : String) (out ps : Fields)
    → IsUnique ps
    → get j (merge_fields out ps) ≡ merged (get j out) (get j ps)
unfolding merge_fields get
get-merge_fields j out end u = refl
get-merge_fields j out (field k v ps) u =
    let x = merge_patch (or_else null (get k out)) v in
    let rest = get-merge_fields j (put_merged v k x out) ps u.1 in
    elim (Bool-cases (str_eq k j)) [
      | inl e ↦
          let same : k ≡ j = (eq_iff k j).0 e in
          rest ∙ rw (get-put_merged v k j x out, get-absent j ps (rw same at u.0), e) (rw same refl)
      | inr e ↦ rest ∙ rw (get-put_merged v k j x out, e) refl
    ]

abbrev is_object : Value → Bool
is_object (obj fs) = true
is_object _ = false

-- what a value holds at a key
abbrev old_at : String → Value → Option Value
old_at k (obj fs) = get k fs
old_at k _ = none

mutual
  -- RFC 7386: `IsMerge target patch result`
  pub data IsMerge : Value → Value → Value → Type 0 where
    replaces : {t v : Value} → is_object v ≡ false → IsMerge t v v
    merges :
        {t : Value} {ps rs : Fields}
        → ((k : String) → IsMergedKey (old_at k t) (get k ps) (get k rs))
        → IsMerge t (obj ps) (obj rs)

  -- one key: what the target had, what the patch says, and what the result has
  pub data IsMergedKey : Option Value → Option Value → Option Value → Type 0 where
    keeps : {o : Option Value} → IsMergedKey o none o
    removes : {o : Option Value} → IsMergedKey o (some null) none
    puts :
        {o : Option Value} {v r : Value}
        → is_null v ≡ false
        → IsMerge (or_else null o) v r
        → IsMergedKey o (some v) (some r)

unfoldable mutual
  -- no object in it has a key twice
  pub HasUniqueKeys : Value → Type 0
  HasUniqueKeys (obj fs) = IsUnique fs × AllUnique fs
  HasUniqueKeys _ = Unit

  AllUnique : Fields → Type 0
  AllUnique end = Unit
  AllUnique (field k v fs) = HasUniqueKeys v × AllUnique fs

old_at-fields_of : (k : String) (t : Value) → get k (fields_of t) ≡ old_at k t
unfolding get
old_at-fields_of k (obj fs) = refl
old_at-fields_of k (arr xs) = refl
old_at-fields_of k (str s) = refl
old_at-fields_of k (num n) = refl
old_at-fields_of k (real r) = refl
old_at-fields_of k (bool b) = refl
old_at-fields_of k null = refl

value-IsMergedKey :
    (o : Option Value) (v : Value)
    → IsMerge (or_else null o) v (merge_patch (or_else null o) v)
    → IsMergedKey o (some v) (merged o (some v))
value-IsMergedKey o null m = removes
value-IsMergedKey o (bool b) m = puts refl m
value-IsMergedKey o (num n) m = puts refl m
value-IsMergedKey o (real r) m = puts refl m
value-IsMergedKey o (str s) m = puts refl m
value-IsMergedKey o (arr xs) m = puts refl m
value-IsMergedKey o (obj ps) m = puts refl m

mutual
  unfolding merge_patch get HasUniqueKeys

  value-IsMerge : (t v : Value) → HasUniqueKeys v → IsMerge t v (merge_patch t v)
  value-IsMerge t null u = replaces refl
  value-IsMerge t (bool b) u = replaces refl
  value-IsMerge t (num n) u = replaces refl
  value-IsMerge t (real r) u = replaces refl
  value-IsMerge t (str s) u = replaces refl
  value-IsMerge t (arr xs) u = replaces refl
  value-IsMerge t (obj ps) (unique, inner) = merges λ k.
      subst (λ (n : Option Value). IsMergedKey (old_at k t) (get k ps) n)
        (sym (
          get-merge_fields k (fields_of t) ps unique
          ∙ ap (λ o. merged o (get k ps)) (old_at-fields_of k t)))
        (fields-IsMergedKey (old_at k t) k ps inner)

  fields-IsMergedKey :
      (o : Option Value) (k : String) (ps : Fields)
      → AllUnique ps
      → IsMergedKey o (get k ps) (merged o (get k ps))
  fields-IsMergedKey o k end u = keeps
  fields-IsMergedKey o k (field j v ps) (u, us) =
      if_intro (λ (n : Option Value). IsMergedKey o n (merged o n)) (str_eq j k)
        (λ _. value-IsMergedKey o v (value-IsMerge (or_else null o) v u))
        (λ _. fields-IsMergedKey o k ps us)

-- A merge patch does what RFC 7386 says, to every depth: a patch that is no object replaces the target;
-- under one that is, a key that it does not name keeps its value, a key that it sets to null is gone, and
-- any other holds its old value merged in the same way. No object of the patch has a key twice.
pub merge_patch-IsMerge : (t v : Value) → HasUniqueKeys v → IsMerge t v (merge_patch t v)
merge_patch-IsMerge t v u = value-IsMerge t v u
