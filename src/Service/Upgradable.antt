-- ===== src/Service/Upgradable.antt =====
-- internal/service/clientcmd.go: the merge of the two winget lists, the cut to the frame's budget, and
-- the decision that a dry run reports. strings.ToLower is the argument `to_lower`, and the size of
-- the marshalled payload with these packages the argument `size`.
pub mod Merge
use emly_updater.Base.{
  ℕ, suc, zero, ◌+◌, ◌-◌, ◌*◌, ◌/◌, ◌≡◌, String, Bool, true, false, not, Option, none, some, List,
  [], ◌∷◌, ◌++◌, length, take, is_empty, str_eq, ltb, leb, ◌<>◌, ◌==◌, ◌||◌, if◌then◌else◌,
  contains,
}

pub record Package : Type 0 where
  pub name : String
  pub id : String
  pub installed_version : String
  pub available : String
  pub source : String

pub data Scope : Type 0 where
  machine user : Scope

pub record UpgradablePackage : Type 0 where
  pub found : Package
  pub scope : Scope

abbrev pub result_payload_budget : ℕ
result_payload_budget = 60000

module _ (to_lower : String → String) where
  abbrev pub key : Package → String
  key k = to_lower k.id <> "\0" <> k.installed_version

  -- `add` of each package of one half; `seen` are the keys met so far.
  unfoldable pub add_each :
      Scope → List String → List Package → List UpgradablePackage × List String
  add_each scope seen [] = ([], seen)
  add_each scope seen (k ∷ ks) =
      let known = add_each scope seen ks in
      let (out, seen') = add_each scope (key k ∷ seen) ks in
      if contains seen (key k) then known else (record { found = k; scope = scope } ∷ out, seen')

  unfoldable pub merge_upgradable : List Package → List Package → List UpgradablePackage
  merge_upgradable ms us =
      let (out, seen) = add_each machine [] ms in out ++ (add_each user seen us).0

-- The loop that drops packages from the end, on fuel; the second part is `truncated`.
unfoldable pub cut :
    ℕ
    → (List UpgradablePackage → ℕ)
    → List UpgradablePackage
    → Bool
    → Option (List UpgradablePackage × Bool)
cut zero size ps truncated = none
cut (suc fuel) size ps truncated =
    let n = length ps / 10 in
    let rest = cut fuel size (take (length ps - (if n == 0 then 1 else n)) ps) true in
    if leb (size ps) result_payload_budget || is_empty ps then some (ps, truncated) else rest

pub data ManifestDecision : Type 0 where
  up_to_date paused forced waiting_for_emly_exit install_next_cycle : ManifestDecision

abbrev pub emly_decision : Bool → Bool → Bool → Bool → ManifestDecision
emly_decision newer is_forced running is_paused =
    if not newer
    then up_to_date
    else if is_paused
    then paused
    else if is_forced
    then forced
    else if running
    then waiting_for_emly_exit
    else install_next_cycle
