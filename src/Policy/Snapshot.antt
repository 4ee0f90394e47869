-- ===== src/Policy/Snapshot.antt =====
-- internal/policy/store.go: one immutable policy state, where it came from and when it is stale.
-- The zero time is `none`. The store holds one current snapshot, which is a field of its user.
use emly_updater.Base.{
  ℕ, ◌-◌, ℤ, String, Bool, true, false, Option, none, some, ltb, leb, if◌then◌else◌,
}
use emly_updater.Policy.Document.{Document, days}
use emly_updater.Policy.Parse.Whole.{Parsed}

pub data Source : Type 0 where
  default cached remote : Source

abbrev pub source_name : Source → String
source_name default = "default"
source_name cached = "cache"
source_name remote = "remote"

abbrev pub is_default : Source → Bool
is_default default = true
is_default _ = false

pub record Snapshot : Type 0 where
  pub parsed : Parsed
  pub source : Source
  pub fetched_at : Option ℕ
  pub fetched_from : String
  pub etag : String

abbrev pub revision : Snapshot → ℤ
revision s = s.parsed.global.revision

older_than : Document → ℕ → ℕ → Bool
older_than doc at now =
    let after = days doc.refresh.stale_after_days in
    if leb after 0 then false else ltb after (now - at)

unfoldable pub stale : Snapshot → ℕ → Bool
unfolding older_than
stale s now =
    if is_default s.source
    then false
    else elim s.fetched_at [ none ↦ false | some at ↦ older_than s.parsed.global at now ]
