-- ===== src/Service/Announcements.antt =====
-- internal/service/clientupdates.go: which updates and which failures are announced on the client
-- channel. The maps are association lists that live as long as the process; of an event only what the
-- filters read is kept.
pub mod Once
use emly_updater.Base.{
  ℕ, ◌≡◌, String, Bool, true, false, not, ◌&&◌, Option, none, some, List, [], ◌∷◌, Dict, lookup,
  insert, any, or_else, str_eq, ◌==◌, if◌then◌else◌,
}

pub record UpdateFailedKey : Type 0 where
  pub target : String
  pub to_version : String
  pub attempt : ℕ
  pub code : String

abbrev pub same_key : UpdateFailedKey → UpdateFailedKey → Bool
same_key a b =
    str_eq a.target b.target
    && str_eq a.to_version b.to_version
    && (a.attempt == b.attempt)
    && str_eq a.code b.code

abbrev pub reported : List UpdateFailedKey → UpdateFailedKey → Bool
reported keys k = any (λ (j : UpdateFailedKey). same_key j k) keys

-- the keys of `updateFailed`, and whether this one is new
unfoldable pub mark_update_failed :
    UpdateFailedKey → List UpdateFailedKey → List UpdateFailedKey × Bool
mark_update_failed k keys = if reported keys k then (keys, false) else (k ∷ keys, true)

-- The calls of emitUpdateFailed, one after the other: the failures that are emitted.
unfoldable pub emit_update_failed :
    List UpdateFailedKey → List UpdateFailedKey → List UpdateFailedKey
emit_update_failed keys [] = []
emit_update_failed keys (k ∷ ks) =
    let fresh = emit_update_failed (k ∷ keys) ks in
    let rest = emit_update_failed keys ks in
    if (mark_update_failed k keys).1 then k ∷ fresh else rest

-- announceUpdate: the version announced last for each target, and whether the event is emitted. A
-- missing key reads as "".
unfoldable pub announce_update : String → String → Dict String → Dict String × Bool
announce_update target available announced =
    if str_eq (or_else "" (lookup target announced)) available
    then (announced, false)
    else (insert target available announced, true)
