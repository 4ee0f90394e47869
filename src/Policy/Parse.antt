-- ===== src/Policy/Parse.antt =====
-- internal/policy/parse.go: `Parse` and its parts. encoding/json is the argument `Json`: decoding
-- bytes gives a generic value, and decoding a generic value gives the typed form, where unknown
-- fields are ignored. The document is parsed from the generic value of its bytes.
pub mod Overrides
pub mod Whole
pub mod Safety
use emly_updater.Base.{
  ℕ, ◌≡◌, ℤ, pos, String, Bool, true, false, not, ◌&&◌, ◌||◌, Option, none, some, List, [], ◌∷◌,
  ◌++◌, Result, ok, err, or_else, if◌then◌else◌,
}
use emly_updater.Policy.Document.{Document, Override}
use emly_updater.Policy.Json.{
  Value, null, obj, bool, Fields, end, field, get, put, is_null, merge_patch, strip_nulls,
}
use emly_updater.Policy.Validate.{Problem, Message, undecodable}

pub record Json : Type 0 where
  pub decode : Fields → Option Document
  pub decode_override : Fields → Option Override

-- raw[k], a nil for a missing key
abbrev pub value_at : String → Fields → Value
value_at k fs = or_else null (get k fs)

abbrev pub topology_keys : List String
topology_keys =
    "schemaVersion" ∷ "revision" ∷ "generatedAt" ∷ "servers" ∷ "defaultServer" ∷ "dcLookupMap"
    ∷ "hostIntegrity" ∷ []

abbrev pub merged_sections : List String
merged_sections = "refresh" ∷ "control" ∷ "updater" ∷ "logging" ∷ "clientWs" ∷ []

-- the loop over the topology keys: what is sent is taken, a null is not
take_sent : Fields → List String → Fields → Fields
take_sent raw [] out = out
take_sent raw (k ∷ ks) out =
    take_sent raw ks (if is_null (value_at k raw) then out else put k (value_at k raw) out)

-- the neutral value of a section that is not there
neutral : String → Value → Fields → Fields
neutral k v out = if is_null (value_at k out) then put k v out else out

is_object : Value → Bool
is_object (obj _) = true
is_object _ = false

layered : Value → Value → Value
layered default sent = if is_object sent then merge_patch default (strip_nulls sent) else default

-- the loop over the merged sections
merge_sections : Fields → Fields → List String → Fields → Fields
unfolding layered is_object
merge_sections defaults raw [] out = out
merge_sections defaults raw (k ∷ ks) out =
    merge_sections defaults raw ks (put k (layered (value_at k defaults) (value_at k raw)) out)

ipc_section : Fields → Fields → Value
ipc_section defaults raw =
    if is_null (value_at "ipcProtocol" raw)
    then value_at "ipcProtocol" defaults
    else value_at "ipcProtocol" raw

unfoldable pub complete : Fields → Fields → Fields
unfolding take_sent neutral merge_sections ipc_section
complete defaults raw =
    let sent = take_sent raw topology_keys end in
    let out =
      neutral "hostIntegrity" (obj (field "enabled" (bool false) end))
        (neutral "dcLookupMap" (obj end) sent) in
    merge_sections defaults raw merged_sections (put "ipcProtocol" (ipc_section defaults raw) out)

abbrev pub problem : String → Message → List Problem
problem path m = record { path = path; message = m } ∷ []

-- fills the defaults into the raw sections and decodes the result
unfoldable pub build : Json → Fields → Fields → Result (List Problem) Document
build json defaults raw = elim (json.decode (complete defaults raw)) [
  | none ↦ err (problem "/" undecodable)
  | some doc ↦ ok doc
]
