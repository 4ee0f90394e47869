-- ===== src/Source/Http.antt =====
-- internal/source/http.go: one HTTP source. What http.Client.Do and the reading of the body give is an
-- argument; bodies are lists of bytes, and the decoding of JSON is a parameter.
use emly_updater.Base.{
  ℕ, ◌*◌, ◌^◌, String, Bool, false, not, ◌&&◌, Option, none, some, Result, ok, err, ◌>>=◌, List, [],
  ◌∷◌, ◌++◌, lookup, take, is_blank, ◌==◌, if◌then◌else◌,
}
use emly_updater.Manifest.{VersionLib, Manifest, Target, channel_version, checked}
use emly_updater.Manifest as Manifest
use emly_updater.Manifest.Updater.{UpdaterManifest, checked_updater}
use emly_updater.Source.Resolver.{FetchError, not_found, failure}

pub record HttpSource : Type 0 where
  pub manifest_url : String
  pub user_agent : String
  pub api_key : String
  pub hostname : String
  pub hwid : String
  pub ad_domain : String
  pub internal_ip : String
  pub os_version : String
  pub serial : String
  pub product : String
  pub emly_version : String
  pub logged_user : String
  pub logged_user_state : String
  -- the time as it is formatted, none for the zero time
  pub logged_user_disconnected_at : Option String

-- an answer: its status, and its body unless reading it fails
pub record Response : Type 0 where
  pub status : ℕ
  pub body : Option (List ℕ)

header : String → String → List (String × String)
header name value = if is_blank value then [] else (name, value) ∷ []

disconnected_header : Option String → List (String × String)
disconnected_header none = []
disconnected_header (some at) = ("X-EMLy-LoggedUserDisconnectedAt", at) ∷ []

-- the headers that are set, in order
unfoldable pub apply_headers : HttpSource → List (String × String)
unfolding header disconnected_header
apply_headers s =
    header "User-Agent" s.user_agent
    ++ (header "X-Api-Key" s.api_key
        ++ (header "X-EMLy-Hostname" s.hostname
            ++ (header "X-EMLy-HWID" s.hwid
                ++ (header "X-EMLy-ADDomain" s.ad_domain
                    ++ (header "X-EMLy-IntIP" s.internal_ip
                        ++ (header "X-EMLy-OSVersion" s.os_version
                            ++ (header "X-EMLy-Serial" s.serial
                                ++ (header "X-EMLy-Product" s.product
                                    ++ (header "X-EMLy-AppVersion" s.emly_version
                                        ++ (header "X-EMLy-LoggedUser" s.logged_user
                                            ++ (header "X-EMLy-LoggedUserState" s.logged_user_state
                                                ++ disconnected_header
                                                    s.logged_user_disconnected_at)))))))))))

abbrev pub request_failed : FetchError
request_failed = failure 0

abbrev pub unreadable_body : FetchError
unreadable_body = failure 1

abbrev pub bad_document : FetchError
bad_document = failure 2

abbrev pub manifest_cap : ℕ
manifest_cap = 4 * 2 ^ 20

-- `none` is a request that failed.
unfoldable pub get_json : Option Response → Result FetchError (List ℕ)
get_json none = err request_failed
get_json (some resp) =
    if resp.status == 404
    then err not_found
    else if not (resp.status == 200)
    then err (failure resp.status)
    else elim resp.body [ none ↦ err unreadable_body | some bytes ↦ ok (take manifest_cap bytes) ]

decoded : {A : Type 0} → Result Manifest.Error A → Result FetchError A
decoded (ok a) = ok a
decoded (err e) = err bad_document

unfoldable pub fetch_manifest :
    (List ℕ → Option Manifest) → Option Response → Result FetchError Manifest
unfolding decoded get_json
fetch_manifest decode answer = do bytes ← get_json answer; decoded (checked (decode bytes))

unfoldable pub fetch_updater_manifest :
    (List ℕ → Option UpdaterManifest) → Option Response → Result FetchError UpdaterManifest
unfolding decoded get_json
fetch_updater_manifest decode answer = do
  bytes ← get_json answer
  decoded (checked_updater (decode bytes))

with_checksum : Manifest → String × String → Result Manifest.Error Target
with_checksum m (version, url) = elim (lookup version m.sha256_checksums) [
  | none ↦ err (Manifest.no_checksum version)
  | some sha ↦
      if is_blank sha
      then err (Manifest.no_checksum version)
      else ok (record { version = version; download_ref = url; sha256 = sha })
]

module _ {V : Type 0} (lib : VersionLib V) where
  unfoldable pub resolve_target : Manifest → String → Result Manifest.Error Target
  unfolding with_checksum
  resolve_target m channel = channel_version lib m channel >>= with_checksum m

-- FetchSetup: what it leaves at its destination, and whether it returns a nil error. A body whose
-- reading breaks off leaves the part that came.
pub record Download : Type 0 where
  pub request_ok : Bool
  pub status : ℕ
  pub create_ok : Bool
  pub body : String
  pub complete : Bool
  pub close_ok : Bool

unfoldable pub fetch_setup : Download → Option String × Bool
fetch_setup d =
    if not d.request_ok
    then (none, false)
    else if not (d.status == 200)
    then (none, false)
    else if not d.create_ok
    then (none, false)
    else (some d.body, d.complete && d.close_ok)
