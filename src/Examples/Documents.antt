-- ===== src/Examples/Documents.antt =====
-- The remote configuration on concrete documents.
use emly_updater.Base.{
  ◌≡◌, ◌↔◌, refl, pos, lt_ℤ, String, true, false, none, some, [], ◌∷◌, ok, All, In, is_blank,
  lookup, trim_space, before_dot,
}
use emly_updater.Policy.Document.{Document, Host, Site}
use emly_updater.Policy.Json.{
  obj, num, str, null, Value, Fields, end, field, get, has_key, remove, merge_fields, merge_patch,
  put, strip_nulls,
}
use emly_updater.Policy.Json.Merge.{IsMerge, HasUniqueKeys, merge_patch-IsMerge}
use emly_updater.Policy.Matching.{chain, site_of}
use emly_updater.Policy.Matching.Sites.{IsAt}
use emly_updater.Manifest.{less, parsed}
use emly_updater.Policy.Matching.{host_label}
use emly_updater.Policy.Validate.{
  site_label, validate_remote, each, validate_server, valid_server_url, server_ref, validate_ipc,
  valid_version, validate_sites, validate_site, index, timestamp, valid_cidr,
}
use emly_updater.Policy.Validate.Whole.{
  problems_of, sections, topology, validate_logging, validate_settings, validate_document,
  clamp_refresh,
}
use emly_updater.Policy.Validate.Refs.{Resolves}
use emly_updater.Policy.Validate.Labels.{valid_site_iff, HasAlikeLetters}
use emly_updater.Policy.Parse.Whole.{
  Parsed, parse, effective, dry_run_overrides, is_schema, parse_fields, with_global, with_overrides,
}
use emly_updater.Policy.Parse.{build, complete}
use emly_updater.Policy.Parse.Overrides.{
  override_items, override_problems, parse_overrides, patch_problems, present, size,
  validate_selector,
}
use emly_updater.Policy.Parse.Safety.{effective_valid, is_remote}
use emly_updater.Policy.Snapshot.{Snapshot, remote, default, is_default, revision}
use emly_updater.Service.RemoteConfig.{Settings, State}
use emly_updater.Service.RemoteConfig.Cache.{missing, init_policy}
use emly_updater.Service.RemoteConfig.Safety.{
  Call, refreshes, refreshes-IsTrusted, refreshes_not_older, IsTrusted,
}
use emly_updater.Examples.Standins.{versions, parsers, decoders, example_document}

abbrev example_fields : Fields
example_fields = field "schemaVersion" (num (pos 1)) (field "revision" (num (pos 7)) end)

abbrev example_parsed : Parsed
example_parsed = record { global = example_document; raw = example_fields; defaults = end }

abbrev host : Host
host = record {
  hwid = "h1";
  hostname = "pc1";
  dc = "dc-rm1";
  domain = "local";
  ips = "10.1.2.3" ∷ [];
  now = 200;
}

parses : parse parsers versions decoders 100 (some (obj example_fields)) end ≡ ok example_parsed
unfolding problems_of sections validate_remote topology each validate_server valid_server_url
    server_ref lookup validate_ipc valid_version less validate_sites site_label host_label
    before_dot trim_space validate_site parsed validate_logging validate_settings index timestamp
    valid_cidr parse get build validate_document merge_fields merge_patch put remove strip_nulls
    override_items override_problems parse_overrides patch_problems present size validate_selector
    dry_run_overrides is_schema parse_fields with_global with_overrides complete clamp_refresh
parses = refl

valid : problems_of parsers versions example_document true ≡ []
unfolding problems_of sections validate_remote topology each validate_server valid_server_url
    server_ref lookup validate_ipc valid_version less validate_sites site_label host_label
    before_dot trim_space validate_site parsed validate_logging validate_settings index timestamp
    valid_cidr
valid = refl

abbrev in_force : Document
in_force = (effective parsers versions decoders example_parsed host).doc

effective_valid_example :
    (problems_of parsers versions in_force (is_remote example_document) ≡ [])
    × All (Resolves parsers versions in_force) (chain parsers in_force host).1
effective_valid_example =
    effective_valid parsers versions decoders 100 (some (obj example_fields)) end example_parsed
      host parses

abbrev settings : Settings
settings = record {
  enabled = true;
  endpoints = "https://boot/" ∷ "https://main" ∷ [];
  route = "/config";
}

abbrev fallback : Snapshot
fallback = record {
  parsed = example_parsed;
  source = default;
  fetched_at = none;
  fetched_from = "";
  etag = "";
}

abbrev held : Snapshot
held = record fallback { source = remote; fetched_at = some 5 }

abbrev started : Snapshot → State
started snap = record {
  policy = snap;
  cache = none;
  last_attempt = none;
  unreachable = false;
  last_stale_warn = none;
  paused = false;
}

-- a server that answers with the document, and one that answers nothing
abbrev answers : Call
answers = record {
  writable = true;
  fetch = λ url etag.
      some (record { status = 200; size = 100; body = some (obj example_fields); etag = "x" });
  cancelled = λ i. false;
  force = true;
  host = host;
  now = 10;
}

abbrev silent : Call
silent = record answers { fetch = λ url etag. none }

refreshes-IsTrusted_example :
    IsTrusted parsers versions decoders fallback
      (refreshes parsers versions decoders settings end
        (answers ∷ silent ∷ [])
        (started fallback)).policy
unfolding init_policy
refreshes-IsTrusted_example =
    refreshes-IsTrusted parsers versions decoders settings end fallback missing
      (answers ∷ silent ∷ []) (started fallback) refl

refreshes_not_older_example :
    (is_default
        (refreshes parsers versions decoders settings end
          (answers ∷ silent ∷ [])
          (started held)).policy.source
      ≡ false)
    × (lt_ℤ
          (revision
            (refreshes parsers versions decoders settings end
              (answers ∷ silent ∷ [])
              (started held)).policy)
          (pos 7)
        ≡ false)
refreshes_not_older_example =
    refreshes_not_older parsers versions decoders settings end (answers ∷ silent ∷ [])
      (started held) refl

abbrev rome : String × Site
rome = (
  "dc-rm1",
  record {
    internal_subnets = "10.0.0.0/8" ∷ [];
    base_server = "main";
    backup_server = [];
    enabled = none;
  },
)

alike : HasAlikeLetters parsers versions example_document.dc_lookup_map
unfolding site_label
alike e e' i j same = same

valid_site_iff_example :
    (site_of parsers example_document host ≡ some rome)
    ↔ ((is_blank host.dc ≡ false) × In rome example_document.dc_lookup_map × IsAt parsers host rome)
valid_site_iff_example = valid_site_iff parsers versions example_document true host rome valid alike

abbrev logging_now : Value
logging_now =
    obj (field "logging" (obj (field "level" (str "info") (field "backups" (num (pos 5)) end))) end)

abbrev quieter : Value
quieter = obj (field "logging" (obj (field "level" null (field "compress" (str "on") end))) end)

merge_patch-IsMerge_example : IsMerge logging_now quieter (
    obj
      (field "logging" (obj (field "backups" (num (pos 5)) (field "compress" (str "on") end))) end))
unfolding get has_key merge_patch put remove HasUniqueKeys
merge_patch-IsMerge_example =
    merge_patch-IsMerge logging_now quieter ((refl, tt), (((refl, (refl, tt)), (tt, (tt, tt))), tt))
