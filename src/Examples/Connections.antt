-- ===== src/Examples/Connections.antt =====
-- One connection, and the loop that holds it, at concrete inputs.
use emly_updater.Base.{
  ◌+◌, ℕ, pos, ◌≡◌, refl, ◌∙◌, String, Bool, true, false, Option, none, some, List, [], ◌∷◌, ◌<>◌,
  any, str_eq, trim_space, trim_slashes,
}
use emly_updater.Policy.Matching.{Url}
use emly_updater.WsClient.Session.{Welcome, default_limits, new_session}
use emly_updater.WsClient.Client.{
  Identity, Decoders, Incoming, message, broken, url_for, run, End, not_implemented,
}
use emly_updater.WsClient.Client.Order.{Orderly, run-Orderly}
use emly_updater.WsClient.Client.Secure.{IsPrinter, url_for-secure}
use emly_updater.Service.Presence.{Target, Policy, Round, State, initial, round, rounds}
use emly_updater.Service.Presence.Rest.{dials, not_implemented_rests}
use emly_updater.Examples.Standins.{parsers}

abbrev welcome : Welcome
welcome = record {
  protocol = pos 2;
  accepted_capabilities = "notify" ∷ [];
  limits = default_limits;
}

-- every welcome is the one above, and nothing else decodes
abbrev decoders : Decoders
decoders = record {
  welcome = λ s. some welcome;
  command = λ s. none;
  notify = λ s. some (record { topic = s; payload = "" });
  code = λ s. none;
}

abbrev machine : Identity
machine = record {
  hwid = "hw";
  hostname = "pc";
  ad_domain = "";
  logged_user = "";
  logged_user_state = "";
  logged_user_disconnected_at = "";
  serial = "";
  product = "";
  os_version = "";
  emly_version = "";
  protocol = pos 2;
  capabilities = [];
}

abbrev script : List Incoming
script =
    message "hello" "" "" true false
    ∷ message "notify" "" "early" true false
    ∷ message "welcome" "" "" true false
    ∷ message "ping" "" "" true false
    ∷ message "notify" "" "config" true false
    ∷ message "welcome" "" "" true false
    ∷ broken false
    ∷ []

run-Orderly_example : Orderly none (run decoders "wss://a" true machine none script).0
run-Orderly_example = run-Orderly decoders "wss://a" true machine none script

abbrev print : Url → String
print u = (u.scheme <> "://") <> (u.host <> u.path)

print-IsPrinter : IsPrinter print
print-IsPrinter = record { begins = λ u h. (u.host <> u.path, refl) }

url_for-secure_example :
    (u : Url) × (parsers.parse_url (trim_slashes (trim_space "emly.test/")) ≡ some u)
    × (str_eq u.scheme "https" ≡ (new_session "wss://emly.test/v2/client/ws" welcome).secure)
unfolding url_for trim_slashes trim_space emly_updater.WsClient.Client.ws_scheme
url_for-secure_example =
    url_for-secure parsers print print-IsPrinter "emly.test/" "wss://emly.test/v2/client/ws" welcome
      refl

abbrev mirror : Target
mirror = record { enabled = true; server = "mirror"; url = "wss://mirror" }

abbrev other : Target
other = record { enabled = true; server = "other"; url = "wss://other" }

abbrev tried : Target → ℕ → Round
tried target at = record {
  target = target;
  now = at;
  later = at + 5;
  up_for = none;
  end = not_implemented;
  stopping = false;
  cancelled = false;
  draw = 0;
}

abbrev next_rounds : List Round
next_rounds = tried mirror 20 ∷ tried other 30 ∷ tried mirror 40 ∷ []

not_implemented_rests_example :
    any (dials "mirror") (rounds next_rounds (round (tried mirror 10) initial).state).0 ≡ false
unfolding round emly_updater.Service.Presence.resting emly_updater.Base.lookup
    emly_updater.Service.Presence.dialled_round
not_implemented_rests_example =
    not_implemented_rests (tried mirror 10) next_rounds initial refl refl refl refl

abbrev policy : Policy
policy = record { enabled = true; chain = "base" ∷ "backup" ∷ []; base_url = λ n. "https://" <> n }

abbrev endpoints : String → Option String
endpoints b = some (b <> "/ws")

abbrev manifest_of : String → String
manifest_of n = policy.base_url n <> "/v2/updates/manifest"
