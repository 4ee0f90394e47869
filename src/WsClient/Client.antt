-- ===== src/WsClient/Client.antt =====
-- internal/wsclient/client.go: one connection of the client channel, from the dial to its
-- end. What the websocket reads is the argument `incoming`; decoding is the argument `Decoders`, and
-- what a write answers stands with the message that it replies to. Logging is left out.
pub mod Order
pub mod Secure
use emly_updater.Base.{
  ℕ, ◌+◌, ◌*◌, ◌≡◌, ℤ, pos, lt_ℤ, String, Bool, true, false, not, ◌&&◌, ◌||◌, Option, none, some,
  List, [], ◌∷◌, ◌++◌, contains, is_blank, is_some, or_else, str_eq, has_prefix, trim_space,
  trim_slashes, ◌<>◌, leb, ltb, ◌==◌, if◌then◌else◌,
}
use emly_updater.Policy.Matching.{Std, Url}
use emly_updater.WsClient.Session.{Limits, Welcome, Session, new_session}
use emly_updater.WsClient.Protocol.{Command}
use emly_updater.WsClient.Backoff.{second}

abbrev pub path : String
path = "/v2/client/ws"

abbrev pub protocol_v2 : ℤ
protocol_v2 = pos 2

pub record Identity : Type 0 where
  pub hwid : String
  pub hostname : String
  pub ad_domain : String
  pub logged_user : String
  pub logged_user_state : String
  pub logged_user_disconnected_at : String
  pub serial : String
  pub product : String
  pub os_version : String
  pub emly_version : String
  pub protocol : ℤ
  pub capabilities : List String

unfoldable pub identified : Identity → Bool
identified i = not (is_blank i.hwid) || not (is_blank i.hostname)

-- URLFor; `print` is URL.String. `none` is an error.
module _ {Ip Net : Type 0} (std : Std Ip Net) (print : Url → String) where
  unfoldable pub ws_scheme : String → Option String
  ws_scheme scheme =
      if str_eq scheme "https" then some "wss" else if str_eq scheme "http" then some "ws" else none

  with_scheme : Url → Option String → Option String
  with_scheme u none = none
  with_scheme u (some scheme) =
      if is_blank u.host
      then none
      else some (print (record u { scheme = scheme; path = u.path <> path }))

  unfoldable pub url_for : String → Option String
  unfolding with_scheme
  url_for base_url =
      let base = trim_slashes (trim_space base_url) in
      if is_blank base
      then none
      else elim (std.parse_url base) [ none ↦ none | some u ↦ with_scheme u (ws_scheme u.scheme) ]

abbrev pub default_idle_timeout : ℕ
default_idle_timeout = 30 * second

abbrev pub default_handshake_timeout : ℕ
default_handshake_timeout = 30 * second

-- 0 for a duration that is not above 0
unfoldable pub idle_timeout : ℕ → ℕ
idle_timeout t = if ltb 0 t then t else default_idle_timeout

unfoldable pub handshake_timeout : ℕ → ℕ
handshake_timeout t = if ltb 0 t then t else default_handshake_timeout

pub record Notify : Type 0 where
  pub topic : String
  pub payload : String

-- json.Unmarshal of a message's data
pub record Decoders : Type 0 where
  pub welcome : String → Option Welcome
  pub command : String → Option Command
  pub notify : String → Option Notify
  -- the "code" of an error
  pub code : String → Option String

-- What one read gives: its failure, with whether the context is done, or a message with its type, its id
-- and its data, whether a reply to it can be written, and whether the context is done by then.
pub data Incoming : Type 0 where
  broken : Bool → Incoming
  message : String → String → String → Bool → Bool → Incoming

-- why a connection ended
pub data End : Type 0 where
  unidentified : End
  not_implemented : End
  unauthorized : End
  not_dialled : End
  no_hello : End
  identity_unsent : End
  refused : String → End
  stopped : End
  read_failed : End
  ping_unanswered : End

-- What a connection does, in order: what it sends itself, and what it hands to the Handler.
pub data Deed : Type 0 where
  introduced : Deed
  connected : Deed
  ponged : Deed
  welcomed : Session → Deed
  commanded : Session → String → Command → Deed
  notified : Session → Notify → Deed

-- the headers of the upgrade
header : String → String → List (String × String)
header name value = if is_blank value then [] else (name, value) ∷ []

unfoldable pub dial_headers : String → String → Identity → List (String × String)
unfolding header
dial_headers api_key user_agent i =
    header "X-Api-Key" api_key
    ++ (header "User-Agent" user_agent
        ++ (header "X-EMLy-HWID" i.hwid ++ header "X-EMLy-Hostname" i.hostname))

-- the error of a dial that failed, from the status of its answer if there was one
unfoldable pub dial_error : Option ℕ → End
dial_error none = not_dialled
dial_error (some status) =
    if status == 404
    then not_implemented
    else if status == 401 || status == 403
    then unauthorized
    else not_dialled

-- CheckRedirect: from the scheme of the last request to that of the next; `prev_ok` is the answer of the
-- client's own check.
unfoldable pub redirect_allowed : Option String → String → Bool → Bool
redirect_allowed none scheme prev_ok = prev_ok
redirect_allowed (some last) scheme prev_ok =
    if str_eq last "https" && not (str_eq scheme "https") then false else prev_ok

-- The loop of the handshake: its end, or the messages that follow the hello.
pub data Shaken : Type 0 where
  failed : End → Shaken
  shaken : List Incoming → Shaken

module _ (lib : Decoders) where
  unfoldable pub error_code : String → String
  error_code raw =
      let fallback = if is_blank raw then "(no code)" else raw in
      elim (lib.code raw) [ none ↦ fallback | some code ↦ if is_blank code then fallback else code ]

  unfoldable pub handshake : List Incoming → Shaken
  handshake [] = failed no_hello
  handshake (broken done ∷ rest) = failed no_hello
  handshake (message typ id raw writes done ∷ rest) =
      let later = handshake rest in
      if str_eq typ "hello"
      then (if writes then shaken rest else failed identity_unsent)
      else if str_eq typ "error"
      then failed (refused (error_code raw))
      else later

  usable : Option Welcome → Option Welcome
  usable none = none
  usable (some w) = if lt_ℤ w.protocol protocol_v2 then none else some w

  unfoldable pub welcomed_by : String → Option Welcome → Option Session × List Deed
  welcomed_by url none = (none, [])
  welcomed_by url (some w) = (some (new_session url w), welcomed (new_session url w) ∷ [])

  -- what a welcome makes of the session, with what is handed on
  unfoldable pub on_welcome : String → Bool → Option Session → String → Option Session × List Deed
  unfolding usable
  on_welcome url handled (some s) raw = (some s, [])
  on_welcome url false none raw = (none, [])
  on_welcome url true none raw = welcomed_by url (usable (lib.welcome raw))

  unfoldable pub command_of : Session → String → Option Command → List Deed
  command_of s id none = []
  command_of s id (some cmd) = commanded s id cmd ∷ []

  unfoldable pub on_command : Option Session → String → String → List Deed
  on_command none id raw = []
  on_command (some s) id raw = command_of s id (lib.command raw)

  unfoldable pub notify_of : Session → Option Notify → List Deed
  notify_of s none = []
  notify_of s (some n) = notified s n ∷ []

  unfoldable pub on_notify : Option Session → String → List Deed
  on_notify none raw = []
  on_notify (some s) raw = notify_of s (lib.notify raw)

  -- the switch on the type of a message, for the types that do not end the connection
  unfoldable pub on_message :
      String → Bool → Option Session → String → String → String → Option Session × List Deed
  on_message url handled sess typ id raw =
      if str_eq typ "ping"
      then (sess, ponged ∷ [])
      else if str_eq typ "welcome"
      then on_welcome url handled sess raw
      else if str_eq typ "command"
      then (sess, on_command sess id raw)
      else if str_eq typ "notify"
      then (sess, on_notify sess raw)
      else (sess, [])

  -- The loop of the heartbeat, with what it does and how it ends. `handled` is whether the client has a
  -- handler.
  unfoldable pub heartbeat : String → Bool → Option Session → List Incoming → List Deed × End
  heartbeat url handled sess [] = ([], read_failed)
  heartbeat url handled sess (broken done ∷ rest) = ([], if done then stopped else read_failed)
  heartbeat url handled sess (message typ id raw writes done ∷ rest) =
      let (sess', deeds) = on_message url handled sess typ id raw in
      let later = heartbeat url handled sess' rest in
      if str_eq typ "ping" && not writes
      then ([], if done then stopped else ping_unanswered)
      else if str_eq typ "error"
      then ([], refused (error_code raw))
      else (deeds ++ later.0, later.1)

  unfoldable pub after_handshake : String → Bool → Shaken → List Deed × End
  after_handshake url handled (failed e) = ([], e)
  after_handshake url handled (shaken rest) =
      let (deeds, e) = heartbeat url handled none rest in (introduced ∷ connected ∷ deeds, e)

  -- Run; `answer` is the status of a dial that failed, or none for one that succeeded.
  unfoldable pub run :
      String → Bool → Identity → Option (Option ℕ) → List Incoming → List Deed × End
  unfolding after_handshake
  run url handled i (some answer) incoming =
      if not (identified i) then ([], unidentified) else ([], dial_error answer)
  run url handled i none incoming =
      if not (identified i)
      then ([], unidentified)
      else after_handshake url handled (handshake incoming)
