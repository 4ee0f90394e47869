-- ===== src/WsClient/Session.antt =====
-- internal/wsclient/session.go: a negotiated session, with the records of protocol.go that it is made of.
use emly_updater.Base.{
  ℕ, ℤ, pos, lt_ℤ, String, Bool, Option, none, some, List, contains, has_prefix, if◌then◌else◌,
}

pub record Limits : Type 0 where
  pub max_message_bytes : ℤ
  pub max_events_per_minute : ℤ
  pub ack_timeout_seconds : ℤ

abbrev pub default_limits : Limits
default_limits = record {
  max_message_bytes = pos 65536;
  max_events_per_minute = pos 60;
  ack_timeout_seconds = pos 5;
}

pub record Welcome : Type 0 where
  pub protocol : ℤ
  pub accepted_capabilities : List String
  pub limits : Limits

pub record Session : Type 0 where
  pub secure : Bool
  pub capabilities : List String
  pub limits : Limits

unfoldable pub new_session : String → Welcome → Session
new_session url w = record {
  secure = has_prefix url "wss://";
  capabilities = w.accepted_capabilities;
  limits = if lt_ℤ (pos 0) w.limits.max_message_bytes then w.limits else default_limits;
}

unfoldable pub accepted : Session → String → Bool
accepted s name = contains s.capabilities name

-- What `write` answers for a message of `size` bytes, `none` for one that cannot be serialised.
pub data Sent : Type 0 where
  sent unserialised too_large not_written : Sent

unfoldable pub write : Session → Option ℕ → Bool → Sent
write s none ok = unserialised
write s (some size) ok =
    if lt_ℤ s.limits.max_message_bytes (pos size)
    then too_large
    else if ok
    then sent
    else not_written
