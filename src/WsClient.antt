-- ===== src/WsClient.antt =====
-- internal/wsclient: the presence channel's reconnection schedule and protocol names.
pub mod Backoff
pub mod Protocol
pub mod Session
pub mod Client
