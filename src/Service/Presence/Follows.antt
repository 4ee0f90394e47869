-- ===== src/Service/Presence/Follows.antt =====
-- internal/service/clientws.go: the client channel follows the server that the manifest came from.
use emly_updater.Base.{String, true}
use emly_updater.Service.Presence.{Target}

abbrev pub at_server : String → String → Target
at_server server url = record { enabled = true; server = server; url = url }
