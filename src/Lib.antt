-- ===== src/Lib.antt =====
-- The EMLy updater service: a Windows service that keeps the EMLy mail client, and itself, up to
-- date. A poll cycle takes a snapshot of the remote configuration, finds the servers of this host,
-- resolves a manifest from them, and installs what the rules decide; a pipe serves the client, and a
-- websocket (the client channel) brings commands and notifies from the server. The model follows the
-- files of the repository:
--
-- - Base: Go's Booleans, lists, maps, texts, results and integers, and the lemmas on them.
-- - Manifest (internal/manifest): both manifests, the channel targets and the version order.
-- - State (internal/state): state.json and the operations of its Store, with every system call's
--   outcome; State.Lifecycles reads concurrent callers as sequences of operations.
-- - SelfUpdate (internal/selfupdate) and Service.SelfUpdate (internal/service/selfupdate.go): when the
--   updater installs itself, and one cycle of it.
-- - Download (internal/download): the cache of setups over a map from paths to contents.
-- - Source (internal/source/resolver.go, http.go): a resolution with retries and fallbacks, one source.
-- - Service.Cycle, Service.Install and Service.Targets (internal/service/service.go): the poll cycle, the
--   install with its clean reinstall, and the resolution of a target. A cycle is a function on `World`
--   (files, state.json, the guarded fields, what was emitted and started, in order); `Asks` and `Env`
--   hold every answer, one for each place that asks, and what the command goroutines do before it. A
--   cycle runs Service.SelfUpdate with the claim on `installing`; what that writes in its own entry of
--   state.json stays there.
-- - WsClient (internal/wsclient/backoff.go, protocol.go): the reconnection schedule, the commands.
-- - WsClient.Client and WsClient.Session (internal/wsclient/client.go, session.go): one connection, as a
--   function of what the websocket reads.
-- - Service.Presence (internal/service/clientws.go): where the channel is pointed, and the loop that
--   holds it, one round per connection.
-- - Service.SourcePolicy (internal/service/sourcepolicy.go): the facts of a host and the start of a cycle.
-- - Service.Sessions (internal/service/sessionwatch.go): bursts of session notifications.
-- - Config (internal/config/config.go, primary.go): config.ini from its keys on, and what is refused.
-- - Policy.Legacy (internal/policy/legacy.go): the policy of a machine that has only its config.ini.
-- - Ipc (internal/ipc/framing.go, version.go): frames, and the versions of a peer.
-- - Policy (internal/policy): the document, merge patches, matching, validation, parsing and
--   snapshots. Policy.Parse.Whole has Parse and Effective, Policy.Validate.Whole validateDocument.
-- - Service.RemoteConfig (internal/service/remoteconfig.go): which document is in force.
-- - Service.Power (clientpower.go), Service.Commands and Service.Upgradable (clientcmd.go),
--   Service.Events (clientevents.go), Service.Preferred (preferred.go), Service.Notify
--   (clientnotify.go), Service.Announcements (clientupdates.go), all of internal/service.
-- - Examples: stand-ins for the libraries, and the operations on concrete inputs.
--
-- A mutex makes each of its critical sections one step, so that goroutines are sequences of steps;
-- Service.Commands.start and Service.Power.run_destructive merge several that follow each other.
-- Go's maps are association lists, pointers are options, durations are nanoseconds, and an int64 that
-- can wrap is a bit pattern. What is read from outside (answers of servers, results of system calls,
-- the clock) is an argument. The third-party and standard parsers are the records VersionLib, Std,
-- Json, Codec, Args, Ini and Decoders; what a theorem relies on (a strict order of versions, the round
-- trip of the codec, the scheme that a printed address begins with) is a named hypothesis. Loops are recursions on their list; the attempts of a resolution
-- and the retries of a lookup recurse on their number, and the loop that cuts a payload on fuel, of which one more than the number
-- of packages is enough (Service.Upgradable.Merge.cut-fits).
--
-- Not modelled: Windows calls (pipes, sessions, certificates, processes, the registry), HTTP and
-- websocket I/O, the reading of INI files, message ids and logging.
-- The report of the validation is not sorted and its messages are constructors.
pub mod Base
pub mod Manifest
pub mod Download
pub mod State
pub mod SelfUpdate
pub mod Service
pub mod Source
pub mod WsClient
pub mod Config
pub mod Ipc
pub mod Policy
pub mod Examples
