-- ===== src/Service.antt =====
-- internal/service: the parts of the update service, a module for each of its source files.
pub mod SelfUpdate
pub mod RemoteConfig
pub mod Power
pub mod Commands
pub mod Announcements
pub mod Upgradable
pub mod Events
pub mod Preferred
pub mod Notify
pub mod Targets
pub mod World
pub mod Install
pub mod Cycle
pub mod Presence
pub mod SourcePolicy
pub mod Sessions
