-- ===== src/Ipc.antt =====
-- internal/ipc: the frames on the pipe and the versions of the peer that are accepted.
pub mod Framing
pub mod Version
