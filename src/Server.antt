-- ===== src/Server.antt =====
-- The server (server.py: `Server`, `CheckStrategy`), in its parts.
pub mod Checks
pub mod Wals
pub mod Sync
pub mod Deletion
pub mod Timelines
