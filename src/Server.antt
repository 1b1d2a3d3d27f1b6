-- ===== src/Server.antt =====
-- server/src: the leading server.
pub mod State
pub mod Locks
pub mod Replication
pub mod Accept
pub mod Requests
