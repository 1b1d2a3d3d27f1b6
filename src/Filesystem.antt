-- ===== src/Filesystem.antt =====
pub mod SyncPlanner
pub mod VersionFile
pub mod StateFile
