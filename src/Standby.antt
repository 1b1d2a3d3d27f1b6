-- ===== src/Standby.antt =====
-- Failover: the order of the servers, and the servers that stand by.
pub mod Cluster
pub mod Snapshot
pub mod Watcher
pub mod Mirror
