-- ===== src/Agent/Watcher.antt =====
-- internal/log-pilot-agent/watcher.
pub mod Label
pub mod Lease
pub mod Build
pub mod Pods
pub mod Cluster
pub mod Start
pub mod Reports
