-- ===== src/Agent.antt =====
-- internal/log-pilot-agent: the node agent.
pub mod Record
pub mod Transform
pub mod Output
pub mod Input
pub mod Clean
pub mod Status
pub mod Runner
pub mod Watcher
pub mod Program
