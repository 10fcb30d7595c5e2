-- ===== src/Agent/Input.antt =====
-- internal/log-pilot-agent/input: the sources of records.
pub mod Os
pub mod Filter
pub mod Dir
pub mod Channel
pub mod Events
pub mod Objects
pub mod File
