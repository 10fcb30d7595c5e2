-- ===== src/Tests.antt =====
-- The theorems at concrete inputs.
mod Runner
mod Inputs
mod Files
mod Stages
mod Policies
mod Admission
mod Watchers
mod Reports
mod Store
mod Cluster
mod Sources
mod Snapshots
