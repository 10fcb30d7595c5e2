-- ===== src/Operator.antt =====
-- internal/log-pilot-operator: validation of the policies, and the objects that the operator keeps.
pub mod Validation
pub mod LogPilot
pub mod Deploy
pub mod Reconcile
pub mod Controller
pub mod Policies
