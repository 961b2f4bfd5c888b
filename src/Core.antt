-- ===== src/Core.antt =====
-- packages/cw-orch-core
pub mod Error
pub mod Events
pub mod State
pub mod Contract
pub mod Conditional
pub mod ChainInfo
pub mod EnvVars
pub mod Paths
pub mod Deploy
mod Tests
