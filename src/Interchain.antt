-- ===== src/Interchain.antt =====
-- packages/interchain
pub mod Error
pub mod Channel
pub mod Analysis
pub mod Environment
pub mod Following
pub mod Inspector
pub mod MockEnv
pub mod DaemonEnv
mod Tests
