-- ===== src/Mock.antt =====
-- packages/cw-orch-mock
pub mod State
pub mod Core
mod Tests
