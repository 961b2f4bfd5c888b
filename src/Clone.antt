-- ===== src/Clone.antt =====
-- packages/clone-testing
pub mod State
pub mod Core
mod Tests
