-- ===== src/Daemon.antt =====
-- cw-orch-daemon
pub mod Error
pub mod Json
pub mod State
pub mod TxBuilder
pub mod Broadcaster
pub mod SuggestedFee
pub mod Batch
pub mod Core
pub mod Wallet
pub mod GrpcChannel
pub mod TxResponse
pub mod Node
mod Tests
