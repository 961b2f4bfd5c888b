-- ===== src/Daemon/Tests.antt =====
-- The theorems on cw-orch-daemon at concrete handles, wallets, nodes and logs.
mod Broadcasts
mod States
mod Batches
mod Searches
mod Channels
mod Wallets
mod Responses
mod Blocks
