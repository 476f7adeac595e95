-- ===== src/Indexer.antt =====
-- The indexer, backend/indexer/src: it polls a Soroban RPC for the contract's events, stores them,
-- and serves them with statistics, webhooks, votes and profiles.
pub mod Config
pub mod Kinds
pub mod Json
pub mod Decode
pub mod Fetch
pub mod Store
pub mod Poll
pub mod Quorum
pub mod Webhooks
pub mod Profiles
pub mod Reads
mod Tests
pub mod Cache
