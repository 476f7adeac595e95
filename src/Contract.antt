-- ===== src/Contract.antt =====
-- The Soroban contract, contracts/pifp_protocol/src.
pub mod Errors
pub mod Types
pub mod Events
pub mod Env
pub mod Emit
pub mod Storage
pub mod Rbac
pub mod Admin
pub mod Projects
pub mod Funding
pub mod Release
pub mod Lifecycle
pub mod Change
pub mod Invariants
pub mod History
pub mod Emergency
pub mod Access
pub mod Custody
pub mod Tests
