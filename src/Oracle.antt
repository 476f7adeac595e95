-- ===== src/Oracle.antt =====
-- The oracle, backend/oracle/src: it fetches a proof from IPFS, hashes it, and asks the contract to
-- release the project's money against the hash.
pub mod Errors
pub mod Config
pub mod Batch
pub mod Proof
pub mod Chain
pub mod Process
pub mod Pin
mod Tests
