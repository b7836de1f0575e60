-- ===== src/Near.antt =====
-- The privacy pool of near/contracts/privacy-pool.
pub mod State
pub mod Hash
pub mod Verifier
pub mod Tree
pub mod Nullifiers
pub mod Key
pub mod Pool
pub mod Fixtures
mod Tests
