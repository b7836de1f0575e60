-- ===== src/CosmWasm.antt =====
-- The CosmWasm privacy pool, cosmwasm/contracts/privacy-pool/src.
pub mod Outcome
pub mod Poseidon
pub mod State
pub mod Msg
pub mod Proof
pub mod Tree
pub mod Nullifiers
pub mod Contract
pub mod Run
pub mod Fixtures
mod Tests
