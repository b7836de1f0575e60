-- ===== src/Pallet.antt =====
-- The privacy pool of pallets/privacy-pool.
pub mod State
pub mod Poseidon
pub mod Verifier
pub mod Tree
pub mod Nullifiers
pub mod Pool
pub mod Call
pub mod Effects
pub mod Faithful
pub mod Reachable
pub mod Field
pub mod Solvent
pub mod Timeline
pub mod Redirect
pub mod Authority
pub mod Fixtures
mod Tests
pub mod Xcm
