-- ===== src/Ink.antt =====
-- The privacy pool of ink/privacy-pool.
pub mod State
pub mod Tree
pub mod Proof
pub mod Pool
pub mod Message
pub mod History
pub mod Faithful
pub mod Steps
pub mod Reachable
pub mod Safety
pub mod Timeline
pub mod Fixtures
mod Tests
