-- ===== src/Relayer.antt =====
-- The relayer of relayer/src.
pub mod Types
pub mod Nonce
pub mod Engine
pub mod Aggregator
pub mod Watcher
pub mod Health
mod Tests
