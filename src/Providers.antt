-- ===== src/Providers.antt =====
-- src/providers/.
pub mod Additions
pub mod Kind
pub mod Repository
pub mod Sampling
pub mod Selection
pub mod Tests
pub mod Weight
pub mod Weights
pub mod Lookup
pub mod Messages
