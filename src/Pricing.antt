-- ===== src/Pricing.antt =====
-- The govarpricing package (internal/govarpricing/pricing.go): normalised provider prices, the hold
-- that a request reserves, and the settlement of the provider's usage against it.
pub mod Types
pub mod Charge
pub mod Usage
pub mod Inclusion
pub mod Digest
pub mod Snapshot
pub mod Reserve
pub mod Settle
pub mod Normalize
mod Tests
