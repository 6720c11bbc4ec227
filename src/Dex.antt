-- ===== src/Dex.antt =====
-- The shared package packages/dex: assets, fees, spread checks and referrals.
pub mod Asset
pub mod Error
pub mod Spread
pub mod Oracle
pub mod Ownership
pub mod Querier
pub mod Referral
pub mod Tests
