-- ===== src/Stake.antt =====
-- contracts/stake: bonded LP shares, unbonding claims and reward distributions.
pub mod Error
pub mod Bonding
pub mod State
pub mod Queries
pub mod Totals
pub mod Rewards
pub mod Chain
pub mod Bond
pub mod Flows
pub mod Contract
pub mod Tests
