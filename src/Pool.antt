-- ===== src/Pool.antt =====
-- contracts/pool: the constant product pool.
pub mod Curve
pub mod Contract
pub mod Liquidity
pub mod State
pub mod Swap
pub mod Tests
pub mod Queries
pub mod Withdraw
