-- ===== src/StablePool.antt =====
-- contracts/pool_stable: its amplification, the precision of amounts, the pools of a swap, the curve,
-- and the handlers.
pub mod Amp
pub mod Precision
pub mod Select
pub mod Decimals
pub mod Curve
pub mod State
pub mod Quote
pub mod Swap
pub mod Liquidity
pub mod Withdraw
pub mod Contract
pub mod Queries
pub mod Tests
