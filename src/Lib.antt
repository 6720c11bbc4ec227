-- ===== src/Lib.antt =====
-- Verification of the WHELP contracts: the staking contract with its bonding and rewards, the constant
-- product pool, the price oracle that it writes, the change of a contract's owner, swaps over several
-- pools, the factory, the stable pool, and the fee splitter.
--
-- The staking contract (contracts/stake) keeps LP shares that are bonded for unbonding periods, turns
-- them into claims when they are unbonded, and distributes rewards over the powers of the stakers. It
-- uses the package packages/dex for assets, and so does the pool (contracts/pool), which holds two
-- assets, swaps one for the other, and issues LP shares for deposits; the two contracts meet only
-- through the LP share denom. Every change of a pool's balances goes to the oracle of packages/dex.
-- The part of the fees that is the protocol's goes to an address of the factory's configuration, which
-- may be the fee splitter (contracts/fee_splitter), which passes balances on by weights. A swap over
-- several pools is a list of messages that contracts/multi-hop sends to itself, and from there to pools.
--
-- The factory (contracts/factory) keeps the registry of the pools: it creates a pool in two steps, a
-- message to the chain and its reply, and a pool asks it for its fee configuration.
--
-- The files:
-- - Prelude, Outcome, Num, Int: shared names; how a call ends (a value, an error or a panic, where an
--   error and a panic roll the storage back); the numbers of the contracts with their range checks;
--   and `i128`.
-- - Dex/Error, Dex/Asset: packages/dex/src/pool/error.rs and packages/dex/src/asset.rs.
-- - Dex/Spread, Dex/Referral: packages/dex/src/pool/utils.rs, packages/dex/src/fee_config.rs and
--   packages/dex/src/pool/referral.rs, with what they guarantee in their Laws.
-- - Dex/Querier: what a handler is called with, and the queries of packages/dex/src/querier.rs and
--   asset.rs, as a record of answers.
-- - Dex/Oracle: packages/dex/src/oracle.rs. Below it, Buffer is `Prices::accumulate` and
--   `calc_checkpoint`, Store the two writes, Query the queries; Shift, Invariant and Range are about
--   them. A `Twap` is the atomics of its `Decimal256`.
-- - Dex/Ownership: packages/dex/src/common.rs; Laws puts the three operations together as a machine.
-- - Pool/State, Pool/Swap, Pool/Liquidity, Pool/Withdraw, Pool/Contract, Pool/Queries: the storage of
--   contracts/pool/src/state.rs and the handlers and queries of contracts/pool/src/contract.rs, under
--   their names, with packages/dex/src/pool.rs and packages/dex/src/pool/instantiate.rs. A handler
--   takes the call and the storage and gives the new storage and the messages. `Roots` stands for the
--   integer square root of cosmwasm_std; Liquidity/Laws has an instance. Below Contract, Execute is the
--   dispatch, Access is about permissions, Frame about what stays, and Minted about the shares.
-- - TextMap: a map of cw-storage-plus from texts, as an association list in the order of the keys; Order
--   and Laws are about it.
-- - Factory: contracts/factory/src/state.rs and error.rs with packages/dex/src/factory.rs. Create,
--   Registry and Contract are the handlers of contracts/factory/src/contract.rs, under their names, and
--   Queries the queries. Below Contract, Access is about permissions, and Invariant and History about
--   the storage. Laws is about the registration of pools, and Deploy about the factory and a pool.
-- - MultiHop: contracts/multi-hop/src/contract.rs, msg.rs, state.rs and error.rs; Simulate is the two
--   simulations of a route, Laws is about which routes are accepted.
-- - StablePool: contracts/pool_stable. Amp is the change of the amplification (`compute_current_amp` of
--   utils.rs, `update_config` of contract.rs), Curve is math.rs, Precision, Select and Quote are
--   utils.rs, State is state.rs, and Decimals the `Decimal256Ext` of packages/dex/src/asset.rs. Swap,
--   Liquidity, Withdraw, Contract and Queries are the handlers and queries of contract.rs, under their
--   names, with their Laws; Withdraw/Given and Withdraw/Shares are about the balances and the shares of
--   a withdrawal, and Quote/Search is about the search for a price. The bounds of the loops,
--   32 steps and `iterations`, are the source's.
-- - Splitter: contracts/fee_splitter/src/contract.rs, state.rs and error.rs.
-- - Pool/Curve: `compute_swap`, `compute_offer_amount` and `assert_slippage_tolerance` of
--   contracts/pool/src/contract.rs; Laws is about swaps and Offer about the reverse quote.
-- - Stake/Error, Stake/Bonding, Stake/State: the errors, `BondingInfo`, the storage and the powers of
--   contracts/stake/src/error.rs, state.rs and utils.rs. The storage is one record; the map of stakes is
--   a list by period for each address. Bonding/Laws and Bonding/Order are about the tokens and the
--   locks of one entry, and State/Map about writing an entry.
-- - Stake/Totals: `update_total_stake`.
-- - Stake/Rewards: `update_rewards`, `apply_points_correction`, `withdrawable_rewards` and the body of
--   `execute_distribute_rewards`. Laws, Shares and Solvency follow the points of a distribution.
-- - Stake/Chain: what the contract uses and does not implement, as a record: address validation,
--   balances, the curves of wynd-curve-utils, the claims and the admin of cw-controllers.
-- - Stake/Bond, Stake/Flows, Stake/Contract, Stake/Queries: the handlers of
--   contracts/stake/src/contract.rs and distribution.rs, under their names, and `execute`. A handler
--   takes the storage and the call and gives the new storage and the messages. Bond/Laws and
--   Bond/Rebond say what bonding does, Flows/Withdraw what rewards do; below Contract, Access is about
--   permissions, Unbond and Empties about the quick unbond, and Frame, Flows, Quick, Invariant, Reach
--   and History build the invariant of the storage.
-- - Tests modules: runs on concrete values.
--
-- Numbers are natural numbers with explicit checks: an operator that leaves its range panics, as
-- Cargo.toml sets `overflow-checks`, and a cast wraps. A `Decimal` is the number of its atomics, and
-- the arithmetic of cosmwasm_std, which is not part of the repository, is the record `Decimals`, whose
-- laws state its rounding; `floors` is an instance. Loops over storage are recursion on lists, so no
-- fuel is needed; the loops of the stable pool have bounds of their own. The release profile is
-- modelled, and gas is not.
--
-- Not modelled: the attributes of responses, the encoding of keys and messages, the query of
-- annualized rewards, the version checks of the migrations of multi-hop and the factory, and in the stable
-- pool `compute_offer_amount` and `query_compute_d`, which nothing calls.
pub mod Prelude
pub mod Outcome
pub mod Num
pub mod Int
pub mod Dex
pub mod Pool
pub mod MultiHop
pub mod Splitter
pub mod StablePool
pub mod Factory
pub mod TextMap
pub mod Stake
