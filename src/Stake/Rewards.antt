-- ===== src/Stake/Rewards.antt =====
-- contracts/stake: the rewards of one address in one distribution, and how a distribution takes up
-- the tokens that came in.
pub mod Laws
pub mod Shares
pub mod Solvency
use whelp_contracts.Prelude.{ℕ, ◌+◌, ◌*◌, ◌/◌, ◌%◌, ◌^◌, ◌==◌, if◌then◌else◌}
use whelp_contracts.Outcome.{Outcome, ok, ◌>>=◌, map_err}
use whelp_contracts.Num.{Decimals, u128_max, fit, add, sub, mul, div}
use whelp_contracts.Int.{ℤ, pos, ◌+ℤ◌, ◌-ℤ◌, ◌*ℤ◌, as_i128, as_u128, fit_i128}
use whelp_contracts.Dex.Error.{StdError}
use whelp_contracts.Stake.Error.{ContractError, std}
use whelp_contracts.Stake.State.{
  Config, Stakes, Totals, Distribution, WithdrawAdjustment, calc_rewards_power, total_rewards_power,
}

-- `SHARES_SHIFT` as a factor.
abbrev pub shares_scale : ℕ
shares_scale = 2 ^ 32

unfoldable pub apply_points_correction :
    WithdrawAdjustment → ℕ → ℤ → Outcome ContractError WithdrawAdjustment
apply_points_correction old shares_per_point diff = do
  p ← fit_i128 (as_i128 shares_per_point *ℤ diff)
  c ← fit_i128 (old.shares_correction -ℤ p)
  ok (record old { shares_correction = c })

unfoldable pub update_rewards :
    WithdrawAdjustment → Distribution → ℕ → ℕ → Outcome ContractError WithdrawAdjustment
update_rewards adjustment d old_power new_power =
    if old_power == new_power then ok adjustment else do
      diff ← fit_i128 (as_i128 new_power -ℤ as_i128 old_power)
      apply_points_correction adjustment d.shares_per_point diff

-- The part of `withdrawable_rewards` after the power is known.
unfoldable pub rewards_of_power : Distribution → WithdrawAdjustment → ℕ → Outcome ContractError ℕ
rewards_of_power d adjustment power = do
  product ← mul u128_max d.shares_per_point power
  points ← fit_i128 (as_i128 product +ℤ adjustment.shares_correction)
  sub (as_u128 points / shares_scale) adjustment.withdrawn_rewards

module _ (dec : Decimals) where
  unfoldable pub withdrawable_rewards :
      Config → Stakes → Distribution → WithdrawAdjustment → Outcome ContractError ℕ
  withdrawable_rewards cfg stakes d adjustment = do
    power ← calc_rewards_power dec cfg stakes d
    rewards_of_power d adjustment power

-- The shares that `amount` tokens give. `<<` drops the bits that leave the 128, and the remainder is
-- cast to `u64`.
unfoldable pub add_shares : Distribution → ℕ → ℕ → Outcome ContractError Distribution
add_shares d amount total_rewards = do
  points ← add u128_max (amount * shares_scale % 2 ^ 128) d.shares_leftover
  per_share ← div points total_rewards
  per_point ← add u128_max d.shares_per_point per_share
  distributed ← add u128_max d.distributed_total amount
  withdrawable ← add u128_max d.withdrawable_total amount
  ok (record d {
    shares_per_point = per_point;
    shares_leftover = points % total_rewards % 2 ^ 64;
    distributed_total = distributed;
    withdrawable_total = withdrawable;
  })

module _ (dec : Decimals) where
  -- The body of the loop of `execute_distribute_rewards`: `balance` is the answer to the query of
  -- the contract's balance of the asset, and `reserved` the load of its reward curve, with the value at the block time.
  unfoldable pub distribute_one :
      Config
      → Totals
      → Outcome StdError ℕ
      → Outcome ContractError ℕ
      → Distribution
      → Outcome ContractError Distribution
  distribute_one cfg totals balance reserved d = do
    total_rewards ← total_rewards_power dec cfg totals d
    if total_rewards == 0 then ok d else do
      held ← map_err std balance
      locked ← reserved
      free ← sub held d.withdrawable_total
      amount ← sub free locked
      if amount == 0 then ok d else add_shares d amount total_rewards
