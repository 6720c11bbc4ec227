-- ===== src/Stake/Flows.antt =====
-- contracts/stake: creating and funding distribution flows, distributing rewards and withdrawing
-- them (contract.rs and distribution.rs).
pub mod Withdraw
use whelp_contracts.Prelude.{
  ℕ, ◌+◌, ◌-◌, ◌/◌, ◌^◌, String, Bool, true, false, not, ◌&&◌, ◌||◌, Option, some, none, List, [],
  ◌∷◌, ◌++◌, leb, ltb, ◌==◌, str_eq, unwrap_or, length, if◌then◌else◌,
}
use whelp_contracts.Outcome.{Outcome, ok, err, ◌>>=◌, ◌>>◌, ensure, fail_if, map_err, ok_or}
use whelp_contracts.Num.{Decimals, u64_max, u128_max, add, sub}
use whelp_contracts.Dex.Error.{not_found}
use whelp_contracts.Dex.Asset.{
  AssetInfo, AssetInfoValidated, AssetValidated, Coin, Msg, equal, into_msg, validate_info,
  validate_address, addr_opt_validate,
}
use whelp_contracts.Stake.Error.{
  ContractError, std, admin, invalid_asset, invalid_rewards, too_many_distributions, unauthorized,
  distribution_already_exists, no_distribution_flow, cannot_distribute_if_unbond_all,
  past_starting_time, curve,
}
use whelp_contracts.Stake.State.{
  Config, State, Distribution, Distributions, Totals, WithdrawAdjustment, no_adjustment, at_addr,
  at_asset, Stakes,
}
use whelp_contracts.Stake.Rewards.{distribute_one, withdrawable_rewards}
use whelp_contracts.Stake.Chain.{Chain, Call}
use whelp_contracts.Stake.Bond.{Adjustments, Storage, Done}

-- The periods of the rewards are those of the configuration, in order.
unfoldable pub same_periods : List (ℕ × ℕ) → List ℕ → Bool
same_periods [] [] = true
same_periods ((p, m) ∷ rs) (q ∷ qs) = p == q && same_periods rs qs
same_periods _ _ = false

-- `rewards.windows(2).any(|w| w[0].1 > w[1].1)`.
unfoldable pub decreases : ℕ → List (ℕ × ℕ) → Bool
decreases m [] = false
decreases m ((p, n) ∷ rs) = ltb n m || decreases n rs

unfoldable pub any_decrease : List (ℕ × ℕ) → Bool
any_decrease [] = false
any_decrease ((p, m) ∷ rs) = decreases m rs

unfoldable pub has_asset : AssetInfoValidated → Distributions → Bool
has_asset a [] = false
has_asset a ((b, d) ∷ ds) = equal b a || has_asset a ds

unfoldable pub is_lp_share : AssetInfoValidated → String → Bool
is_lp_share (AssetInfoValidated.smart_token denom) share = str_eq denom share
is_lp_share (AssetInfoValidated.cw20_token a) share = false

-- The denoms of the native assets that have a distribution.
unfoldable pub is_supported : String → Distributions → Bool
is_supported denom [] = false
is_supported denom ((a, d) ∷ ds) = is_lp_share a denom || is_supported denom ds

unfoldable pub check_funds : List Coin → Distributions → Outcome ContractError (Unit {0})
check_funds [] ds = ok tt
check_funds (c ∷ cs) ds =
    let rest = check_funds cs ds in
    if is_supported c.denom ds then rest else err (no_distribution_flow c.denom)

-- `FundingInfo` of packages/dex/src/stake.rs.
pub record FundingInfo : Type 0 where
  pub start_time : ℕ
  pub distribution_duration : ℕ
  pub amount : ℕ

-- `block.time.seconds()`.
abbrev pub seconds : ℕ → ℕ
seconds now = now / 10 ^ 9

module _ (dec : Decimals) (chain : Chain) where
  open chain use {
    api, balance, Curve, Claims, curve_constant, curve_saturating, curve_range, curve_combine,
    curve_value, curve_decreasing, is_admin,
  }

  -- A new flow is put at the end of the list; the storage sorts the flows by their keys.
  unfoldable pub execute_create_distribution_flow :
      Storage dec chain → Call → String → AssetInfo → List (ℕ × ℕ) → Done dec chain
  execute_create_distribution_flow s call manager asset rewards = do
    ensure (is_admin s.admin call.sender) admin
    asset' ← map_err std (validate_info api asset)
    manager' ← map_err std (validate_address api manager)
    fail_if (is_lp_share asset' s.config.lp_share_denom) invalid_asset
    ensure (same_periods rewards s.config.unbonding_periods) invalid_rewards
    fail_if (any_decrease rewards) invalid_rewards
    fail_if (leb s.config.max_distributions (length s.distributions))
        (too_many_distributions s.config.max_distributions)
    fail_if (has_asset asset' s.distributions) distribution_already_exists
    ok (
      record s {
        curves = at_asset asset' (some (curve_constant 0)) s.curves;
        distributions =
            s.distributions
            ++ (
              asset',
              record {
                shares_per_point = 0;
                shares_leftover = 0;
                distributed_total = 0;
                withdrawable_total = 0;
                manager = manager';
                reward_multipliers = rewards;
              },
            )
              ∷ [];
      },
      [],
    )

  unfoldable pub update_reward_config :
      Storage dec chain
      → AssetInfoValidated
      → ℕ
      → FundingInfo
      → Outcome ContractError (Storage dec chain)
  update_reward_config s asset sent_amount funding = do
    previous ← ok_or (s.curves asset) (std not_found)
    end_time ← add u64_max funding.start_time funding.distribution_duration
    let schedule = curve_saturating funding.start_time funding.amount end_time
    let r = curve_range schedule
    fail_if (not (r.0 == 0) || ltb sent_amount r.1) invalid_rewards
    let combined = curve_combine previous schedule
    ensure (curve_decreasing combined) curve
    ok (record s { curves = at_asset asset (some combined) s.curves })

  unfoldable pub fund_all :
      FundingInfo → List Coin → Storage dec chain → Outcome ContractError (Storage dec chain)
  fund_all funding [] s = ok s
  fund_all funding (c ∷ cs) s = do
    asset ← map_err std (validate_info api (AssetInfo.smart_token c.denom))
    s' ← update_reward_config s asset c.amount funding
    fund_all funding cs s'

  unfoldable pub execute_fund_distribution : Storage dec chain → Call → FundingInfo → Done dec chain
  execute_fund_distribution s call funding = do
    fail_if s.unbond_all cannot_distribute_if_unbond_all
    fail_if (ltb funding.start_time (seconds call.now)) past_starting_time
    s' ← fund_all funding call.funds s
    ok (s', [])

  -- The `ReceiveMsg::Fund` of a cw20 token: the caller is the token's contract.
  unfoldable pub execute_receive : Storage dec chain → Call → ℕ → FundingInfo → Done dec chain
  execute_receive s call amount funding = do
    fail_if s.unbond_all cannot_distribute_if_unbond_all
    fail_if (ltb funding.start_time (seconds call.now)) past_starting_time
    asset ← map_err std (validate_info api (AssetInfo.cw20_token call.sender))
    s' ← update_reward_config s asset amount funding
    ok (s', [])

  -- The curve's value at the block time, `REWARD_CURVE.load` included.
  unfoldable pub reserved_now : Option Curve → ℕ → Outcome ContractError ℕ
  reserved_now found now = do c ← ok_or found (std not_found); ok (curve_value c (seconds now))

  -- The loop of `execute_distribute_rewards`.
  unfoldable pub distribute_all :
      Config
      → Totals
      → (AssetInfoValidated → Option Curve)
      → ℕ
      → Distributions
      → Outcome ContractError Distributions
  distribute_all cfg totals curves now [] = ok []
  distribute_all cfg totals curves now ((asset, d) ∷ ds) = do
    d' ← distribute_one dec cfg totals (balance asset) (reserved_now (curves asset) now) d
    ds' ← distribute_all cfg totals curves now ds
    ok ((asset, d') ∷ ds')

  unfoldable pub execute_distribute_rewards :
      Storage dec chain → Call → Option String → Done dec chain
  execute_distribute_rewards s call sender = do
    fail_if s.unbond_all cannot_distribute_if_unbond_all
    sender' ← map_err std (addr_opt_validate api sender)
    check_funds call.funds s.distributions
    ds ← distribute_all s.config s.totals s.curves call.now s.distributions
    ok (record s { distributions = ds }, [])

  -- The body of the loop of `execute_withdraw_rewards`: the distribution, the adjustments and the
  -- transfer, if the reward is not zero.
  unfoldable pub withdraw_one :
      Config
      → Stakes
      → String
      → String
      → AssetInfoValidated
      → Distribution
      → Adjustments
      → Outcome ContractError (Distribution × Adjustments × List Msg)
  withdraw_one cfg stakes owner receiver asset d adjustments = do
    let a = unwrap_or (adjustments owner asset) no_adjustment
    reward ← withdrawable_rewards dec cfg stakes d a
    if reward == 0 then ok (d, adjustments, []) else do
      withdrawn ← add u128_max a.withdrawn_rewards reward
      left ← sub d.withdrawable_total reward
      let a' : WithdrawAdjustment = record a { withdrawn_rewards = withdrawn }
      let paid : AssetValidated = record { info = asset; amount = reward }
      ok (
        record d { withdrawable_total = left },
        at_addr owner (at_asset asset (some a') (adjustments owner)) adjustments,
        into_msg paid receiver ∷ [],
      )

  unfoldable pub withdraw_all :
      Config
      → Stakes
      → String
      → String
      → Distributions
      → Adjustments
      → Outcome ContractError (Distributions × Adjustments × List Msg)
  withdraw_all cfg stakes owner receiver [] adjustments = ok ([], adjustments, [])
  withdraw_all cfg stakes owner receiver ((asset, d) ∷ ds) adjustments = do
    one ← withdraw_one cfg stakes owner receiver asset d adjustments
    rest ← withdraw_all cfg stakes owner receiver ds one.1
    ok ((asset, one.0) ∷ rest.0, rest.1, one.2 ++ rest.2)

  unfoldable pub execute_withdraw_rewards :
      Storage dec chain → Call → Option String → Option String → Done dec chain
  execute_withdraw_rewards s call owner receiver = do
    owner' ← map_err std (addr_opt_validate api owner)
    receiver' ← map_err std (addr_opt_validate api receiver)
    let o = unwrap_or owner' call.sender
    let to = unwrap_or receiver' call.sender
    let delegated = unwrap_or (s.delegated o) o
    ensure (str_eq o call.sender || str_eq delegated call.sender) unauthorized
    r ← withdraw_all s.config (s.stakes o) o to s.distributions s.adjustments
    ok (record s { distributions = r.0; adjustments = r.1 }, r.2)

  unfoldable pub execute_delegate_withdrawal : Storage dec chain → Call → String → Done dec chain
  execute_delegate_withdrawal s call delegated = do
    d ← map_err std (validate_address api delegated)
    ok (record s { delegated = at_addr call.sender (some d) s.delegated }, [])
