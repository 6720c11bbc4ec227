-- ===== src/StablePool/Quote.antt =====
-- contracts/pool_stable/src/utils.rs: the amounts of a swap, the cumulative prices, and the search for
-- the trade that reaches a price.
use whelp_contracts.Prelude.{
  ℕ, zero, suc, Bool, true, false, not, ◌&&◌, Option, none, some, List, [], ◌∷◌, ltb, leb, ◌==◌,
  ◌+◌, ◌-◌, ◌*◌, ◌^◌, if◌then◌else◌,
}
use whelp_contracts.Outcome.{Outcome, ok, panic, ◌>>=◌, map_err}
use whelp_contracts.Num.{
  Decimals, one, u128_max, u256_max, fit, add, sub, checked_fit, mul_decimal, ratio,
}
use whelp_contracts.Dex.Error.{overflow, ContractError, std}
use whelp_contracts.Dex.Asset.{AssetInfoValidated, equal}
use whelp_contracts.Pool.Swap.{wrapping_add}
use whelp_contracts.StablePool.Amp.{Config, compute_current_amp}
use whelp_contracts.StablePool.Precision.{pow10, adjust_precision}
use whelp_contracts.StablePool.Select.{DecimalAsset, pool_at, select_pools}
use whelp_contracts.StablePool.Decimals.{to_uint128_with_precision}
use whelp_contracts.StablePool.Curve.{calc_y, apply_rate}
use whelp_contracts.StablePool.State.{Storage, get_precision}
pub mod Laws
pub mod Search

pub record SwapResult : Type 0 where
  pub return_amount : ℕ
  pub spread_amount : ℕ

-- `TWAP_PRECISION`
abbrev pub twap_precision : ℕ
twap_precision = 6

-- One unit of an asset.
abbrev pub unit_of : AssetInfoValidated → DecimalAsset
unit_of info = record { info = info; amount = one }

unfoldable pub all_positive : List DecimalAsset → Bool
all_positive [] = true
all_positive (p ∷ pools) = not (p.amount == 0) && all_positive pools

-- Times are in seconds.
module _ (dec : Decimals) where
  unfoldable pub compute_swap :
      Storage
      → ℕ
      → Config
      → DecimalAsset
      → DecimalAsset
      → DecimalAsset
      → List DecimalAsset
      → Outcome ContractError SwapResult
  compute_swap s now config offer_asset offer_pool ask_pool pools = do
    token_precision ← map_err std (get_precision s ask_pool.info)
    offered ← add u256_max offer_pool.amount offer_asset.amount
    amp ← map_err std (compute_current_amp config now)
    new_ask_pool ←
        map_err std (calc_y dec offer_asset ask_pool.info offered pools amp token_precision config)
    ask ← map_err std (to_uint128_with_precision ask_pool.amount token_precision)
    return_amount ← sub ask new_ask_pool
    offer_asset_amount ← map_err std (to_uint128_with_precision offer_asset.amount token_precision)
    ok (record {
      return_amount = return_amount;
      spread_amount =
          apply_rate offer_asset.info offer_asset_amount config
          - apply_rate ask_pool.info return_amount config;
    })

  -- The new value of one cumulative price.
  unfoldable pub accumulate_one :
      Storage
      → ℕ
      → Config
      → List DecimalAsset
      → ℕ
      → AssetInfoValidated
      → AssetInfoValidated
      → ℕ
      → Outcome ContractError ℕ
  accumulate_one s now config pools time_elapsed from to value = do
    (offer_pool, ask_pool) ← select_pools (some from) (some to) pools
    r ← compute_swap s now config (unit_of from) offer_pool ask_pool pools
    precision ← map_err std (get_precision s ask_pool.info)
    price ← map_err std (adjust_precision r.return_amount precision twap_precision)
    increment ← checked_fit (std overflow) u128_max (time_elapsed * price)
    ok (wrapping_add value increment)

  unfoldable pub accumulate_all :
      Storage
      → ℕ
      → Config
      → List DecimalAsset
      → ℕ
      → List (AssetInfoValidated × AssetInfoValidated × ℕ)
      → Outcome ContractError (List (AssetInfoValidated × AssetInfoValidated × ℕ))
  accumulate_all s now config pools time_elapsed [] = ok []
  accumulate_all s now config pools time_elapsed ((from, to, value) ∷ prices) = do
    value' ← accumulate_one s now config pools time_elapsed from to value
    rest ← accumulate_all s now config pools time_elapsed prices
    ok ((from, to, value') ∷ rest)

  -- Whether the configuration was changed, and the configuration.
  unfoldable pub accumulate_prices :
      Storage → ℕ → Config → List DecimalAsset → Outcome ContractError (Bool × Config)
  accumulate_prices s now config pools =
      if leb now config.block_time_last then ok (false, config) else do
        let time_elapsed = now - config.block_time_last
        prices ←
            if all_positive pools
            then accumulate_all s now config pools time_elapsed config.cumulative_prices
            else ok config.cumulative_prices
        let config' : Config = record config { cumulative_prices = prices; block_time_last = now }
        ok (true, config')

  unfoldable pub calc_spot_price :
      Storage
      → ℕ
      → Config
      → AssetInfoValidated
      → AssetInfoValidated
      → List DecimalAsset
      → Outcome ContractError ℕ
  calc_spot_price s now config offer ask pools = do
    (offer_pool, ask_pool) ← select_pools (some offer) (some ask) pools
    r ← compute_swap s now config (unit_of offer) offer_pool ask_pool pools
    precision ← map_err std (get_precision s ask_pool.info)
    fit u128_max (dec.from_atomics r.return_amount precision)

-- `asset_infos[i]`, with the panic past the end.
unfoldable pub info_at : List AssetInfoValidated → ℕ → Outcome ContractError AssetInfoValidated
info_at [] i = panic
info_at (info ∷ infos) zero = ok info
info_at (info ∷ infos) (suc i) = info_at infos i

-- The pools with `amount` of the offer in and as much of the ask asset out.
unfoldable pub pools_after_swap :
    AssetInfoValidated
    → AssetInfoValidated
    → List DecimalAsset
    → ℕ
    → Outcome ContractError (List DecimalAsset)
pools_after_swap offer ask [] amount = ok []
pools_after_swap offer ask (p ∷ pools) amount = do
  n ←
      if equal p.info offer
      then add u256_max p.amount amount
      else if equal p.info ask
      then sub p.amount amount
      else ok p.amount
  rest ← pools_after_swap offer ask pools amount
  ok (record p { amount = n } ∷ rest)

module _ (dec : Decimals) where
  unfoldable pub calc_new_price_a_per_b :
      Storage → ℕ → Config → List DecimalAsset → Outcome ContractError ℕ
  calc_new_price_a_per_b s now config pools = do
    offer ← info_at config.pool_info.asset_infos 1
    ask ← info_at config.pool_info.asset_infos 0
    calc_spot_price dec s now config offer ask pools

  module _ (s : Storage) (now : ℕ) (config : Config) (offer ask : AssetInfoValidated)
      (pools : List DecimalAsset) (target_price : ℕ) where
    unfoldable pub recurse_bisect_spot_price : ℕ → ℕ → ℕ → Outcome ContractError ℕ
    recurse_bisect_spot_price zero min_trade max_trade = do
      sum ← add u256_max min_trade max_trade
      ratio dec u256_max sum (2 * one)
    recurse_bisect_spot_price (suc iterations) min_trade max_trade = do
      sum ← add u256_max min_trade max_trade
      half ← ratio dec u256_max sum (2 * one)
      mid_pools ← pools_after_swap offer ask pools half
      mid_price ← calc_spot_price dec s now config offer ask mid_pools
      let low = if ltb target_price mid_price then half else min_trade
      let high = if ltb target_price mid_price then max_trade else half
      let rest = recurse_bisect_spot_price iterations low high
      if mid_price == target_price then ok half else rest

    unfoldable pub find_spot_price : ℕ → ℕ → Outcome ContractError (Option ℕ)
    find_spot_price max_trade iterations = do
      precision ← map_err std (get_precision s offer)
      trade ← fit u256_max (dec.from_atomics max_trade precision)
      current ← calc_spot_price dec s now config offer ask pools
      if leb current target_price then ok none else do
        max_pools ← pools_after_swap offer ask pools trade
        all_in ← calc_spot_price dec s now config offer ask max_pools
        trade' ←
            if ltb all_in target_price
            then recurse_bisect_spot_price iterations 0 trade
            else ok trade
        scale ← map_err std (pow10 precision)
        amount ← mul_decimal dec u256_max scale trade'
        n ← fit u128_max amount
        ok (some n)
