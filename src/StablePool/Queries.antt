-- ===== src/StablePool/Queries.antt =====
-- contracts/pool_stable/src/contract.rs: the queries of the stable pool. Their errors are those of the
-- handlers, which the source turns into the text of a `StdError`. The decimals of cw20 tokens and the
-- total fee rate of the factory's `query_fee_info` are parameters.
use whelp_contracts.Prelude.{
  ℕ, String, Bool, true, false, not, ◌&&◌, ◌-◌, ◌==◌, Option, some, List, [], ◌∷◌, if◌then◌else◌,
}
use whelp_contracts.Outcome.{Outcome, ok, err, panic, ◌>>=◌, map_err}
use whelp_contracts.Num.{Decimals, one, u256_max, sub, checked_sub, checked_fit}
use whelp_contracts.Dex.Error.{StdError, overflow, ContractError, std}
use whelp_contracts.Dex.Asset.{
  Api, Asset, AssetInfo, AssetInfoValidated, AssetValidated, validate_asset, check_swap_parameters,
}
use whelp_contracts.Dex.Oracle.{seconds}
use whelp_contracts.Dex.Spread.{get_share_in_assets, total_fee_rate}
use whelp_contracts.Dex.Referral.{is_waived, take_referral, add_referral}
use whelp_contracts.Dex.Querier.{Querier, query_balance}
use whelp_contracts.Pool.State.{PoolType}
use whelp_contracts.Pool.Queries.{
  PoolResponse, SimulationResponse, ReverseSimulationResponse, CumulativePricesResponse,
}
use whelp_contracts.StablePool.Amp.{compute_current_amp}
use whelp_contracts.StablePool.Precision.{adjust_precision}
use whelp_contracts.StablePool.Select.{DecimalAsset, select_pools}
use whelp_contracts.StablePool.Decimals.{
  to_uint128_with_precision, with_precision, to_decimal_asset,
}
use whelp_contracts.StablePool.Curve.{calc_y}
use whelp_contracts.StablePool.State.{Storage, load_config, get_precision, decimals}
use whelp_contracts.StablePool.Quote.{compute_swap, accumulate_prices}
use whelp_contracts.StablePool.Swap.{checked_mul_uint128, validate_optional, whole_amounts}
use whelp_contracts.StablePool.Withdraw.{pool_info}

-- The answer where the parameters of a swap are refused, and else what follows.
unfoldable pub checked_or {ℓ} :
    {A : Type ℓ}
    → Outcome StdError (Unit {0})
    → A
    → Outcome ContractError A
    → Outcome ContractError A
checked_or (ok done) refused answer = answer
checked_or (err e) refused answer = ok refused
checked_or panic refused answer = panic

module _ (dec : Decimals) where
  -- The balances as decimals.
  unfoldable pub decimal_pools :
      Storage → List AssetValidated → Outcome StdError (List DecimalAsset)
  decimal_pools s [] = ok []
  decimal_pools s (a ∷ assets) = do
    precision ← get_precision s a.info
    d ← to_decimal_asset dec a precision
    rest ← decimal_pools s assets
    ok (d ∷ rest)

  module _ (querier : Querier) (token_decimals : String → Outcome StdError ℕ) where
    unfoldable pub query_pools_decimal :
        List AssetInfoValidated → String → Outcome StdError (List DecimalAsset)
    query_pools_decimal [] contract = ok []
    query_pools_decimal (i ∷ infos) contract = do
      balance ← query_balance querier i contract
      precision ← decimals token_decimals i
      amount ← with_precision dec balance precision
      rest ← query_pools_decimal infos contract
      ok (record { info = i; amount = amount } ∷ rest)

    unfoldable pub query_pool : Storage → Outcome ContractError PoolResponse
    query_pool s = do
      config ← load_config s
      (assets, total_share) ← pool_info dec querier s config
      ok (record { assets = assets; total_share = total_share })

    unfoldable pub query_share : Storage → ℕ → Outcome ContractError (List AssetValidated)
    query_share s amount = do
      config ← load_config s
      (pools, total_share) ← pool_info dec querier s config
      get_share_in_assets dec pools amount total_share

    unfoldable pub query_simulation :
        Api
        → ℕ
        → Storage
        → Asset
        → Option AssetInfo
        → Bool
        → Option ℕ
        → Outcome ContractError SimulationResponse
    query_simulation api now s asset ask referral referral_commission = do
      offer ← map_err std (validate_asset api asset)
      ask_info ← map_err std (validate_optional api ask)
      config ← load_config s
      pools ←
          map_err std
            (query_pools_decimal config.pool_info.asset_infos config.pool_info.contract_addr)
      (left, referral_amount) ←
          if referral
          then (do
            factory_config ← map_err std (querier.factory_config config.factory_addr)
            take_referral dec factory_config.max_referral_commission referral_commission offer)
          else ok (offer, 0)
      (offer_pool, ask_pool) ← select_pools (some left.info) ask_info pools
      offer_precision ← map_err std (get_precision s offer_pool.info)
      whole ← map_err std (whole_amounts s pools)
      let refused : SimulationResponse = record {
        return_amount = 0;
        spread_amount = 0;
        commission_amount = 0;
        referral_amount = 0;
      }
      checked_or (check_swap_parameters whole left.amount) refused (do
        offered ← map_err std (to_decimal_asset dec left offer_precision)
        r ← compute_swap dec s (seconds now) config offered offer_pool ask_pool pools
        let rate = total_fee_rate dec config.pool_info.fee_config
        commission_amount ← map_err std (checked_mul_uint128 rate r.return_amount)
        ok (record {
          return_amount = r.return_amount - commission_amount;
          spread_amount = r.spread_amount;
          commission_amount = commission_amount;
          referral_amount = referral_amount;
        }))

    -- The amount with the commission on top.
    unfoldable pub before_commission : ℕ → ℕ → ℕ → Outcome ContractError ℕ
    before_commission rate amount precision = do
      left ← sub one rate
      d ← map_err std (with_precision dec amount precision)
      checked_fit (std overflow) u256_max
          (dec.mul_floor (if left == 0 then one else dec.inv left) d)

    -- `add_referral` asks the factory only where there may be a commission.
    unfoldable pub max_commission : String → Bool → Outcome ContractError ℕ
    max_commission factory_addr false = ok 0
    max_commission factory_addr true = do
      factory_config ← map_err std (querier.factory_config factory_addr)
      ok factory_config.max_referral_commission

    unfoldable pub query_reverse_simulation :
        Api
        → (String → PoolType → Outcome StdError ℕ)
        → ℕ
        → Storage
        → Asset
        → Option AssetInfo
        → Bool
        → Option ℕ
        → Outcome ContractError ReverseSimulationResponse
    query_reverse_simulation api fee_rate now s asset offer_info referral referral_commission = do
      ask ← map_err std (validate_asset api asset)
      offer ← map_err std (validate_optional api offer_info)
      config ← load_config s
      pools ←
          map_err std
            (query_pools_decimal config.pool_info.asset_infos config.pool_info.contract_addr)
      (offer_pool, ask_pool) ← select_pools offer (some ask.info) pools
      offer_precision ← map_err std (get_precision s offer_pool.info)
      ask_precision ← map_err std (get_precision s ask.info)
      whole ← map_err std (whole_amounts s pools)
      let refused : ReverseSimulationResponse = record {
        offer_amount = 0;
        spread_amount = 0;
        commission_amount = 0;
        referral_amount = 0;
      }
      let greatest = config.greatest_precision
      checked_or (check_swap_parameters whole ask.amount) refused (do
        rate ← map_err std (fee_rate config.factory_addr config.pool_info.pool_type)
        before ← before_commission rate ask.amount ask_precision
        left ← sub ask_pool.amount before
        amp ← map_err std (compute_current_amp config (seconds now))
        new_offer ← map_err std (calc_y dec ask_pool offer_pool.info left pools amp greatest config)
        old_offer ← map_err std (to_uint128_with_precision offer_pool.amount greatest)
        added ← checked_sub (std overflow) new_offer old_offer
        offer_amount ← map_err std (adjust_precision added greatest offer_precision)
        max ← max_commission config.factory_addr (referral && not (is_waived referral_commission))
        let offered : AssetValidated = record { info = offer_pool.info; amount = offer_amount }
        (total, referral_amount) ← add_referral dec max referral referral_commission offered
        ideal ← map_err std (to_uint128_with_precision before offer_precision)
        whole_before ← map_err std (to_uint128_with_precision before ask_precision)
        commission_amount ← map_err std (checked_mul_uint128 rate whole_before)
        ok (record {
          offer_amount = total.amount;
          spread_amount = offer_amount - ideal;
          commission_amount = commission_amount;
          referral_amount = referral_amount;
        }))

    unfoldable pub query_cumulative_prices :
        ℕ → Storage → Outcome ContractError CumulativePricesResponse
    query_cumulative_prices now s = do
      config ← load_config s
      (assets, total_share) ← pool_info dec querier s config
      pools ← map_err std (decimal_pools s assets)
      (changed, config') ← accumulate_prices dec s (seconds now) config pools
      ok (record {
        assets = assets;
        total_share = total_share;
        cumulative_prices = config'.cumulative_prices;
      })

-- The `block_time_last` of `ConfigResponse`; its other two fields are none.
unfoldable pub query_config : Storage → Outcome ContractError ℕ
query_config s = do config ← load_config s; ok config.block_time_last
