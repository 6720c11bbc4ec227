-- ===== src/Pool/Queries.antt =====
-- contracts/pool/src/contract.rs: the queries of the constant product pool. Their errors are those
-- of the handlers, which the source turns into the text of a `StdError`.
use whelp_contracts.Prelude.{
  ℕ, Bool, true, false, not, ◌&&◌, Option, none, some, List, [], ◌∷◌, if◌then◌else◌,
}
use whelp_contracts.Outcome.{Outcome, ok, ◌>>=◌, map_err}
use whelp_contracts.Num.{Decimals}
use whelp_contracts.Dex.Error.{ContractError, std}
use whelp_contracts.Dex.Asset.{Api, Asset, AssetInfoValidated, AssetValidated, validate_asset}
use whelp_contracts.Dex.Spread.{get_share_in_assets, total_fee_rate}
use whelp_contracts.Dex.Referral.{is_waived, take_referral, add_referral}
use whelp_contracts.Dex.Querier.{Querier, query_pools}
use whelp_contracts.Pool.Curve.{compute_swap, compute_offer_amount}
use whelp_contracts.Pool.State.{Config, Storage, load_config, at, pool_info}
use whelp_contracts.Pool.Swap.{accumulate_prices, choose_pools}

pub record PoolResponse : Type 0 where
  pub assets : List AssetValidated
  pub total_share : ℕ

pub record SimulationResponse : Type 0 where
  pub return_amount : ℕ
  pub spread_amount : ℕ
  pub commission_amount : ℕ
  pub referral_amount : ℕ

pub record ReverseSimulationResponse : Type 0 where
  pub offer_amount : ℕ
  pub spread_amount : ℕ
  pub commission_amount : ℕ
  pub referral_amount : ℕ

pub record CumulativePricesResponse : Type 0 where
  pub assets : List AssetValidated
  pub total_share : ℕ
  pub cumulative_prices : List (AssetInfoValidated × AssetInfoValidated × ℕ)

-- The balances that the curve is asked with: those of the asset and of the other one.
abbrev pub pools_of :
    Querier → Config → AssetInfoValidated → Outcome ContractError (AssetValidated × AssetValidated)
pools_of querier config i = do
  pools ←
      map_err std (query_pools querier config.pool_info.asset_infos config.pool_info.contract_addr)
  pool0 ← at pools 0
  pool1 ← at pools 1
  choose_pools i pool0 pool1

-- `add_referral` asks the factory only where there may be a commission.
abbrev pub max_commission : Querier → Config → Bool → Outcome ContractError ℕ
max_commission querier config false = ok 0
max_commission querier config true = do
  factory_config ← map_err std (querier.factory_config config.factory_addr)
  ok factory_config.max_referral_commission

module _ (dec : Decimals) (querier : Querier) (api : Api) where
  unfoldable pub query_pool : Storage → Outcome ContractError PoolResponse
  query_pool s = do
    config ← load_config s
    (assets, total_share) ← pool_info querier s config
    ok (record { assets = assets; total_share = total_share })

  unfoldable pub query_share : Storage → ℕ → Outcome ContractError (List AssetValidated)
  query_share s amount = do
    config ← load_config s
    (pools, total_share) ← pool_info querier s config
    get_share_in_assets dec pools amount total_share

  unfoldable pub query_simulation :
      Storage → Asset → Bool → Option ℕ → Outcome ContractError SimulationResponse
  query_simulation s asset referral referral_commission = do
    offer ← map_err std (validate_asset api asset)
    config ← load_config s
    (left, referral_amount) ←
        if referral
        then (do
          factory_config ← map_err std (querier.factory_config config.factory_addr)
          take_referral dec factory_config.max_referral_commission referral_commission offer)
        else ok (offer, 0)
    (offer_pool, ask_pool) ← pools_of querier config left.info
    r ← map_err std (
        compute_swap dec offer_pool.amount ask_pool.amount left.amount
          (total_fee_rate dec config.pool_info.fee_config))
    ok (record {
      return_amount = r.return_amount;
      spread_amount = r.spread_amount;
      commission_amount = r.commission_amount;
      referral_amount = referral_amount;
    })

  unfoldable pub query_reverse_simulation :
      Storage → Asset → Bool → Option ℕ → Outcome ContractError ReverseSimulationResponse
  query_reverse_simulation s asset referral referral_commission = do
    ask ← map_err std (validate_asset api asset)
    config ← load_config s
    (ask_pool, offer_pool) ← pools_of querier config ask.info
    r ← map_err std (
        compute_offer_amount dec offer_pool.amount ask_pool.amount ask.amount
          (total_fee_rate dec config.pool_info.fee_config))
    let offer : AssetValidated = record { info = offer_pool.info; amount = r.offer_amount }
    max ← max_commission querier config (referral && not (is_waived referral_commission))
    (total, referral_amount) ← add_referral dec max referral referral_commission offer
    ok (record {
      offer_amount = total.amount;
      spread_amount = r.spread_amount;
      commission_amount = r.commission_amount;
      referral_amount = referral_amount;
    })

  unfoldable pub query_cumulative_prices :
      ℕ → Storage → Outcome ContractError CumulativePricesResponse
  query_cumulative_prices now s = do
    config ← load_config s
    (assets, total_share) ← pool_info querier s config
    pool0 ← at assets 0
    pool1 ← at assets 1
    prices ← map_err std (accumulate_prices dec now config pool0.amount pool1.amount)
    let last : ℕ × ℕ = elim prices [
      | none ↦ (config.price0_cumulative_last, config.price1_cumulative_last)
      | some (price0, price1, time) ↦ (price0, price1)
    ]
    ok (record {
      assets = assets;
      total_share = total_share;
      cumulative_prices = (pool0.info, pool1.info, last.0) ∷ (pool1.info, pool0.info, last.1) ∷ [];
    })

-- The `block_time_last` of `ConfigResponse`; its other two fields are none.
unfoldable pub query_config : Storage → Outcome ContractError ℕ
query_config s = do config ← load_config s; ok config.block_time_last
