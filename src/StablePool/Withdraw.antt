-- ===== src/StablePool/Withdraw.antt =====
-- contracts/pool_stable/src/contract.rs: `withdraw_liquidity` and `imbalanced_withdraw`.
use whelp_contracts.Prelude.{
  ℕ, ◌+◌, ◌%◌, not, List, [], ◌∷◌, ◌++◌, some, str_eq, ltb, length, if◌then◌else◌,
}
use whelp_contracts.Outcome.{Outcome, ok, ◌>>=◌, ◌>>◌, fail_if, map_err, unwrap}
use whelp_contracts.Num.{Decimals, u128_max, u256_max, sub, checked_sub, checked_fit}
use whelp_contracts.Dex.Error.{
  StdError, overflow, conversion_overflow, not_enough_lp_tokens, ContractError, std,
  too_many_assets, unauthorized,
}
use whelp_contracts.Dex.Asset.{Api, Asset, AssetValidated, Coin, Msg, into_msg, burn, check_assets}
use whelp_contracts.Dex.Oracle.{seconds}
use whelp_contracts.Dex.Spread.{get_share_in_assets}
use whelp_contracts.Dex.Querier.{Querier, Call, query_pools}
use whelp_contracts.Pool.State.{at}
use whelp_contracts.Pool.Withdraw.{first_coin, shrink}
use whelp_contracts.StablePool.Amp.{Config, compute_current_amp}
use whelp_contracts.StablePool.Select.{DecimalAsset}
use whelp_contracts.StablePool.Decimals.{checked_multiply_ratio, with_precision, to_decimal_asset}
use whelp_contracts.StablePool.Curve.{compute_d}
use whelp_contracts.StablePool.State.{Storage, load_share, get_precision}
use whelp_contracts.StablePool.Liquidity.{
  balance_of, omitted, in_decimals, old_balances, imbalance_fee, charge,
}
pub mod Given
pub mod Laws
pub mod Shares

unfoldable pub balances_without : List (DecimalAsset × ℕ) → Outcome ContractError (List ℕ)
balances_without [] = ok []
balances_without ((asset, pool) ∷ withdrawn) = do
  n ← sub pool asset.amount
  rest ← balances_without withdrawn
  ok (n ∷ rest)

module _ (dec : Decimals) where
  -- Each asset with the balance of its pool.
  unfoldable pub collect :
      Storage
      → List AssetValidated
      → List AssetValidated
      → Outcome ContractError (List (DecimalAsset × ℕ))
  collect s pools [] = ok []
  collect s pools (a ∷ assets) = do
    precision ← map_err std (get_precision s a.info)
    pool ← balance_of a.info pools
    amount ← map_err std (to_decimal_asset dec a precision)
    p ← map_err std (with_precision dec pool precision)
    rest ← collect s pools assets
    ok ((amount, p) ∷ rest)

  -- The shares to burn, from the invariants before the withdrawal and after its fee.
  unfoldable pub shares_to_burn : ℕ → ℕ → ℕ → ℕ → Outcome ContractError ℕ
  shares_to_burn total_share init_d after_fee_d provided_amount = do
    lost ← checked_sub (std overflow) init_d after_fee_d
    part ← map_err std (checked_multiply_ratio dec total_share lost init_d)
    raised ← checked_fit (std overflow) u256_max (part + 1)
    burn_amount ← checked_fit (std conversion_overflow) u128_max raised
    fail_if (ltb provided_amount burn_amount) (std not_enough_lp_tokens)
    ok burn_amount

  unfoldable pub imbalanced_withdraw :
      Querier → Call → Storage → Config → ℕ → List AssetValidated → Outcome ContractError ℕ
  imbalanced_withdraw querier call s config provided_amount assets = do
    let limit = length config.pool_info.asset_infos
    fail_if (ltb limit (length assets)) (too_many_assets limit (length assets))
    pools ← map_err std (query_pools querier config.pool_info.asset_infos call.contract)
    given ← collect s pools assets
    others ← map_err std (in_decimals dec s (omitted assets pools))
    let withdrawn = given ++ others
    amp ← map_err std (compute_current_amp config (seconds call.now))
    let old = old_balances withdrawn
    init_d ← map_err std (compute_d dec amp old config.greatest_precision)
    new ← balances_without withdrawn
    withdraw_d ← map_err std (compute_d dec amp new config.greatest_precision)
    fee ← imbalance_fee dec (limit % 256)
    charged ← charge dec fee withdraw_d init_d (limit % 256) old new
    after_fee_d ← map_err std (compute_d dec amp charged config.greatest_precision)
    total_share ← load_share s
    shares_to_burn total_share init_d after_fee_d provided_amount

  -- The balances of the pool, and the shares issued according to the storage.
  unfoldable pub pool_info :
      Querier → Storage → Config → Outcome ContractError (List AssetValidated × ℕ)
  pool_info querier s config = do
    pools ←
        map_err std
          (query_pools querier config.pool_info.asset_infos config.pool_info.contract_addr)
    total_share ← load_share s
    ok (pools, total_share)

  -- The shares that are burned and the assets that are paid. No assets in the message mean the
  -- sender's part of all of them.
  unfoldable pub refund :
      Querier
      → Call
      → Storage
      → Config
      → ℕ
      → List AssetValidated
      → Outcome ContractError (ℕ × List AssetValidated)
  refund querier call s config amount [] = do
    (pools, total_share) ← pool_info querier s config
    refunds ← get_share_in_assets dec pools amount total_share
    ok (amount, refunds)
  refund querier call s config amount (a ∷ assets) = do
    info ← pool_info querier s config
    burn_amount ← imbalanced_withdraw querier call s config amount (a ∷ assets)
    ok (burn_amount, a ∷ assets)

  -- The message that returns unused shares is not here: the source collects it in a list of messages
  -- that a second `let messages` hides.
  unfoldable pub withdraw_liquidity :
      Querier → Api → Call → Storage → List Asset → Outcome ContractError (Storage × List Msg)
  withdraw_liquidity querier api call s asset_list = do
    assets ← check_assets api asset_list
    config ← unwrap s.config
    sent ← first_coin call.funds
    let denom = config.pool_info.liquidity_token
    fail_if (not (str_eq sent.denom denom)) ContractError.unauthorized
    (burn_amount, refunds) ← refund querier call s config sent.amount assets
    refund0 ← at refunds 0
    refund1 ← at refunds 1
    stored ← load_share s
    left ← shrink stored
    ok (
      record s { lp_share_amount = some left },
      into_msg refund0 call.sender
          ∷ into_msg refund1 call.sender
          ∷ burn (record { denom = denom; amount = burn_amount })
          ∷ [],
    )
