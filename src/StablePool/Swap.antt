-- ===== src/StablePool/Swap.antt =====
-- contracts/pool_stable/src/contract.rs: a swap. `protocol_fee` is that of the constant product pool,
-- whose code for it is the same.
use whelp_contracts.Prelude.{
  ℕ, ◌+◌, ◌-◌, ◌*◌, ◌/◌, String, Option, none, some, List, [], ◌∷◌, ◌++◌, unwrap_or, if◌then◌else◌,
}
use whelp_contracts.Outcome.{Outcome, ok, ◌>>=◌, ◌>>◌, map_err}
use whelp_contracts.Num.{Decimals, one, u128_max, u256_max, add, checked_sub, checked_fit}
use whelp_contracts.Dex.Error.{StdError, overflow, ContractError, std}
use whelp_contracts.Dex.Asset.{
  Api, AssetInfo, AssetInfoValidated, AssetValidated, Msg, equal, into_msg, validate_info,
  assert_sent_native_token_balance, check_swap_parameters,
}
use whelp_contracts.Dex.Spread.{assert_max_spread, total_fee_rate, protocol_fee_rate}
use whelp_contracts.Dex.Referral.{handle_referral}
use whelp_contracts.Dex.Oracle.{seconds}
use whelp_contracts.Dex.Oracle.Store.{store_oracle_price}
use whelp_contracts.Dex.Querier.{Querier, Call, FactoryConfig, query_pools}
use whelp_contracts.Pool.Swap.{protocol_fee, optional}
use whelp_contracts.StablePool.Amp.{Config}
use whelp_contracts.StablePool.Select.{DecimalAsset, select_pools}
use whelp_contracts.StablePool.Decimals.{
  to_uint128_with_precision, with_precision, to_decimal_asset,
}
use whelp_contracts.StablePool.State.{Storage, load_config, check_if_frozen, get_precision}
use whelp_contracts.StablePool.Quote.{compute_swap, accumulate_prices, calc_new_price_a_per_b}

-- `checked_mul_uint128`
unfoldable pub checked_mul_uint128 : ℕ → ℕ → Outcome StdError ℕ
checked_mul_uint128 rate amount = checked_fit overflow u128_max (amount * rate / one)

-- An optional asset of a message, validated.
unfoldable pub validate_optional :
    Api → Option AssetInfo → Outcome StdError (Option AssetInfoValidated)
validate_optional api none = ok none
validate_optional api (some info) = do i ← validate_info api info; ok (some i)

-- The balances in their precisions, as whole numbers.
unfoldable pub whole_amounts : Storage → List DecimalAsset → Outcome StdError (List ℕ)
whole_amounts s [] = ok []
whole_amounts s (p ∷ pools) = do
  precision ← get_precision s p.info
  n ← to_uint128_with_precision p.amount precision
  rest ← whole_amounts s pools
  ok (n ∷ rest)

module _ (dec : Decimals) where
  -- The balances without the offer that came with the message.
  unfoldable pub pools_before :
      Storage → AssetValidated → List AssetValidated → Outcome StdError (List DecimalAsset)
  pools_before s offer [] = ok []
  pools_before s offer (p ∷ pools) = do
    amount ←
        if equal p.info offer.info then checked_sub overflow p.amount offer.amount else ok p.amount
    precision ← get_precision s p.info
    d ← with_precision dec amount precision
    rest ← pools_before s offer pools
    ok (record { info = p.info; amount = d } ∷ rest)

  -- The balances with the offer in, and the return and the protocol fee out.
  unfoldable pub pools_after :
      Storage
      → AssetValidated
      → ℕ
      → AssetInfoValidated
      → ℕ
      → ℕ
      → List DecimalAsset
      → Outcome StdError (List DecimalAsset)
  pools_after s offer offer_precision ask_info return_amount fee [] = ok []
  pools_after s offer offer_precision ask_info return_amount fee (p ∷ pools) = do
    amount ←
        if equal p.info offer.info
        then (do
          offered ← with_precision dec offer.amount offer_precision
          checked_fit overflow u256_max (p.amount + offered))
        else if equal p.info ask_info
        then (do
          ask_precision ← get_precision s ask_info
          paid ← add u128_max return_amount fee
          out ← with_precision dec paid ask_precision
          checked_sub overflow p.amount out)
        else ok p.amount
    rest ← pools_after s offer offer_precision ask_info return_amount fee pools
    ok (record p { amount = amount } ∷ rest)

  -- The end of the handlers that change the balances: the price for the oracle, and the cumulative
  -- prices at the balances before.
  unfoldable pub save_prices :
      ℕ → Storage → Config → List DecimalAsset → Outcome ContractError Storage
  save_prices now s config pools = do
    (changed, config') ← accumulate_prices dec s (seconds now) config pools
    ok (if changed then record s { config = some config' } else s)

  -- `pools` do not include the offer. The result is the storage and the messages.
  unfoldable pub do_swap :
      ℕ
      → Storage
      → Config
      → FactoryConfig
      → List DecimalAsset
      → AssetValidated
      → Option AssetInfoValidated
      → Option ℕ
      → Option ℕ
      → String
      → Outcome ContractError (Storage × List Msg)
  do_swap now s config factory_config pools offer ask_info belief_price max_spread receiver = do
    (offer_pool, ask_pool) ← select_pools (some offer.info) ask_info pools
    offer_precision ← map_err std (get_precision s offer_pool.info)
    whole ← map_err std (whole_amounts s pools)
    map_err std (check_swap_parameters whole offer.amount)
    offered ← map_err std (to_decimal_asset dec offer offer_precision)
    r ← compute_swap dec s (seconds now) config offered offer_pool ask_pool pools
    let fees = config.pool_info.fee_config
    commission_amount ← map_err std (checked_mul_uint128 (total_fee_rate dec fees) r.return_amount)
    let return_amount = r.return_amount - commission_amount
    spread ← add u128_max r.spread_amount commission_amount
    assert_max_spread dec belief_price max_spread offer.amount return_amount spread
    (fee, fee_msg) ←
        protocol_fee dec factory_config.fee_address ask_pool.info commission_amount
          (protocol_fee_rate dec fees)
    new_pools ←
        map_err std (pools_after s offer offer_precision ask_pool.info return_amount fee pools)
    price ← calc_new_price_a_per_b dec s (seconds now) config new_pools
    oracle ← map_err std (store_oracle_price dec s.oracle now price)
    s' ← save_prices now (record s { oracle = oracle }) config pools
    let returned : AssetValidated = record { info = ask_pool.info; amount = return_amount }
    ok (s', into_msg returned receiver ∷ optional fee_msg)

module _ (dec : Decimals) (querier : Querier) (api : Api) where
  unfoldable pub swap :
      Call
      → Storage
      → String
      → AssetValidated
      → Option AssetInfo
      → Option ℕ
      → Option ℕ
      → Option String
      → Option String
      → Option ℕ
      → Outcome ContractError (Storage × List Msg)
  swap call s sender offer ask belief_price max_spread to referral_address referral_commission = do
    map_err std (assert_sent_native_token_balance offer call.funds)
    ask_info ← map_err std (validate_optional api ask)
    check_if_frozen s
    config ← load_config s
    factory_config ← map_err std (querier.factory_config config.factory_addr)
    (left, messages) ←
        handle_referral dec factory_config.max_referral_commission referral_address
          referral_commission offer []
    balances ← map_err std (query_pools querier config.pool_info.asset_infos call.contract)
    pools ← map_err std (pools_before dec s left balances)
    (s', paid) ←
        do_swap dec call.now s config factory_config pools left ask_info belief_price max_spread
          (unwrap_or to sender)
    ok (s', messages ++ paid)
