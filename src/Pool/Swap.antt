-- ===== src/Pool/Swap.antt =====
-- contracts/pool/src/contract.rs: a swap, from the pool's balances to the messages, with the price
-- history it writes.
use whelp_contracts.Prelude.{
  ℕ, ◌+◌, ◌*◌, ◌/◌, ◌%◌, ◌^◌, String, Bool, not, ◌||◌, Option, none, some, List, [], ◌∷◌, ◌++◌, ltb,
  leb, ◌==◌, unwrap_or, if◌then◌else◌,
}
use whelp_contracts.Outcome.{Outcome, ok, err, panic, ◌>>=◌, ◌>>◌, fail_if, map_err}
use whelp_contracts.Num.{
  Decimals, u128_max, add, sub, checked_sub, mul_decimal, ratio, checked_fit, mul_ratio,
}
use whelp_contracts.Dex.Error.{
  StdError, ContractError, std, overflow, trading_not_started, asset_mismatch,
}
use whelp_contracts.Dex.Asset.{
  AssetInfoValidated, AssetValidated, Msg, equal, into_msg, assert_sent_native_token_balance,
}
use whelp_contracts.Dex.Spread.{assert_max_spread, total_fee_rate, protocol_fee_rate}
use whelp_contracts.Dex.Referral.{handle_referral}
use whelp_contracts.Dex.Oracle.{seconds}
use whelp_contracts.Dex.Oracle.Store.{store_oracle_price}
use whelp_contracts.Dex.Querier.{Querier, Call, FactoryConfig, query_pools}
use whelp_contracts.Pool.Curve.{SwapAmounts, compute_swap}
use whelp_contracts.Pool.State.{Config, Storage, load_config, check_if_frozen, at}
pub mod Laws

pub record SwapResult : Type 0 where
  pub return_asset : AssetValidated
  pub ask_info : AssetInfoValidated
  pub spread_amount : ℕ
  pub commission_amount : ℕ
  pub protocol_fee_amount : ℕ
  pub protocol_fee_msg : Option Msg

-- `wrapping_add` of two `Uint128`.
abbrev pub wrapping_add : ℕ → ℕ → ℕ
wrapping_add a b = (a + b) % 2 ^ 128

-- The offer pool and the ask pool.
unfoldable pub choose_pools :
    AssetInfoValidated
    → AssetValidated
    → AssetValidated
    → Outcome ContractError (AssetValidated × AssetValidated)
choose_pools offer_info pool0 pool1 =
    if equal offer_info pool0.info
    then ok (pool0, pool1)
    else if equal offer_info pool1.info
    then ok (pool1, pool0)
    else err asset_mismatch

-- The balances after the swap. A `Uint128` panics below zero and above its range.
unfoldable pub new_pools :
    AssetValidated → AssetValidated → AssetInfoValidated → ℕ → ℕ → ℕ → Outcome ContractError (ℕ × ℕ)
new_pools pool0 pool1 ask_info offer_amount fee return_amount =
    if equal pool0.info ask_info
    then (do
      a ← sub pool0.amount fee
      a' ← sub a return_amount
      b ← add u128_max pool1.amount offer_amount
      ok (a', b))
    else (do
      a ← add u128_max pool0.amount offer_amount
      b ← sub pool1.amount fee
      b' ← sub b return_amount
      ok (a, b'))

module _ (dec : Decimals) where
  -- One of the two new cumulative prices.
  unfoldable pub accumulated : ℕ → ℕ → ℕ → ℕ → Outcome StdError ℕ
  accumulated last time_elapsed n d = do
    scaled ← checked_fit overflow u128_max (time_elapsed * 10 ^ 6)
    increment ← mul_ratio dec u128_max scaled n d
    ok (wrapping_add last increment)

  unfoldable pub accumulate_prices : ℕ → Config → ℕ → ℕ → Outcome StdError (Option (ℕ × ℕ × ℕ))
  accumulate_prices now config x y =
      if leb (seconds now) config.block_time_last then ok none else do
        time_elapsed ← sub (seconds now) config.block_time_last
        if x == 0 || y == 0
            then ok
                (some (config.price0_cumulative_last, config.price1_cumulative_last, seconds now))
            else (do
              pcl0 ← accumulated config.price0_cumulative_last time_elapsed y x
              pcl1 ← accumulated config.price1_cumulative_last time_elapsed x y
              ok (some (pcl0, pcl1, seconds now)))

  unfoldable pub calculate_protocol_fee :
      AssetInfoValidated → ℕ → ℕ → Outcome StdError (Option AssetValidated)
  calculate_protocol_fee pool_info commission_amount protocol_commission_rate = do
    protocol_fee ← mul_decimal dec u128_max commission_amount protocol_commission_rate
    ok (
        if protocol_fee == 0
        then none
        else some (record { info = pool_info; amount = protocol_fee }))

  -- The configuration and the storage after `accumulate_prices`.
  unfoldable pub save_prices :
      ℕ → Storage → Config → ℕ → ℕ → Outcome ContractError (Storage × Config)
  save_prices now s config x y = do
    prices ← map_err std (accumulate_prices now config x y)
    elim prices [
      | none ↦ ok (s, config)
      | some (price0, price1, block_time) ↦ do
        let config' : Config = record config {
          price0_cumulative_last = price0;
          price1_cumulative_last = price1;
          block_time_last = block_time;
        }
        ok (record s { config = some config' }, config')
    ]

  -- The store of the oracle after a change of the balances to `new_pool0` and `new_pool1`.
  unfoldable pub save_oracle : ℕ → Storage → ℕ → ℕ → Outcome ContractError Storage
  save_oracle now s new_pool0 new_pool1 = do
    price ← ratio dec u128_max new_pool0 new_pool1
    oracle ← map_err std (store_oracle_price dec s.oracle now price)
    ok (record s { oracle = oracle })

  -- The end of the handlers that change the balances from `x` and `y` to the new ones.
  unfoldable pub save_history :
      ℕ → Storage → Config → ℕ → ℕ → ℕ → ℕ → Outcome ContractError (Storage × Config)
  save_history now s config new_pool0 new_pool1 x y = do
    s' ← save_oracle now s new_pool0 new_pool1
    save_prices now s' config x y

  -- The protocol's part of the commission, and the message that pays it.
  unfoldable pub protocol_fee :
      Option String → AssetInfoValidated → ℕ → ℕ → Outcome ContractError (ℕ × Option Msg)
  protocol_fee none ask_info commission_amount rate = ok (0, none)
  protocol_fee (some fee_address) ask_info commission_amount rate = do
    fee ← map_err std (calculate_protocol_fee ask_info commission_amount rate)
    ok (elim fee [ none ↦ (0, none) | some f ↦ (f.amount, some (into_msg f fee_address)) ])

  -- `pools` do not include the offer.
  unfoldable pub do_swap :
      ℕ
      → Storage
      → Config
      → FactoryConfig
      → List AssetValidated
      → AssetValidated
      → Option ℕ
      → Option ℕ
      → Outcome ContractError (SwapResult × Storage × Config)
  do_swap now s config factory_config pools offer_asset belief_price max_spread = do
    fail_if (ltb (seconds now) config.trading_starts) trading_not_started
    pool0 ← at pools 0
    pool1 ← at pools 1
    (offer_pool, ask_pool) ← choose_pools offer_asset.info pool0 pool1
    let fees = config.pool_info.fee_config
    r ← map_err std (
        compute_swap dec offer_pool.amount ask_pool.amount offer_asset.amount
          (total_fee_rate dec fees))
    before ← add u128_max r.return_amount r.commission_amount
    assert_max_spread dec belief_price max_spread offer_asset.amount before r.spread_amount
    (fee, fee_msg) ←
        protocol_fee factory_config.fee_address ask_pool.info r.commission_amount
          (protocol_fee_rate dec fees)
    (new_pool0, new_pool1) ←
        new_pools pool0 pool1 ask_pool.info offer_asset.amount fee r.return_amount
    (s', config') ← save_history now s config new_pool0 new_pool1 pool0.amount pool1.amount
    let result : SwapResult = record {
      return_asset = record { info = ask_pool.info; amount = r.return_amount };
      ask_info = ask_pool.info;
      spread_amount = r.spread_amount;
      commission_amount = r.commission_amount;
      protocol_fee_amount = fee;
      protocol_fee_msg = fee_msg;
    }
    ok (result, s', config')

-- The balances without the deposit that came with the message.
unfoldable pub without_deposit :
    AssetValidated → List AssetValidated → Outcome StdError (List AssetValidated)
without_deposit offer [] = ok []
without_deposit offer (p ∷ pools) = do
  amount ←
      if equal p.info offer.info then checked_sub overflow p.amount offer.amount else ok p.amount
  rest ← without_deposit offer pools
  ok (record p { amount = amount } ∷ rest)

-- The message of an optional payment.
abbrev pub optional : Option Msg → List Msg
optional none = []
optional (some m) = m ∷ []

module _ (dec : Decimals) (querier : Querier) where
  unfoldable pub swap :
      Call
      → Storage
      → String
      → AssetValidated
      → Option ℕ
      → Option ℕ
      → Option String
      → Option String
      → Option ℕ
      → Outcome ContractError (Storage × List Msg)
  swap call s sender offer belief_price max_spread to referral_address referral_commission = do
    map_err std (assert_sent_native_token_balance offer call.funds)
    check_if_frozen s
    config ← load_config s
    factory_config ← map_err std (querier.factory_config config.factory_addr)
    (left, messages) ←
        handle_referral dec factory_config.max_referral_commission referral_address
          referral_commission offer []
    balances ← map_err std (query_pools querier config.pool_info.asset_infos call.contract)
    pools ← map_err std (without_deposit offer balances)
    (r, s', config') ←
        do_swap dec call.now s config factory_config pools left belief_price max_spread
    let receiver = unwrap_or to sender
    ok (s', messages ++ into_msg r.return_asset receiver ∷ optional r.protocol_fee_msg)
