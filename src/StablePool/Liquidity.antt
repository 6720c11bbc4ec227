-- ===== src/StablePool/Liquidity.antt =====
-- contracts/pool_stable/src/contract.rs: `provide_liquidity`. The balances of the pool are a list in
-- the order of its assets, where the source has a `HashMap`: the order only shows where two assets are
-- left out of a deposit, and in a pool of two assets such a deposit has no amount and is refused.
use whelp_contracts.Prelude.{
  ℕ, zero, suc, ◌+◌, ◌-◌, ◌*◌, ◌^◌, ◌%◌, String, Bool, not, ◌||◌, ◌&&◌, Option, none, some, List,
  [], ◌∷◌, ◌++◌, ltb, ◌==◌, unwrap_or, if◌then◌else◌, length,
}
use whelp_contracts.Outcome.{Outcome, ok, err, panic, ◌>>=◌, ◌>>◌, fail_if, map_err}
use whelp_contracts.Num.{
  Decimals, u128_max, u256_max, add, sub, mul, checked_sub, checked_fit, ratio,
}
use whelp_contracts.Dex.Error.{
  StdError, overflow, ContractError, std, too_many_assets, invalid_zero_amount, invalid_asset,
  minimum_liquidity_amount_error, invalid_provide_lps_with_single_token, liquidity_amount_too_small,
}
use whelp_contracts.Dex.Asset.{
  Api, Asset, AssetInfoValidated, AssetValidated, Coin, Msg, bank_send, cw20_transfer_from, mint,
  equal, assert_sent_native_token_balance, check_assets, addr_opt_validate,
}
use whelp_contracts.Dex.Oracle.{seconds}
use whelp_contracts.Dex.Oracle.Store.{initialize_oracle, store_oracle_price}
use whelp_contracts.Dex.Querier.{Querier, Call, query_pools}
use whelp_contracts.Pool.Liquidity.{all_zero, minimum_liquidity_amount, mint_minimum}
use whelp_contracts.StablePool.Amp.{Config, compute_current_amp}
use whelp_contracts.StablePool.Select.{DecimalAsset}
use whelp_contracts.StablePool.Decimals.{
  to_uint128_with_precision, checked_multiply_ratio, with_precision, to_decimal_asset,
}
use whelp_contracts.StablePool.Curve.{compute_d}
use whelp_contracts.StablePool.State.{
  Storage, load_config, load_share, check_if_frozen, get_precision,
}
use whelp_contracts.StablePool.Quote.{calc_new_price_a_per_b}
use whelp_contracts.StablePool.Swap.{save_prices}
pub mod Laws

-- `pools.get(&info)`
unfoldable pub balance_of : AssetInfoValidated → List AssetValidated → Outcome ContractError ℕ
balance_of info [] = err invalid_asset
balance_of info (p ∷ pools) =
    let rest = balance_of info pools in if equal p.info info then ok p.amount else rest

-- Each asset with the balance of its pool.
unfoldable pub collect :
    List Coin
    → List AssetValidated
    → List AssetValidated
    → Outcome ContractError (List (AssetValidated × ℕ))
collect funds pools [] = ok []
collect funds pools (a ∷ assets) = do
  map_err std (assert_sent_native_token_balance a funds)
  pool ← balance_of a.info pools
  rest ← collect funds pools assets
  ok ((a, pool) ∷ rest)

unfoldable pub names : AssetInfoValidated → List AssetValidated → Bool
names info [] = Bool.false
names info (a ∷ assets) = equal a.info info || names info assets

-- The pools that no asset names, with an amount of zero.
unfoldable pub omitted : List AssetValidated → List AssetValidated → List (AssetValidated × ℕ)
omitted assets [] = []
omitted assets (p ∷ pools) =
    let rest = omitted assets pools in
    if names p.info assets then rest else (record p { amount = 0 }, p.amount) ∷ rest

-- The loop over the deposits: cw20 tokens are pulled, and native coins, which came with the message,
-- are taken off the balance.
unfoldable pub receive_one : Call → AssetValidated × ℕ → Outcome ContractError (ℕ × List Msg)
receive_one call (deposit, pool) =
    if deposit.amount == 0 then ok (pool, []) else elim deposit.info [
      | AssetInfoValidated.cw20_token token ↦
          ok (pool, cw20_transfer_from token call.sender call.contract deposit.amount ∷ [])
      | AssetInfoValidated.smart_token denom ↦ do
        left ← checked_sub (std overflow) pool deposit.amount
        ok (left, [])
    ]

unfoldable pub receive_all :
    Call → List (AssetValidated × ℕ) → Outcome ContractError (List (AssetValidated × ℕ) × List Msg)
receive_all call [] = ok ([], [])
receive_all call ((deposit, pool) ∷ deposits) = do
  fail_if ((deposit.amount == 0) && (pool == 0)) invalid_provide_lps_with_single_token
  (left, messages) ← receive_one call (deposit, pool)
  (rest, more) ← receive_all call deposits
  ok ((deposit, left) ∷ rest, messages ++ more)

-- The balances without the deposits, and those with them or without what is withdrawn.
unfoldable pub old_balances : List (DecimalAsset × ℕ) → List ℕ
old_balances [] = []
old_balances ((asset, pool) ∷ deposits) = pool ∷ old_balances deposits

unfoldable pub balances_with : List (DecimalAsset × ℕ) → Outcome ContractError (List ℕ)
balances_with [] = ok []
balances_with ((asset, pool) ∷ deposits) = do
  n ← add u256_max pool asset.amount
  rest ← balances_with deposits
  ok (n ∷ rest)

unfoldable pub old_pools : List (DecimalAsset × ℕ) → List DecimalAsset
old_pools [] = []
old_pools ((asset, pool) ∷ deposits) = record asset { amount = pool } ∷ old_pools deposits

unfoldable pub pools_with : List (DecimalAsset × ℕ) → Outcome ContractError (List DecimalAsset)
pools_with [] = ok []
pools_with ((asset, pool) ∷ deposits) = do
  n ← add u256_max asset.amount pool
  rest ← pools_with deposits
  ok (record asset { amount = n } ∷ rest)

module _ (dec : Decimals) where
  unfoldable pub in_decimals :
      Storage → List (AssetValidated × ℕ) → Outcome StdError (List (DecimalAsset × ℕ))
  in_decimals s [] = ok []
  in_decimals s ((asset, pool) ∷ deposits) = do
    precision ← get_precision s asset.info
    a ← to_decimal_asset dec asset precision
    p ← with_precision dec pool precision
    rest ← in_decimals s deposits
    ok ((a, p) ∷ rest)

  -- The fee of an imbalanced deposit or withdrawal: three percent times n / (4 * (n - 1)).
  unfoldable pub imbalance_fee : ℕ → Outcome ContractError ℕ
  imbalance_fee n_coins = do
    others ← sub n_coins 1
    divisor ← mul 255 4 others
    share ← ratio dec u128_max n_coins divisor
    checked_fit (std overflow) u128_max (dec.mul_floor (3 * 10 ^ 16) share)

  -- The loop that charges the fee on the first `n` balances, with `d` the invariant after the change
  -- and `init_d` the one before it.
  unfoldable pub charge : ℕ → ℕ → ℕ → ℕ → List ℕ → List ℕ → Outcome ContractError (List ℕ)
  charge fee d init_d zero old new = ok new
  charge fee d init_d (suc n) (a ∷ old) (b ∷ new) = do
    ideal_balance ← map_err std (checked_multiply_ratio dec d a init_d)
    let difference = if ltb b ideal_balance then ideal_balance - b else b - ideal_balance
    cut ← checked_fit (std overflow) u256_max (dec.mul_floor fee difference)
    b' ← sub b cut
    rest ← charge fee d init_d n old new
    ok (b' ∷ rest)
  charge fee d init_d (suc n) [] new = panic
  charge fee d init_d (suc n) (a ∷ old) [] = panic

  -- The shares of a deposit, and the shares minted besides.
  unfoldable pub share_of_deposit :
      ℕ → ℕ → ℕ → ℕ → ℕ → ℕ → List ℕ → List ℕ → Outcome ContractError (ℕ × ℕ)
  share_of_deposit total_share n_coins amp precision init_d deposit_d old new =
      if total_share == 0
      then (do
        whole ← map_err std (to_uint128_with_precision deposit_d precision)
        share ← checked_sub minimum_liquidity_amount_error whole minimum_liquidity_amount
        fail_if (share == 0) minimum_liquidity_amount_error
        ok (share, minimum_liquidity_amount))
      else (do
        fee ← imbalance_fee n_coins
        charged ← charge fee deposit_d init_d n_coins old new
        after_fee_d ← map_err std (compute_d dec amp charged precision)
        total ← map_err std (with_precision dec total_share precision)
        raised ← map_err std (checked_multiply_ratio dec total (after_fee_d - init_d) init_d)
        share ← map_err std (to_uint128_with_precision raised precision)
        fail_if (share == 0) liquidity_amount_too_small
        ok (share, 0))

  -- The price history after a deposit; the first one sets the oracle up.
  unfoldable pub save_deposit :
      ℕ
      → Storage
      → Config
      → ℕ
      → List DecimalAsset
      → List DecimalAsset
      → Outcome ContractError Storage
  save_deposit now s config total_share new old = do
    price ← calc_new_price_a_per_b dec s (seconds now) config new
    oracle ←
        if total_share == 0
        then ok (initialize_oracle now price)
        else map_err std (store_oracle_price dec s.oracle now price)
    save_prices dec now (record s { oracle = oracle }) config old

  -- What follows once the assets are received.
  unfoldable pub issue :
      Api
      → Call
      → Storage
      → Config
      → List (DecimalAsset × ℕ)
      → Option String
      → List Msg
      → Outcome ContractError (Storage × List Msg)
  issue api call s config deposits receiver messages = do
    let n_coins = length config.pool_info.asset_infos % 256
    amp ← map_err std (compute_current_amp config (seconds call.now))
    let old = old_balances deposits
    init_d ← map_err std (compute_d dec amp old config.greatest_precision)
    new ← balances_with deposits
    deposit_d ← map_err std (compute_d dec amp new config.greatest_precision)
    total_share ← load_share s
    (share, minimum) ←
        share_of_deposit total_share n_coins amp config.greatest_precision init_d deposit_d old new
    receiver' ← map_err std (addr_opt_validate api receiver)
    total ← add u128_max total_share minimum
    total' ← add u128_max total share
    new_pools ← pools_with deposits
    let denom = config.pool_info.liquidity_token
    let s' : Storage = record s { lp_share_amount = some total' }
    s'' ← save_deposit call.now s' config total_share new_pools (old_pools deposits)
    let lp : Coin = record { denom = denom; amount = share }
    ok (
      s'',
      messages
          ++ mint_minimum denom minimum
          ++ mint lp ∷ bank_send (unwrap_or receiver' call.sender) (lp ∷ []) ∷ [],
    )

module _ (dec : Decimals) (querier : Querier) where
  unfoldable pub provide_liquidity :
      Api → Call → Storage → List Asset → Option String → Outcome ContractError (Storage × List Msg)
  provide_liquidity api call s asset_list receiver = do
    check_if_frozen s
    assets ← check_assets api asset_list
    config ← load_config s
    let limit = length config.pool_info.asset_infos
    fail_if (ltb limit (length assets)) (too_many_assets limit (length assets))
    pools ← map_err std (query_pools querier config.pool_info.asset_infos call.contract)
    given ← collect call.funds pools assets
    fail_if (all_zero assets) invalid_zero_amount
    (received, messages) ← receive_all call (given ++ omitted assets pools)
    deposits ← map_err std (in_decimals dec s received)
    issue dec api call s config deposits receiver messages
