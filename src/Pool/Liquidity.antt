-- ===== src/Pool/Liquidity.antt =====
-- contracts/pool/src/contract.rs: `provide_liquidity`. `roots` is the integer square root of
-- `cosmwasm_std`.
use whelp_contracts.Prelude.{
  ℕ, zero, suc, ◌+◌, ◌*◌, ◌/◌, ◌^◌, ◌≤◌, ◌<◌, String, Bool, true, false, not, ◌&&◌, ◌||◌, Option,
  none, some, List, [], ◌∷◌, ◌++◌, ltb, ◌==◌, unwrap_or, if◌then◌else◌, length, min,
}
use whelp_contracts.Outcome.{Outcome, ok, err, panic, ◌>>=◌, ◌>>◌, fail_if, map_err, ok_or}
use whelp_contracts.Num.{
  Decimals, u128_max, u256_max, add, sub, mul, checked_sub, checked_fit, mul_ratio, ratio,
}
use whelp_contracts.Dex.Error.{
  overflow, ContractError, std, too_many_assets, invalid_zero_amount, invalid_asset,
  minimum_liquidity_amount_error, invalid_provide_lps_with_single_token,
}
use whelp_contracts.Dex.Asset.{
  Api, Asset, AssetInfoValidated, AssetValidated, Coin, Msg, bank_send, mint, equal,
  is_native_token, receive, check_assets, addr_opt_validate,
}
use whelp_contracts.Dex.Oracle.Store.{initialize_oracle}
use whelp_contracts.Dex.Querier.{Querier, Call, FactoryConfig, query_pools}
use whelp_contracts.Pool.Curve.{assert_slippage_tolerance}
use whelp_contracts.Pool.State.{Config, Storage, load_config, load_share, check_if_frozen, at}
use whelp_contracts.Pool.Swap.{SwapResult, do_swap, save_history, save_prices, optional}
pub mod Laws

-- `Uint256::isqrt`
pub record Roots : Type 0 where
  pub isqrt : ℕ → ℕ
  pub isqrt_le : (n : ℕ) → n ≤ u256_max → isqrt n * isqrt n ≤ n
  pub isqrt_gt : (n : ℕ) → n ≤ u256_max → n < suc (isqrt n) * suc (isqrt n)

abbrev pub minimum_liquidity_amount : ℕ
minimum_liquidity_amount = 1000

-- Whether no asset has an amount above zero.
unfoldable pub all_zero : List AssetValidated → Bool
all_zero [] = true
all_zero (a ∷ assets) = (a.amount == 0) && all_zero assets

-- The position of an asset in `pools`.
unfoldable pub index_of : AssetInfoValidated → List AssetValidated → Outcome ContractError ℕ
index_of i [] = err invalid_asset
index_of i (p ∷ pools) = if equal p.info i then ok 0 else index_of i pools >>= λ n. ok (suc n)

unfoldable pub pool_indices :
    List AssetValidated → List AssetValidated → Outcome ContractError (List ℕ)
pool_indices [] pools = ok []
pool_indices (a ∷ assets) pools = do
  i ← index_of a.info pools
  rest ← pool_indices assets pools
  ok (i ∷ rest)

-- `f(pools[i].amount)?`, written back.
unfoldable pub change_at :
    ℕ
    → (ℕ → Outcome ContractError ℕ)
    → List AssetValidated
    → Outcome ContractError (List AssetValidated)
change_at i f [] = panic
change_at zero f (p ∷ pools) = do n ← f p.amount; ok (record p { amount = n } ∷ pools)
change_at (suc i) f (p ∷ pools) = do rest ← change_at i f pools; ok (p ∷ rest)

-- The loop over the assets: what was sent is checked or pulled, and the balances are set to those
-- before the deposit.
unfoldable pub receive_all :
    Call
    → List AssetValidated
    → List ℕ
    → List AssetValidated
    → List Msg
    → Outcome ContractError (List AssetValidated × List Msg)
receive_all call [] is pools messages = ok (pools, messages)
receive_all call (a ∷ assets) [] pools messages = panic
receive_all call (a ∷ assets) (i ∷ is) pools messages = do
  pulled ← map_err std (receive a call.contract call.sender call.funds)
  pools' ←
      if is_native_token a.info
      then change_at i (λ n. checked_sub (std overflow) n a.amount) pools
      else ok pools
  receive_all call assets is pools' (messages ++ pulled)

-- `assets.iter().find(..).expect(..)`
unfoldable pub deposit_of :
    AssetInfoValidated → List AssetValidated → Outcome ContractError AssetValidated
deposit_of i [] = panic
deposit_of i (a ∷ assets) = if equal a.info i then ok a else deposit_of i assets

module _ (dec : Decimals) (querier : Querier) where
  -- A single asset: half of it is swapped for the other one. The result is the storage and the
  -- configuration, the balances, the two deposits and the messages.
  unfoldable pub swap_half :
      Call
      → Storage
      → Config
      → AssetValidated
      → ℕ
      → List AssetValidated
      → List Msg
      → Outcome ContractError
          (Storage × Config × List AssetValidated × List AssetValidated × List Msg)
  swap_half call s config offer index pools messages = do
    let other = if index == 0 then 1 else 0
    other_pool ← at pools other
    fail_if (other_pool.amount == 0) invalid_provide_lps_with_single_token
    let input : AssetValidated = record offer { amount = offer.amount / 2 }
    factory_config ← map_err std (querier.factory_config config.factory_addr)
    (r, s', config') ← do_swap dec call.now s config factory_config pools input none none
    pools' ← elim r.protocol_fee_msg [
      | none ↦ ok pools
      | some m ↦ change_at other (λ n. sub n r.protocol_fee_amount) pools
    ]
    pools'' ← change_at index (λ n. add u128_max n input.amount) pools'
    pools''' ← change_at other (λ n. sub n r.return_asset.amount) pools''
    rest ← sub offer.amount input.amount
    let remaining_half : AssetValidated = record offer { amount = rest }
    ok (
      s',
      config',
      pools''',
      remaining_half ∷ r.return_asset ∷ [],
      messages ++ optional r.protocol_fee_msg,
    )

  -- Two assets are deposited as they are.
  unfoldable pub prepare :
      Call
      → Storage
      → Config
      → List AssetValidated
      → List ℕ
      → List AssetValidated
      → List Msg
      → Outcome ContractError
          (Storage × Config × List AssetValidated × List AssetValidated × List Msg)
  prepare call s config (a ∷ []) (i ∷ is) pools messages =
      swap_half call s config a i pools messages
  prepare call s config (a ∷ []) [] pools messages = panic
  prepare call s config assets is pools messages = ok (s, config, pools, assets, messages)

module _ (dec : Decimals) (roots : Roots) where
  -- The shares of a deposit, and the shares issued besides: the minimum liquidity of a first deposit.
  unfoldable pub share_of_deposit : ℕ → Option ℕ → ℕ → ℕ → ℕ → ℕ → Outcome ContractError (ℕ × ℕ)
  share_of_deposit total_share slippage_tolerance deposit0 deposit1 pool0 pool1 =
      if total_share == 0
      then (do
        product ← mul u256_max deposit0 deposit1
        root ← checked_fit (std overflow) u128_max (roots.isqrt product)
        share ← checked_sub minimum_liquidity_amount_error root minimum_liquidity_amount
        fail_if (share == 0) minimum_liquidity_amount_error
        ok (share, minimum_liquidity_amount))
      else (do
        assert_slippage_tolerance dec slippage_tolerance deposit0 deposit1 pool0 pool1
        a ← mul_ratio dec u128_max deposit0 total_share pool0
        b ← mul_ratio dec u128_max deposit1 total_share pool1
        ok (min a b, 0))

module _ (dec : Decimals) where
  -- The price history after a deposit; the first one sets the oracle up.
  unfoldable pub save_deposit :
      ℕ → Storage → Config → ℕ → ℕ → ℕ → ℕ → ℕ → Outcome ContractError (Storage × Config)
  save_deposit now s config total_share new_pool0 new_pool1 x y =
      if total_share == 0
      then (do
        price ← ratio dec u128_max new_pool0 new_pool1
        save_prices dec now (record s { oracle = initialize_oracle now price }) config x y)
      else save_history dec now s config new_pool0 new_pool1 x y

-- The messages that mint the minimum liquidity, if any.
unfoldable pub mint_minimum : String → ℕ → List Msg
mint_minimum denom n = if n == 0 then [] else mint (record { denom = denom; amount = n }) ∷ []

module _ (dec : Decimals) (roots : Roots) where
  -- The part of `provide_liquidity` that follows the deposits: shares, messages, price history.
  unfoldable pub issue :
      Api
      → Call
      → Storage
      → Config
      → List AssetValidated
      → List AssetValidated
      → Option ℕ
      → Option String
      → List Msg
      → Outcome ContractError (Storage × List Msg)
  issue api call s config pools assets slippage_tolerance receiver messages = do
    pool0 ← at pools 0
    deposit0 ← deposit_of pool0.info assets
    pool1 ← at pools 1
    deposit1 ← deposit_of pool1.info assets
    fail_if ((deposit0.amount == 0) || (deposit1.amount == 0)) invalid_zero_amount
    total_share ← load_share s
    (share, minimum) ←
        share_of_deposit dec roots total_share slippage_tolerance deposit0.amount deposit1.amount
          pool0.amount pool1.amount
    receiver' ← map_err std (addr_opt_validate api receiver)
    let denom = config.pool_info.liquidity_token
    total ← add u128_max total_share minimum
    total' ← add u128_max total share
    new_pool0 ← add u128_max pool0.amount deposit0.amount
    new_pool1 ← add u128_max pool1.amount deposit1.amount
    let s' : Storage = record s { lp_share_amount = some total' }
    (s'', config') ←
        save_deposit dec call.now s' config total_share new_pool0 new_pool1 pool0.amount
          pool1.amount
    let lp : Coin = record { denom = denom; amount = share }
    ok (
      s'',
      messages
          ++ mint_minimum denom minimum
          ++ mint lp ∷ bank_send (unwrap_or receiver' call.sender) (lp ∷ []) ∷ [],
    )

module _ (dec : Decimals) (querier : Querier) (roots : Roots) where
  -- What follows once the assets are received: `pools` are the balances before the deposit.
  unfoldable pub deposit :
      Api
      → Call
      → Storage
      → Config
      → List AssetValidated
      → List ℕ
      → List AssetValidated
      → List Msg
      → Option ℕ
      → Option String
      → Outcome ContractError (Storage × List Msg)
  deposit api call s config assets is pools messages slippage_tolerance receiver = do
    (s', config', pools', deposits, messages') ←
        prepare dec querier call s config assets is pools messages
    issue dec roots api call s' config' pools' deposits slippage_tolerance receiver messages'

  unfoldable pub provide_liquidity :
      Api
      → Call
      → Storage
      → List Asset
      → Option ℕ
      → Option String
      → Outcome ContractError (Storage × List Msg)
  provide_liquidity api call s sent slippage_tolerance receiver = do
    assets ← check_assets api sent
    check_if_frozen s
    fail_if (ltb 2 (length assets)) (too_many_assets 2 (length assets))
    fail_if (all_zero assets) invalid_zero_amount
    config ← load_config s
    balances ← map_err std (query_pools querier config.pool_info.asset_infos call.contract)
    is ← pool_indices assets balances
    (pools, messages) ← receive_all call assets is balances []
    deposit api call s config assets is pools messages slippage_tolerance receiver
