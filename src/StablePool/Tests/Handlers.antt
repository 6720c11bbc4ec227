-- ===== src/StablePool/Tests/Handlers.antt =====
-- A stable pool of two coins: swaps, a deposit, a withdrawal and a search for a price.
use whelp_contracts.Prelude.{
  ℕ, String, ◌≡◌, ◌+◌, ◌*◌, ◌^◌, refl, true, false, unwrap_or, none, some, List, [], ◌∷◌, Option,
}
use whelp_contracts.Outcome.{ok, err, value_or, is_ok, is_ok→eq-ok, traverse}
use whelp_contracts.Num.{one, floors}
use whelp_contracts.Dex.Error.{not_found}
use whelp_contracts.Dex.Asset.{
  Api, Asset, AssetInfo, AssetInfoValidated, AssetValidated, Coin, Msg, all_unique, occurs,
  same_info, infos, validate_info, validate_asset, addr_opt_validate, check_assets, equal,
  assert_sent_native_token_balance, find_coin,
}
use whelp_contracts.Dex.Querier.{Call, Querier, query_balance, query_pools}
use whelp_contracts.MultiHop.{text}
use whelp_contracts.Pool.State.{stable, at}
use whelp_contracts.Pool.Contract.{empty_oracle}
use whelp_contracts.Pool.Contract.Minted.{minted}
use whelp_contracts.Pool.Liquidity.{all_zero, mint_minimum}
use whelp_contracts.Pool.Withdraw.{first_coin, shrink}
use whelp_contracts.StablePool.Amp.{Config, compute_current_amp}
use whelp_contracts.StablePool.Precision.{pow10, adjust_precision}
use whelp_contracts.StablePool.Select.{
  DecimalAsset, find_position, pool_at, select_of_two, select_pools,
}
use whelp_contracts.StablePool.Decimals.{
  to_uint256_with_precision, to_uint128_with_precision, from_integer, checked_multiply_ratio,
  with_precision, to_decimal_asset,
}
use whelp_contracts.StablePool.Curve.{
  any_zero, sum_of, close, product_of, step_d, newton_d, compute_d, amounts, pool_amount,
  add_amount, add_amounts, equation, step_y, newton_y, calc_y,
}
use whelp_contracts.StablePool.State.{
  Storage, load_config, load_share, check_if_frozen, get_precision,
}
use whelp_contracts.StablePool.Quote.{
  SwapResult, all_positive, compute_swap, accumulate_one, accumulate_all, accumulate_prices,
  calc_spot_price, info_at, pools_after_swap, calc_new_price_a_per_b, recurse_bisect_spot_price,
  find_spot_price,
}
use whelp_contracts.StablePool.Quote.Laws.{Solves, compute_swap-IsRoot}
use whelp_contracts.StablePool.Swap.{save_prices}
use whelp_contracts.StablePool.Liquidity.{
  balance_of, collect, names, omitted, receive_one, receive_all, old_balances, balances_with,
  old_pools, pools_with, in_decimals, imbalance_fee, charge, share_of_deposit, save_deposit, issue,
  provide_liquidity,
}
use whelp_contracts.StablePool.Liquidity.Laws.{provide_liquidity-lp_share_amount}
use whelp_contracts.StablePool.Withdraw.{
  collect as collect_withdrawn, balances_without, shares_to_burn, imbalanced_withdraw, pool_info,
  refund, withdraw_liquidity,
}
use whelp_contracts.StablePool.Withdraw.Laws.{Burns, withdraw_liquidity-Burns}

abbrev api : Api
api = record { addr_validate = λ a. some a; to_lowercase = λ a. a; take_chars = λ n a. a }

-- The pool holds a thousand of each coin.
abbrev querier : Querier
querier = record {
  bank_balance = λ account denom. ok (10 ^ 9);
  token_balance = λ token account. ok 0;
  factory_config = λ address. err not_found;
  token_symbol = λ token. err not_found;
}

abbrev usd : AssetInfoValidated
usd = AssetInfoValidated.smart_token "usd"

abbrev eur : AssetInfoValidated
eur = AssetInfoValidated.smart_token "eur"

abbrev config : Config
config = record {
  owner = none;
  pool_info = record {
    asset_infos = usd ∷ eur ∷ [];
    contract_addr = "pool";
    liquidity_token = "lp";
    staking_addr = "";
    pool_type = stable;
    verified = false;
    fee_config = record { total_fee_bps = 30; protocol_fee_bps = 1000 };
  };
  factory_addr = "factory";
  block_time_last = 0;
  init_amp = 10000;
  init_amp_time = 0;
  next_amp = 10000;
  next_amp_time = 0;
  greatest_precision = 6;
  cumulative_prices = (usd, eur, 0) ∷ (eur, usd, 0) ∷ [];
  trading_starts = 0;
}

abbrev storage : ℕ → Storage
storage shares = record {
  config = some config;
  circuit_breaker = none;
  frozen = some false;
  lp_share_amount = some shares;
  tmp_staking_config = none;
  precisions = λ key. some 6;
  oracle = empty_oracle;
}

abbrev pool : AssetInfoValidated → DecimalAsset
pool info = record { info = info; amount = 1000 * one }

abbrev pools : List DecimalAsset
pools = pool usd ∷ pool eur ∷ []

abbrev offered : DecimalAsset
offered = record { info = usd; amount = 100 * one }

abbrev swapped : SwapResult
swapped =
    value_or (compute_swap floors (storage 0) 1 config offered (pool usd) (pool eur) pools)
      (record { return_amount = 0; spread_amount = 0 })

swaps : is_ok (compute_swap floors (storage 0) 1 config offered (pool usd) (pool eur) pools) ≡ true
unfolding compute_swap get_precision text compute_current_amp calc_y equation equal compute_d
    amounts any_zero sum_of from_integer newton_d step_d product_of checked_multiply_ratio
    with_precision close to_uint256_with_precision to_uint128_with_precision pow10 add_amounts
    add_amount pool_amount newton_y step_y
swaps = refl

compute_swap-IsRoot_example :
    Solves floors (storage 0) 1 config offered (pool usd) (pool eur) pools swapped
compute_swap-IsRoot_example =
    compute_swap-IsRoot floors (storage 0) 1 config offered (pool usd) (pool eur) pools (
      is_ok→eq-ok (compute_swap floors (storage 0) 1 config offered (pool usd) (pool eur) pools)
        (record { return_amount = 0; spread_amount = 0 }) swaps)

-- The largest trade of at most a hundred coins that leaves the price above 0.999.
abbrev target : ℕ
target = 999 * 10 ^ 15

abbrev searched : Option ℕ
searched =
    value_or (find_spot_price floors (storage 0) 1 config usd eur pools target (10 ^ 8) 8) none

abbrev found : ℕ
found = unwrap_or searched 0

searches :
    find_spot_price floors (storage 0) 1 config usd eur pools target (10 ^ 8) 8 ≡ ok (some found)
unfolding compute_swap get_precision text compute_current_amp calc_y equation equal compute_d
    amounts any_zero sum_of from_integer newton_d step_d product_of checked_multiply_ratio
    with_precision close to_uint256_with_precision to_uint128_with_precision pow10 add_amounts
    add_amount pool_amount newton_y step_y calc_spot_price select_pools select_of_two find_position
    pool_at find_spot_price pools_after_swap recurse_bisect_spot_price
searches = refl

-- The first deposit.
abbrev coins : List Coin
coins = record { denom = "usd"; amount = 10 ^ 9 } ∷ record { denom = "eur"; amount = 10 ^ 9 } ∷ []

abbrev asset : String → ℕ → Asset
asset denom amount = record { info = AssetInfo.smart_token denom; amount = amount }

abbrev call : List Coin → Call
call funds = record { now = 10 ^ 9; contract = "pool"; sender = "alice"; funds = funds }

abbrev deposits : List Asset
deposits = asset "usd" (10 ^ 9) ∷ asset "eur" (10 ^ 9) ∷ []

abbrev deposited : Storage × List Msg
deposited =
    value_or (provide_liquidity floors querier api (call coins) (storage 0) deposits none)
      (storage 0, [])

provides :
    is_ok (provide_liquidity floors querier api (call coins) (storage 0) deposits none) ≡ true
unfolding compute_swap get_precision text compute_current_amp calc_y equation equal compute_d
    amounts any_zero sum_of from_integer newton_d step_d product_of checked_multiply_ratio
    with_precision close to_uint256_with_precision to_uint128_with_precision pow10 add_amounts
    add_amount pool_amount newton_y step_y calc_spot_price select_pools select_of_two find_position
    pool_at provide_liquidity check_if_frozen check_assets all_unique occurs same_info infos
    traverse validate_asset validate_info load_config query_pools query_balance collect
    assert_sent_native_token_balance find_coin balance_of all_zero omitted names receive_all
    receive_one in_decimals to_decimal_asset issue old_balances balances_with load_share
    share_of_deposit addr_opt_validate pools_with old_pools save_deposit calc_new_price_a_per_b
    info_at save_prices accumulate_prices accumulate_all accumulate_one all_positive
    adjust_precision mint_minimum
provides = refl

-- A withdrawal of one coin of each asset.
abbrev shares : List Coin
shares = record { denom = "lp"; amount = 5 * 10 ^ 6 } ∷ []

abbrev wanted : List Asset
wanted = asset "usd" (10 ^ 6) ∷ asset "eur" (10 ^ 6) ∷ []

abbrev withdrawn : Storage × List Msg
withdrawn =
    value_or (withdraw_liquidity floors querier api (call shares) (storage (2 * 10 ^ 9)) wanted)
      (storage 0, [])

withdraws :
    is_ok (withdraw_liquidity floors querier api (call shares) (storage (2 * 10 ^ 9)) wanted) ≡ true
unfolding compute_swap get_precision text compute_current_amp calc_y equation equal compute_d
    amounts any_zero sum_of from_integer newton_d step_d product_of checked_multiply_ratio
    with_precision close to_uint256_with_precision to_uint128_with_precision pow10 add_amounts
    add_amount pool_amount newton_y step_y withdraw_liquidity check_assets all_unique occurs
    same_info infos traverse validate_asset validate_info first_coin refund pool_info query_pools
    query_balance load_share imbalanced_withdraw collect_withdrawn balance_of in_decimals
    to_decimal_asset omitted names old_balances balances_without imbalance_fee charge shares_to_burn
    at shrink
withdraws = refl

abbrev one_of : AssetInfoValidated → AssetValidated
one_of info = record { info = info; amount = 10 ^ 6 }

checks : check_assets api wanted ≡ ok (one_of usd ∷ one_of eur ∷ [])
unfolding check_assets all_unique occurs same_info infos traverse validate_asset validate_info
checks = refl

withdraw_liquidity-Burns_example :
    Burns floors querier api
      (call shares)
      (storage (2 * 10 ^ 9))
      wanted
      (one_of usd)
      (one_of eur ∷ [])
      withdrawn
withdraw_liquidity-Burns_example =
    withdraw_liquidity-Burns floors querier api (call shares) (storage (2 * 10 ^ 9)) wanted
      (one_of usd) (one_of eur ∷ []) checks
      (is_ok→eq-ok
        (withdraw_liquidity floors querier api (call shares) (storage (2 * 10 ^ 9)) wanted)
        (storage 0, []) withdraws)

provide_liquidity-lp_share_amount_example :
    deposited.0.lp_share_amount ≡ some (0 + minted (deposited.1))
provide_liquidity-lp_share_amount_example =
    provide_liquidity-lp_share_amount floors querier api (call coins) (storage 0) deposits none 0
      refl
      (is_ok→eq-ok (provide_liquidity floors querier api (call coins) (storage 0) deposits none)
        (storage 0, []) provides)
