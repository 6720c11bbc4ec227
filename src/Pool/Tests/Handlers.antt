-- ===== src/Pool/Tests/Handlers.antt =====
-- The handlers of the constant product pool on concrete states.
use whelp_contracts.Prelude.{
  ℕ, String, ◌+◌, ◌*◌, ◌^◌, ◌≡◌, refl, ◌⊎◌, true, false, none, some, List, [], ◌∷◌, arith, str_eq,
  if◌then◌else◌,
}
use whelp_contracts.Outcome.{Outcome, ok, value_or, is_ok→eq-ok, traverse}
use whelp_contracts.Num.{floors, one}
use whelp_contracts.Dex.Error.{ContractError}
use whelp_contracts.Dex.Asset.{
  Api, Asset, AssetInfo, AssetInfoValidated, AssetValidated, Coin, Msg, into_msg, burn,
  check_swap_parameters, equal, check_assets, all_unique, infos, occurs, same_info, validate_asset,
  validate_info, receive, assert_sent_native_token_balance, find_coin, is_native_token,
  addr_opt_validate,
}
use whelp_contracts.Dex.Spread.{
  total_fee_rate, protocol_fee_rate, assert_max_spread, get_share_in_assets, share_of,
}
use whelp_contracts.Dex.Spread.Laws.{Fair}
use whelp_contracts.Dex.Oracle.{new_accumulator, update_accumulator, twaps_at, accumulate_nanos}
use whelp_contracts.Dex.Oracle.Buffer.{calc_checkpoint}
use whelp_contracts.Dex.Oracle.Store.{initialize_oracle, store_oracle_price, update_period}
use whelp_contracts.Dex.Querier.{Querier, Call, FactoryConfig, query_pools, query_balance}
use whelp_contracts.Pool.State.{
  PoolType, Config, Storage, at, pool_info, load_share, load_config, check_if_frozen,
}
use whelp_contracts.Pool.Curve.{compute_swap, assert_slippage_tolerance, exceeds}
use whelp_contracts.Pool.Swap.{
  SwapResult, do_swap, choose_pools, protocol_fee, calculate_protocol_fee, new_pools, save_history,
  save_oracle, save_prices, accumulate_prices, accumulated,
}
use whelp_contracts.Pool.Swap.Laws.{IsSwap, do_swap-IsSwap}
use whelp_contracts.Pool.Liquidity.{
  share_of_deposit, provide_liquidity, all_zero, pool_indices, index_of, receive_all, change_at,
  deposit, prepare, issue, deposit_of, save_deposit, mint_minimum,
}
use whelp_contracts.Pool.Liquidity.Laws.{roots_of_squares}
use whelp_contracts.Pool.Withdraw.{withdraw_liquidity, first_coin, shrink}
use whelp_contracts.Pool.Withdraw.Laws.{withdraw_liquidity-Fair}
use whelp_contracts.Pool.Contract.{update_fees}
use whelp_contracts.Pool.Contract.Execute.{ExecuteMsg, execute}
use whelp_contracts.Pool.Contract.Access.{Allowed, execute-Allowed}
use whelp_contracts.Pool.Contract.Frame.{Changes, execute-Changes}
use whelp_contracts.Pool.Contract.Minted.{minted, provide_liquidity-minted}

abbrev usd : AssetInfoValidated
usd = AssetInfoValidated.smart_token "usd"

abbrev eur : AssetInfoValidated
eur = AssetInfoValidated.smart_token "eur"

abbrev of_usd : ℕ → AssetValidated
of_usd n = record { info = usd; amount = n }

abbrev of_eur : ℕ → AssetValidated
of_eur n = record { info = eur; amount = n }

abbrev factory : FactoryConfig
factory = record { owner = "dao"; fee_address = some "fees"; max_referral_commission = 0 }

-- The pool has 4000 usd and 9000 eur.
abbrev querier : Querier
querier = record {
  bank_balance = λ account denom. ok (if str_eq denom "usd" then 4000 else 9000);
  token_balance = λ token account. ok 0;
  factory_config = λ address. ok factory;
  token_symbol = λ token. ok "token";
}

abbrev api : Api
api = record { addr_validate = λ a. some a; to_lowercase = λ a. a; take_chars = λ n a. a }

abbrev config : Config
config = record {
  pool_info = record {
    asset_infos = usd ∷ eur ∷ [];
    contract_addr = "pool";
    liquidity_token = "lp";
    staking_addr = "stake";
    pool_type = PoolType.xyk;
    verified = true;
    fee_config = record { total_fee_bps = 100; protocol_fee_bps = 5000 };
  };
  factory_addr = "factory";
  block_time_last = 0;
  price0_cumulative_last = 0;
  price1_cumulative_last = 0;
  trading_starts = 0;
}

abbrev storage : ℕ → Storage
storage shares = record {
  config = some config;
  circuit_breaker = none;
  frozen = some false;
  lp_share_amount = some shares;
  tmp_staking_config = none;
  oracle = initialize_oracle 0 one;
}

abbrev call : String → List Coin → Call
call sender funds = record { now = 5 * 10 ^ 9; contract = "pool"; sender = sender; funds = funds }

abbrev coin : String → ℕ → Coin
coin denom n = record { denom = denom; amount = n }

abbrev sent_lp : Call
sent_lp = call "bob" (coin "lp" 600 ∷ [])

-- A swap of 400 usd.
abbrev trade : Outcome ContractError (SwapResult × Storage × Config)
trade =
    do_swap floors (5 * 10 ^ 9) (storage 6000) config factory (of_usd 4000 ∷ of_eur 9000 ∷ [])
      (of_usd 400) none (some (5 * 10 ^ 17))

abbrev traded : SwapResult × Storage × Config
traded = value_or trade (
  record {
    return_asset = of_usd 0;
    ask_info = usd;
    spread_amount = 0;
    commission_amount = 0;
    protocol_fee_amount = 0;
    protocol_fee_msg = none;
  },
  storage 0,
  config,
)

trades : trade ≡ ok traded
unfolding do_swap at choose_pools compute_swap check_swap_parameters total_fee_rate
    assert_max_spread protocol_fee calculate_protocol_fee protocol_fee_rate into_msg new_pools equal
    save_history save_oracle save_prices accumulate_prices accumulated store_oracle_price
    initialize_oracle new_accumulator update_period calc_checkpoint update_accumulator twaps_at
    accumulate_nanos
trades = is_ok→eq-ok trade traded refl

do_swap-IsSwap_example :
    IsSwap (of_usd 4000) (of_eur 9000) (of_usd 400) (traded.0)
    ⊎ IsSwap (of_eur 9000) (of_usd 4000) (of_usd 400) (traded.0)
do_swap-IsSwap_example =
    do_swap-IsSwap floors (5 * 10 ^ 9) (storage 6000) config factory (of_usd 4000) (of_eur 9000)
      (of_usd 400) none (some (5 * 10 ^ 17)) (omega arith) (omega arith) (omega arith) trades

-- The first deposit gets 5000 shares, a later one a tenth of 6000.
first_shares : share_of_deposit floors roots_of_squares 0 none 4000 9000 0 0 ≡ ok (5000, 1000)
unfolding share_of_deposit
first_shares = refl

next_shares : share_of_deposit floors roots_of_squares 6000 none 400 900 4000 9000 ≡ ok (600, 0)
unfolding share_of_deposit assert_slippage_tolerance exceeds
next_shares = refl

-- A withdrawal of 600 of 6000 shares, and a second one from the storage that it leaves.
abbrev withdrawal : Outcome ContractError (Storage × List Msg)
withdrawal = withdraw_liquidity floors querier sent_lp (storage 6000)

abbrev withdrawn : Storage × List Msg
withdrawn = value_or withdrawal (storage 0, [])

withdraws : withdrawal ≡ ok withdrawn
unfolding withdraw_liquidity first_coin shrink pool_info query_pools query_balance load_share
    get_share_in_assets share_of at into_msg save_history save_oracle save_prices accumulate_prices
    accumulated store_oracle_price initialize_oracle new_accumulator update_period calc_checkpoint
    update_accumulator twaps_at accumulate_nanos
withdraws = is_ok→eq-ok withdrawal withdrawn refl

pays : pool_info querier (storage 6000) config ≡ ok (of_usd 4000 ∷ of_eur 9000 ∷ [], 6000)
unfolding pool_info query_pools query_balance load_share
pays = refl

withdraw_liquidity-Fair_example :
    (sent : Coin) × (refunds : List AssetValidated) × (a : AssetValidated) × (b : AssetValidated)
    × (first_coin sent_lp.funds ≡ ok sent)
    × Fair sent.amount 6000 (of_usd 4000 ∷ of_eur 9000 ∷ []) refunds
    × (at refunds 0 ≡ ok a)
    × (at refunds 1 ≡ ok b)
    × (withdrawn.1
        ≡ into_msg a "bob"
          ∷ into_msg b "bob"
          ∷ burn (record { denom = "lp"; amount = sent.amount })
          ∷ [])
withdraw_liquidity-Fair_example =
    withdraw_liquidity-Fair floors querier sent_lp (storage 6000) config
      (of_usd 4000 ∷ of_eur 9000 ∷ []) 6000 refl pays (omega arith) withdraws

abbrev second_withdrawal : Outcome ContractError (Storage × List Msg)
second_withdrawal = withdraw_liquidity floors querier sent_lp (withdrawn.0)

abbrev withdrawn_again : Storage × List Msg
withdrawn_again = value_or second_withdrawal (storage 0, [])

abbrev new_fees : ExecuteMsg
new_fees = ExecuteMsg.update_fees (record { total_fee_bps = 30; protocol_fee_bps = 0 })

abbrev changing : Outcome ContractError (Storage × List Msg)
changing = execute floors querier api roots_of_squares (call "factory" []) (storage 6000) new_fees

abbrev changed : Storage × List Msg
changed = value_or changing (storage 0, [])

changes : changing ≡ ok changed
unfolding execute update_fees load_config check_if_frozen
changes = is_ok→eq-ok changing changed refl

execute-Allowed_example :
    Allowed floors querier api roots_of_squares (storage 6000) (call "factory" []) new_fees
execute-Allowed_example =
    execute-Allowed floors querier api roots_of_squares (call "factory" []) (storage 6000) new_fees
      changes

abbrev leaving : ExecuteMsg
leaving = ExecuteMsg.withdraw_liquidity []

leaves : execute floors querier api roots_of_squares sent_lp (storage 6000) leaving ≡ ok withdrawn
unfolding execute
leaves = withdraws

execute-Changes_example :
    Changes floors querier roots_of_squares api (storage 6000) leaving (withdrawn.0)
execute-Changes_example =
    execute-Changes floors querier roots_of_squares api sent_lp (storage 6000) leaving withdrawn
      leaves

abbrev deposits : List Asset
deposits =
    record { info = AssetInfo.smart_token "usd"; amount = 4000 }
    ∷ record { info = AssetInfo.smart_token "eur"; amount = 9000 }
    ∷ []

abbrev depositor : Call
depositor = call "bob" (coin "usd" 4000 ∷ coin "eur" 9000 ∷ [])

-- The first deposit: the whole balances.
abbrev depositing : Outcome ContractError (Storage × List Msg)
depositing =
    provide_liquidity floors querier roots_of_squares api depositor (storage 0) deposits none none

abbrev deposited : Storage × List Msg
deposited = value_or depositing (storage 0, [])

deposit_works : depositing ≡ ok deposited
unfolding provide_liquidity check_assets all_unique infos occurs same_info traverse validate_asset
    validate_info check_if_frozen all_zero load_config query_pools query_balance pool_indices
    index_of equal receive_all receive assert_sent_native_token_balance find_coin is_native_token
    change_at deposit prepare issue at deposit_of load_share share_of_deposit addr_opt_validate
    save_deposit initialize_oracle new_accumulator save_prices accumulate_prices accumulated
    mint_minimum
deposit_works = is_ok→eq-ok depositing deposited refl

provide_liquidity-minted_example : deposited.0.lp_share_amount ≡ some (0 + minted (deposited.1))
provide_liquidity-minted_example =
    provide_liquidity-minted floors querier roots_of_squares api depositor (storage 0) deposits none
      none 0 deposited refl deposit_works
