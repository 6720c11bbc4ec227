-- ===== src/Factory/Tests.antt =====
-- The factory on concrete messages.
pub mod Deploy
use whelp_contracts.Prelude.{
  String, ◌≡◌, refl, true, false, none, some, List, [], ◌∷◌, ◌^◌, inl, inr,
}
use whelp_contracts.Outcome.{Outcome, ok, value_or, is_ok→eq-ok, traverse}
use whelp_contracts.Num.{one}
use whelp_contracts.Dex.Error.{StdError}
use whelp_contracts.Dex.Asset.{
  Api, Asset, AssetInfo, AssetInfoValidated, Coin, all_unique, occurs, same_info, validate_info,
  validate_address, addr_opt_validate, check_asset_infos as check_infos,
}
use whelp_contracts.Dex.Oracle.Query.{into_info}
use whelp_contracts.Dex.Spread.{valid_fee_bps}
use whelp_contracts.Dex.Querier.{Call, Querier}
use whelp_contracts.MultiHop.{text}
use whelp_contracts.Pool.State.{PoolType, PairInfo, Config as PoolState, Storage as PoolStorage}
use whelp_contracts.Pool.Contract.{
  SubMsg, InstantiateMsg as PoolMsg, instantiate as pool_instantiate, validate_fees,
  format_lp_token_name, short_symbols, empty_oracle,
}
use whelp_contracts.Factory.{
  type_name, PoolConfig, DefaultStakeConfig, PartialStakeConfig, combine_with, to_stake_config,
  Config, Storage, FactoryMsg, instantiate_pool, load_config, insert, sorted, flatten, texts,
  pair_key, check_asset_infos, owned,
}
use whelp_contracts.Factory.Create.{
  info_text, permissionless_fee_sent, NewPool, infos_of, pool_msg, execute_create_pair,
  instantiate_pair,
}
use whelp_contracts.Factory.Registry.{load_pair, deregister_pool_and_staking}
use whelp_contracts.Factory.Deploy.{execute_create_pair-instantiate}
use whelp_contracts.Factory.Laws.{
  execute_create_pair-instantiate_pair, deregister_pool_and_staking-instantiate_pair,
  receive_cw20_message_refused,
}
use whelp_contracts.Factory.Contract.{
  InstantiateMsg, check_trading_start, named, has_duplicates, save_all, instantiate, create_pool,
  receive_cw20_message, execute, reply,
}
use whelp_contracts.Factory.Contract.Access.{Granted, execute-Granted}
use whelp_contracts.Factory.Contract.Invariant.{WellFormed}
use whelp_contracts.Factory.Contract.History.{
  Reachable, here, executed, replied, Reachable-IsRegistry,
}

abbrev pub api : Api
api = record { addr_validate = λ a. some a; to_lowercase = λ a. a; take_chars = λ n a. a }

abbrev pub querier : Querier
querier = record {
  bank_balance = λ account denom. ok 0;
  token_balance = λ token account. ok 0;
  factory_config =
      λ address. ok (record { owner = "dao"; fee_address = none; max_referral_commission = 0 });
  token_symbol = λ token. ok "token";
}

abbrev pub stakes : DefaultStakeConfig
stakes = record {
  staking_code_id = 3;
  tokens_per_power = 1000;
  min_bond = 1000;
  unbonding_periods = 60 ∷ [];
  max_distributions = 6;
}

abbrev pub fee : Asset
fee = record { info = AssetInfo.smart_token "core"; amount = 3000 }

abbrev pub xyk_config : PoolConfig
xyk_config = record {
  code_id = 7;
  pool_type = PoolType.xyk;
  fee_config = record { total_fee_bps = 30; protocol_fee_bps = 1000 };
  is_disabled = false;
}

abbrev pub setup : InstantiateMsg
setup = record {
  pool_configs = xyk_config ∷ [];
  fee_address = none;
  owner = "dao";
  max_referral_commission = one;
  default_stake_config = stakes;
  trading_starts = none;
  pool_creation_fee = fee;
}

abbrev pub call : String → List Coin → Call
call sender funds = record { now = 10 ^ 9; contract = "factory"; sender = sender; funds = funds }

abbrev pub empty : Storage
empty = record {
  tmp_pair_info = none;
  config = none;
  pairs = [];
  staking_addresses = λ a. false;
  pair_configs = [];
  ownership_proposal = none;
  pairs_to_migrate = none;
  route = λ a b. none;
}

abbrev pub start : Storage
start = value_or (instantiate api (call "dao" []) setup) empty

starts : instantiate api (call "dao" []) setup ≡ ok start
unfolding instantiate check_trading_start validate_address addr_opt_validate has_duplicates named
    save_all valid_fee_bps
starts = is_ok→eq-ok (instantiate api (call "dao" []) setup) empty refl

abbrev pub coin : String → AssetInfo
coin denom = AssetInfo.smart_token denom

abbrev asset : String → AssetInfoValidated
asset denom = AssetInfoValidated.smart_token denom

abbrev pub no_stakes : PartialStakeConfig
no_stakes = record {
  staking_code_id = none;
  tokens_per_power = none;
  min_bond = some 10;
  unbonding_periods = none;
  max_distributions = none;
}

abbrev pub new_pool : List AssetInfo → NewPool
new_pool infos = record {
  pool_type = PoolType.xyk;
  asset_infos = infos;
  init_params = none;
  total_fee_bps = none;
  staking_config = no_stakes;
}

abbrev pub usd_eur : NewPool
usd_eur = new_pool (coin "usd" ∷ coin "eur" ∷ [])

-- Anybody who sends the fee creates a pool.
abbrev pub payer : Call
payer = call "alice" (record { denom = "core"; amount = 3000 } ∷ [])

abbrev pub created : Storage × List FactoryMsg
created = value_or (execute_create_pair api payer start usd_eur []) (start, [])

creates : execute_create_pair api payer start usd_eur [] ≡ ok created
unfolding execute_create_pair check_asset_infos all_unique occurs same_info validate_info
    load_config permissionless_fee_sent info_text pair_key sorted insert flatten texts text
    type_name pool_msg instantiate check_trading_start validate_address addr_opt_validate
    has_duplicates named save_all valid_fee_bps traverse
creates = is_ok→eq-ok (execute_create_pair api payer start usd_eur []) (start, []) refl

abbrev pair_info : String → Outcome StdError PairInfo
pair_info pool = ok (record {
  asset_infos = asset "usd" ∷ asset "eur" ∷ [];
  contract_addr = pool;
  liquidity_token = "lp";
  staking_addr = "stake";
  pool_type = PoolType.xyk;
  verified = false;
  fee_config = record { total_fee_bps = 30; protocol_fee_bps = 1000 };
})

abbrev registered : Storage × List FactoryMsg
registered =
    value_or (instantiate_pair api pair_info (call "chain" []) (created.0) "pool") (start, [])

registers : instantiate_pair api pair_info (call "chain" []) (created.0) "pool" ≡ ok registered
unfolding execute_create_pair check_asset_infos all_unique occurs same_info validate_info
    load_config permissionless_fee_sent info_text pair_key sorted insert flatten texts text
    type_name pool_msg instantiate check_trading_start validate_address addr_opt_validate
    has_duplicates named save_all valid_fee_bps instantiate_pair traverse
registers =
    is_ok→eq-ok (instantiate_pair api pair_info (call "chain" []) (created.0) "pool") (start, [])
      refl

checked : check_asset_infos api (coin "usd" ∷ coin "eur" ∷ []) ≡ ok (asset "usd" ∷ asset "eur" ∷ [])
unfolding check_asset_infos all_unique occurs same_info validate_info traverse
checked = refl

checked_swapped :
    check_asset_infos api (coin "eur" ∷ coin "usd" ∷ []) ≡ ok (asset "eur" ∷ asset "usd" ∷ [])
unfolding check_asset_infos all_unique occurs same_info validate_info traverse
checked_swapped = refl

execute_create_pair-instantiate_pair_example : ¬ (
    execute_create_pair api payer (registered.0) (new_pool (coin "eur" ∷ coin "usd" ∷ [])) []
    ≡ ok created)
execute_create_pair-instantiate_pair_example =
    execute_create_pair-instantiate_pair api pair_info payer (call "chain" []) payer start usd_eur
      (new_pool (coin "eur" ∷ coin "usd" ∷ [])) [] [] "pool" (asset "usd") (asset "eur") checked
      (inl refl) creates registers checked_swapped (inr refl)

abbrev removed : Storage × List FactoryMsg
removed =
    value_or
      (deregister_pool_and_staking api pair_info (call "dao" []) (registered.0)
        (coin "eur" ∷ coin "usd" ∷ []))
      (start, [])

removes :
    deregister_pool_and_staking api pair_info
      (call "dao" [])
      (registered.0)
      (coin "eur" ∷ coin "usd" ∷ [])
    ≡ ok removed
unfolding execute_create_pair check_asset_infos all_unique occurs same_info validate_info
    load_config permissionless_fee_sent info_text pair_key sorted insert flatten texts text
    type_name pool_msg instantiate check_trading_start validate_address addr_opt_validate
    has_duplicates named save_all valid_fee_bps instantiate_pair deregister_pool_and_staking owned
    load_pair traverse
removes =
    is_ok→eq-ok
      (deregister_pool_and_staking api pair_info (call "dao" []) (registered.0)
        (coin "eur" ∷ coin "usd" ∷ []))
      (start, []) refl

validated :
    traverse (validate_info api) (coin "eur" ∷ coin "usd" ∷ [])
    ≡ ok (asset "eur" ∷ asset "usd" ∷ [])
unfolding traverse validate_info
validated = refl

deregister_pool_and_staking-instantiate_pair_example :
    (removed.0.pairs ≡ start.pairs) × (removed.0.pair_configs ≡ start.pair_configs)
deregister_pool_and_staking-instantiate_pair_example =
    deregister_pool_and_staking-instantiate_pair api pair_info payer (call "chain" [])
      (call "dao" []) start usd_eur [] "pool" (coin "eur" ∷ coin "usd" ∷ []) (asset "usd")
      (asset "eur") checked (inl refl) creates registers validated (inr refl) removes

abbrev config : Config
config = record {
  owner = "dao";
  fee_address = none;
  max_referral_commission = one;
  default_stake_config = stakes;
  only_owner_can_create_pools = false;
  pool_creation_fee = record { info = AssetInfo.cw20_token "token"; amount = 3000 };
  trading_starts = none;
}

receive_cw20_message_refused_example : ¬ (
    receive_cw20_message api
      (call "token" [])
      (record start { config = some config })
      3000
      (some (record { new = usd_eur; distribution_flows = [] }))
    ≡ ok created)
receive_cw20_message_refused_example =
    receive_cw20_message_refused api pair_info (call "token" [])
      (record start { config = some config }) 3000
      (some (record { new = usd_eur; distribution_flows = [] })) {config = config} refl refl refl

executes : execute api querier pair_info payer start (create_pool usd_eur) ≡ ok created
unfolding execute
executes = creates

execute-Granted_example : Granted start payer (create_pool usd_eur)
execute-Granted_example =
    execute-Granted api querier pair_info payer start (create_pool usd_eur) executes

replies : reply api querier pair_info (call "chain" []) (created.0) (some "pool") ≡ ok registered
unfolding reply
replies = registers

reached : Reachable api querier pair_info start (registered.0)
reached =
    replied (call "chain" []) (some "pool") (executed payer (create_pool usd_eur) here executes)
      replies

Reachable-IsRegistry_example : WellFormed (registered.0)
Reachable-IsRegistry_example =
    Reachable-IsRegistry api querier pair_info (call "dao" []) setup starts reached
