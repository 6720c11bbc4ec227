-- ===== src/Factory/Tests/Deploy.antt =====
-- A pool that the factory asks for, on concrete messages.
use whelp_contracts.Prelude.{◌≡◌, refl, true, false, none, some, List, [], ◌∷◌, ◌^◌}
use whelp_contracts.Outcome.{ok, value_or, is_ok→eq-ok, traverse}
use whelp_contracts.Num.{one}
use whelp_contracts.Dex.Asset.{
  AssetInfo, all_unique, occurs, same_info, validate_info, validate_address, addr_opt_validate,
  check_asset_infos as check_infos,
}
use whelp_contracts.Dex.Oracle.Query.{into_info}
use whelp_contracts.Dex.Spread.{valid_fee_bps}
use whelp_contracts.Dex.Querier.{Call}
use whelp_contracts.MultiHop.{text}
use whelp_contracts.Pool.State.{Config as PoolState, Storage as PoolStorage}
use whelp_contracts.Pool.Contract.{
  SubMsg, InstantiateMsg as PoolMsg, instantiate as pool_instantiate, validate_fees,
  format_lp_token_name, short_symbols, empty_oracle,
}
use whelp_contracts.Factory.{
  type_name, combine_with, to_stake_config, Config, instantiate_pool, load_config, insert, sorted,
  flatten, texts, pair_key, check_asset_infos,
}
use whelp_contracts.Factory.Create.{
  info_text, permissionless_fee_sent, infos_of, pool_msg, execute_create_pair,
}
use whelp_contracts.Factory.Deploy.{execute_create_pair-instantiate}
use whelp_contracts.Factory.Contract.{
  check_trading_start, named, has_duplicates, save_all, instantiate,
}
use whelp_contracts.Factory.Tests.{
  api, querier, stakes, start, coin, no_stakes, usd_eur, payer, created,
}

abbrev start_config : Config
start_config = record {
  owner = "dao";
  fee_address = none;
  max_referral_commission = one;
  default_stake_config = stakes;
  only_owner_can_create_pools = false;
  pool_creation_fee = record { info = AssetInfo.smart_token "core"; amount = 3000 };
  trading_starts = none;
}

start_config_stored : start.config ≡ some start_config
unfolding instantiate check_trading_start validate_address addr_opt_validate has_duplicates named
    save_all valid_fee_bps
start_config_stored = refl

abbrev message : PoolMsg
message = record {
  asset_infos = coin "usd" ∷ coin "eur" ∷ [];
  factory_addr = "factory";
  fee_config = record { total_fee_bps = 30; protocol_fee_bps = 1000 };
  verified = false;
  staking_config = to_stake_config (combine_with stakes no_stakes);
  trading_starts = 1;
  circuit_breaker = none;
}

asks :
    execute_create_pair api payer start usd_eur []
    ≡ ok (created.0, instantiate_pool "dao" 7 none message ∷ [])
unfolding execute_create_pair check_asset_infos all_unique occurs same_info validate_info
    load_config permissionless_fee_sent info_text pair_key sorted insert flatten texts text
    type_name pool_msg instantiate check_trading_start validate_address addr_opt_validate
    has_duplicates named save_all valid_fee_bps infos_of traverse into_info
asks = refl

abbrev pool_call : Call
pool_call = record { now = 10 ^ 9; contract = "pool"; sender = "factory"; funds = [] }

abbrev empty_pool : PoolStorage
empty_pool = record {
  config = none;
  circuit_breaker = none;
  frozen = none;
  lp_share_amount = none;
  tmp_staking_config = none;
  oracle = empty_oracle;
}

abbrev pool_start : PoolStorage × List SubMsg
pool_start = value_or (pool_instantiate api querier pool_call message) (empty_pool, [])

pool_starts : pool_instantiate api querier pool_call message ≡ ok pool_start
unfolding pool_instantiate check_infos all_unique occurs same_info validate_info validate_fees
    format_lp_token_name short_symbols valid_fee_bps validate_address traverse
pool_starts = is_ok→eq-ok (pool_instantiate api querier pool_call message) (empty_pool, []) refl

execute_create_pair-instantiate_example :
    (start_config.owner ≡ start_config.owner)
    × ((pool : PoolState) × (pool_start.0.config ≡ some pool)
        × (validate_address api "factory" ≡ ok pool.factory_addr)
        × (pool.pool_info.verified ≡ false)
        × (valid_fee_bps pool.pool_info.fee_config ≡ true)
        × (pool_start.0.tmp_staking_config
            ≡ some (to_stake_config (combine_with stakes no_stakes))))
execute_create_pair-instantiate_example =
    execute_create_pair-instantiate api querier payer pool_call start usd_eur [] "dao" 7 none
      message start_config_stored asks pool_starts
