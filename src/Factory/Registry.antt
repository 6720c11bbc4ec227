-- ===== src/Factory/Registry.antt =====
-- contracts/factory/src/contract.rs: the handlers that change the configuration and the registry, and
-- those that pass a message on to a pool or to its staking contract.
use whelp_contracts.Prelude.{
  ℕ, String, Bool, false, not, ◌||◌, Option, none, some, List, [], ◌∷◌, str_eq, unwrap_or,
  if◌then◌else◌,
}
use whelp_contracts.Outcome.{Outcome, ok, ◌>>=◌, ◌>>◌, fail_if, map_err, ok_or, traverse}
use whelp_contracts.Dex.Error.{StdError, not_found}
use whelp_contracts.Dex.Asset.{
  Api, AssetInfo, AssetInfoValidated, validate_info, validate_asset, validate_address, into_msg,
}
use whelp_contracts.Dex.Spread.{FeeConfig, valid_fee_bps}
use whelp_contracts.Dex.Ownership.{validate_addresses}
use whelp_contracts.Dex.Querier.{Call, Querier}
use whelp_contracts.MultiHop.{balance_of}
use whelp_contracts.Pool.State.{PairInfo}
use whelp_contracts.TextMap.{lookup, save, remove}
use whelp_contracts.Factory.{
  ContractError, std, pool_config_invalid_fee_bps, type_name, PoolConfig, PartialStakeConfig,
  combine_with, DefaultStakeConfig, Config, Storage, FactoryMsg, update_pool_fees, create_flow, pay,
  load_config, pair_key, check_asset_infos, owned,
}
use whelp_contracts.Factory.Create.{update_routes, set_address}

-- `PAIRS.load`
unfoldable pub load_pair : Storage → List AssetInfoValidated → Outcome ContractError String
load_pair s infos = map_err std (ok_or (lookup (pair_key infos) s.pairs) not_found)

pub record UpdateConfig : Type 0 where
  pub fee_address : Option String
  pub only_owner_can_create_pools : Option Bool
  pub default_stake_config : Option PartialStakeConfig

-- The fee address after an update.
unfoldable pub new_fee_address :
    Api → Option String → Option String → Outcome ContractError (Option String)
new_fee_address api none old = ok old
new_fee_address api (some a) old = do b ← map_err std (validate_address api a); ok (some b)

-- The stake configuration after an update.
unfoldable pub new_stake_config :
    Option PartialStakeConfig → DefaultStakeConfig → DefaultStakeConfig
new_stake_config none old = old
new_stake_config (some partial) old = combine_with old partial

unfoldable pub execute_update_config :
    Api → Call → Storage → UpdateConfig → Outcome ContractError (Storage × List FactoryMsg)
execute_update_config api call s param = do
  config ← owned s call.sender
  fee_address ← new_fee_address api param.fee_address config.fee_address
  let stake_config = new_stake_config param.default_stake_config config.default_stake_config
  let config' : Config = record config {
    fee_address = fee_address;
    only_owner_can_create_pools =
        unwrap_or param.only_owner_can_create_pools config.only_owner_can_create_pools;
    default_stake_config = stake_config;
  }
  ok (record s { config = some config' }, [])

unfoldable pub execute_update_pair_config :
    Call → Storage → PoolConfig → Outcome ContractError (Storage × List FactoryMsg)
execute_update_pair_config call s pair_config = do
  config ← owned s call.sender
  fail_if (not (valid_fee_bps pair_config.fee_config)) pool_config_invalid_fee_bps
  let name = type_name pair_config.pool_type
  ok (record s { pair_configs = save name pair_config s.pair_configs }, [])

unfoldable pub execute_update_pair_fees :
    Api
    → Call
    → Storage
    → List AssetInfo
    → FeeConfig
    → Outcome ContractError (Storage × List FactoryMsg)
execute_update_pair_fees api call s asset_infos fee_config = do
  config ← owned s call.sender
  infos ← check_asset_infos api asset_infos
  pair ← load_pair s infos
  ok (s, update_pool_fees pair fee_config ∷ [])

-- `pair` occurs in the list.
unfoldable pub contains : String → List String → Bool
contains pair [] = false
contains pair (p ∷ pairs) = str_eq p pair || contains pair pairs

-- `filter(|addr| !pairs.contains(addr))`
unfoldable pub not_migrated : List String → List String → List String
not_migrated pairs [] = []
not_migrated pairs (a ∷ addresses) =
    let rest = not_migrated pairs addresses in if contains a pairs then rest else a ∷ rest

unfoldable pub execute_mark_pairs_as_migrated :
    Api → Call → Storage → List String → Outcome ContractError (Storage × List FactoryMsg)
execute_mark_pairs_as_migrated api call s pairs = do
  config ← owned s call.sender
  pairs' ← map_err std (validate_addresses api pairs)
  addresses ← map_err std (ok_or s.pairs_to_migrate not_found)
  ok (record s { pairs_to_migrate = some (not_migrated pairs' addresses) }, [])

-- `pairs.unwrap_or_default()` without one address.
unfoldable pub drop_route : String → Option (List String) → List String
drop_route pair none = []
drop_route pair (some contracts) = not_migrated (pair ∷ []) contracts

module _ (api : Api) (query_pair_info : String → Outcome StdError PairInfo) where
  unfoldable pub execute_create_distribution_flow :
      Call
      → Storage
      → List AssetInfo
      → AssetInfo
      → List (ℕ × ℕ)
      → Outcome ContractError (Storage × List FactoryMsg)
  execute_create_distribution_flow call s asset_infos asset rewards = do
    config ← owned s call.sender
    infos ← check_asset_infos api asset_infos
    pair ← load_pair s infos
    info ← map_err std (query_pair_info pair)
    ok (s, create_flow info.staking_addr call.contract asset rewards ∷ [])

  unfoldable pub deregister_pool_and_staking :
      Call → Storage → List AssetInfo → Outcome ContractError (Storage × List FactoryMsg)
  deregister_pool_and_staking call s asset_infos = do
    infos ← map_err std (traverse (validate_info api) asset_infos)
    config ← owned s call.sender
    pair ← load_pair s infos
    info ← map_err std (query_pair_info pair)
    ok (
      record s {
        pairs = remove (pair_key infos) s.pairs;
        staking_addresses = set_address info.staking_addr false s.staking_addresses;
        route = update_routes infos infos (drop_route pair) s.route;
      },
      [],
    )

unfoldable pub execute_withdraw_pool_creation_fees :
    Api → Querier → Call → Storage → Outcome ContractError (Storage × List FactoryMsg)
execute_withdraw_pool_creation_fees api querier call s = do
  config ← load_config s
  let info = config.pool_creation_fee.info
  balance ← map_err std (balance_of querier info call.contract)
  asset ← map_err std (validate_asset api (record { info = info; amount = balance }))
  ok (s, pay (into_msg asset config.owner) ∷ [])
