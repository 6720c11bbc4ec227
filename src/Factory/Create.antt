-- ===== src/Factory/Create.antt =====
-- contracts/factory/src/contract.rs: the creation of a pool, in two steps. `execute_create_pair` stores
-- what is to be registered and asks the chain for the pool; `instantiate_pair` is the reply.
use whelp_contracts.Prelude.{
  ℕ, String, Bool, true, false, not, ◌&&◌, ◌||◌, Option, none, some, List, [], ◌∷◌, ◌++◌, leb,
  str_eq, unwrap_or, if◌then◌else◌,
}
use whelp_contracts.Outcome.{Outcome, ok, ◌>>=◌, ◌>>◌, fail_if, map_err, ok_or}
use whelp_contracts.Dex.Error.{StdError, not_found}
use whelp_contracts.Dex.Asset.{
  Api, Asset, AssetInfo, AssetInfoValidated, Coin, equal, validate_address,
}
use whelp_contracts.Dex.Oracle.{seconds}
use whelp_contracts.Dex.Oracle.Query.{into_info}
use whelp_contracts.Dex.Spread.{FeeConfig}
use whelp_contracts.Dex.Querier.{Call}
use whelp_contracts.MultiHop.{text}
use whelp_contracts.Pool.State.{PoolType, PairInfo}
use whelp_contracts.Pool.Contract.{InstantiateMsg as PoolInstantiateMsg}
use whelp_contracts.TextMap.{lookup, has, save}
use whelp_contracts.Factory.{
  ContractError, std, unauthorized, pool_was_created, pool_was_registered, pool_config_not_found,
  pool_config_disabled, permissionless_requires_deposit, type_name, PoolConfig, PartialStakeConfig,
  combine_with, to_stake_config, DistributionFlow, Config, TmpPoolInfo, Storage, FactoryMsg,
  create_flow, instantiate_pool, load_config, pair_key, check_asset_infos,
}

-- `to_string` of an asset that a caller sent.
unfoldable pub info_text : AssetInfo → String
info_text (AssetInfo.cw20_token contract) = contract
info_text (AssetInfo.smart_token denom) = denom

unfoldable pub permissionless_fee_sent : Asset → List Coin → Bool
permissionless_fee_sent deposit [] = false
permissionless_fee_sent deposit (c ∷ funds) =
    (leb deposit.amount c.amount && str_eq c.denom (info_text deposit.info))
    || permissionless_fee_sent deposit funds

-- The arguments of the messages that create a pool.
pub record NewPool : Type 0 where
  pub pool_type : PoolType
  pub asset_infos : List AssetInfo
  pub init_params : Option String
  pub total_fee_bps : Option ℕ
  pub staking_config : PartialStakeConfig

unfoldable pub infos_of : List AssetInfoValidated → List AssetInfo
infos_of [] = []
infos_of (i ∷ infos) = into_info i ∷ infos_of infos

-- The message that creates the pool.
unfoldable pub pool_msg :
    Call → Config → PoolConfig → List AssetInfoValidated → NewPool → FactoryMsg
pool_msg call config pair_config infos new =
    let fees : FeeConfig = record {
      total_fee_bps = unwrap_or new.total_fee_bps pair_config.fee_config.total_fee_bps;
      protocol_fee_bps = pair_config.fee_config.protocol_fee_bps;
    } in
    let msg : PoolInstantiateMsg = record {
      asset_infos = infos_of infos;
      factory_addr = call.contract;
      fee_config = fees;
      verified = str_eq call.sender config.owner;
      staking_config =
          to_stake_config (combine_with config.default_stake_config new.staking_config);
      trading_starts = unwrap_or config.trading_starts (seconds call.now);
      circuit_breaker = none;
    } in
    instantiate_pool config.owner pair_config.code_id new.init_params msg

unfoldable pub execute_create_pair :
    Api
    → Call
    → Storage
    → NewPool
    → List DistributionFlow
    → Outcome ContractError (Storage × List FactoryMsg)
execute_create_pair api call s new flows = do
  infos ← check_asset_infos api new.asset_infos
  config ← load_config s
  let is_owner = str_eq call.sender config.owner
  fail_if (config.only_owner_can_create_pools && not is_owner) unauthorized
  fail_if
      (not config.only_owner_can_create_pools
        && not (permissionless_fee_sent config.pool_creation_fee call.funds))
      permissionless_requires_deposit
  fail_if (has (pair_key infos) s.pairs) pool_was_created
  pair_config ← ok_or (lookup (type_name new.pool_type) s.pair_configs) pool_config_not_found
  fail_if pair_config.is_disabled pool_config_disabled
  let tmp : TmpPoolInfo = record {
    pair_key = pair_key infos;
    asset_infos = infos;
    distribution_flows = flows;
  }
  ok (record s { tmp_pair_info = some tmp }, pool_msg call config pair_config infos new ∷ [])

-- `ROUTE.update` at two texts.
unfoldable pub update_route :
    String
    → String
    → (Option (List String) → List String)
    → (String → String → Option (List String))
    → String
    → String
    → Option (List String)
update_route a b change route x y =
    if str_eq a x && str_eq b y then some (change (route a b)) else route x y

-- The two loops over the pairs of different assets.
unfoldable pub update_routes_from :
    AssetInfoValidated
    → List AssetInfoValidated
    → (Option (List String) → List String)
    → (String → String → Option (List String))
    → String
    → String
    → Option (List String)
update_routes_from i [] change route = route
update_routes_from i (j ∷ infos) change route =
    update_routes_from i infos change
      (if equal i j then route else update_route (text i) (text j) change route)

unfoldable pub update_routes :
    List AssetInfoValidated
    → List AssetInfoValidated
    → (Option (List String) → List String)
    → (String → String → Option (List String))
    → String
    → String
    → Option (List String)
update_routes [] all change route = route
update_routes (i ∷ infos) all change route =
    update_routes infos all change (update_routes_from i all change route)

-- The new pool comes last.
unfoldable pub push_route : String → Option (List String) → List String
push_route pair none = pair ∷ []
push_route pair (some contracts) = contracts ++ pair ∷ []

unfoldable pub set_address : String → Bool → (String → Bool) → String → Bool
set_address a b addresses x = if str_eq a x then b else addresses x

unfoldable pub flow_messages : String → String → List DistributionFlow → List FactoryMsg
flow_messages staking manager [] = []
flow_messages staking manager (f ∷ flows) =
    create_flow staking manager f.asset f.rewards ∷ flow_messages staking manager flows

-- `query_pair_info` asks a pool for its description; the last argument is the address of the reply.
unfoldable pub instantiate_pair :
    Api
    → (String → Outcome StdError PairInfo)
    → Call
    → Storage
    → String
    → Outcome ContractError (Storage × List FactoryMsg)
instantiate_pair api query_pair_info call s contract_address = do
  tmp ← map_err std (ok_or s.tmp_pair_info not_found)
  fail_if (has tmp.pair_key s.pairs) pool_was_registered
  pair ← map_err std (validate_address api contract_address)
  info ← map_err std (query_pair_info pair)
  ok (
    record s {
      pairs = save tmp.pair_key pair s.pairs;
      route = update_routes tmp.asset_infos tmp.asset_infos (push_route pair) s.route;
      staking_addresses = set_address info.staking_addr true s.staking_addresses;
    },
    flow_messages info.staking_addr call.contract tmp.distribution_flows,
  )
