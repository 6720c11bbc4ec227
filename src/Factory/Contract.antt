-- ===== src/Factory/Contract.antt =====
-- contracts/factory/src/contract.rs: the entry points of the factory.
use whelp_contracts.Prelude.{
  ℕ, String, Bool, true, false, not, ◌||◌, ◌*◌, ◌+◌, Option, none, some, List, [], ◌∷◌, str_eq, ltb,
  ◌==◌, length, if◌then◌else◌,
}
use whelp_contracts.Outcome.{Outcome, ok, err, ◌>>=◌, ◌>>◌, fail_if, map_err, ok_or}
use whelp_contracts.Num.{Decimals, one, u64_max, add}
use whelp_contracts.Dex.Error.{StdError, not_found, invalid_reply}
use whelp_contracts.Dex.Asset.{
  Api, Asset, AssetInfo, same_info, validate_address, addr_opt_validate,
}
use whelp_contracts.Dex.Oracle.{seconds}
use whelp_contracts.Dex.Spread.{FeeConfig, valid_fee_bps}
use whelp_contracts.Dex.Ownership.{
  OwnershipProposal, propose_new_owner as run_propose, drop_ownership_proposal as run_drop,
  claim_ownership as run_claim,
}
use whelp_contracts.Dex.Querier.{Call, Querier}
use whelp_contracts.Pool.State.{PairInfo}
use whelp_contracts.TextMap.{has, save, values}
use whelp_contracts.Factory.{
  ContractError, std, invalid_trading_start, pool_config_duplicate, pool_config_invalid_fee_bps,
  invalid_referral_commission, deposit_required, type_name, PoolConfig, DefaultStakeConfig,
  DistributionFlow, Config, Storage, FactoryMsg, load_config,
}
use whelp_contracts.Factory.Create.{info_text, NewPool, execute_create_pair, instantiate_pair}
use whelp_contracts.Factory.Registry.{
  UpdateConfig, execute_update_config, execute_update_pair_config, execute_update_pair_fees,
  execute_mark_pairs_as_migrated, execute_create_distribution_flow, deregister_pool_and_staking,
  execute_withdraw_pool_creation_fees,
}
pub mod Access
pub mod History
pub mod Invariant

-- Sixty days.
abbrev pub max_trading_starts_delay : ℕ
max_trading_starts_delay = 60 * 86400

pub record InstantiateMsg : Type 0 where
  pub pool_configs : List PoolConfig
  pub fee_address : Option String
  pub owner : String
  pub max_referral_commission : ℕ
  pub default_stake_config : DefaultStakeConfig
  pub trading_starts : Option ℕ
  pub pool_creation_fee : Asset

unfoldable pub check_trading_start : ℕ → Option ℕ → Outcome ContractError (Unit {0})
check_trading_start block_time none = ok tt
check_trading_start block_time (some trading_starts) = do
  fail_if (ltb trading_starts block_time) invalid_trading_start
  latest ← add u64_max block_time max_trading_starts_delay
  fail_if (ltb latest trading_starts) invalid_trading_start

-- A pool type of that name occurs in the list.
unfoldable pub named : String → List PoolConfig → Bool
named name [] = false
named name (c ∷ configs) = str_eq (type_name c.pool_type) name || named name configs

-- Whether the set of the names is smaller than the list.
unfoldable pub has_duplicates : List PoolConfig → Bool
has_duplicates [] = false
has_duplicates (c ∷ configs) = named (type_name c.pool_type) configs || has_duplicates configs

-- The loop that saves the configurations of the pool types.
unfoldable pub save_all :
    List PoolConfig
    → List (String × PoolConfig)
    → Outcome ContractError (List (String × PoolConfig))
save_all [] saved = ok saved
save_all (c ∷ configs) saved = do
  fail_if (not (valid_fee_bps c.fee_config)) pool_config_invalid_fee_bps
  save_all configs (save (type_name c.pool_type) c saved)

unfoldable pub instantiate : Api → Call → InstantiateMsg → Outcome ContractError Storage
instantiate api call msg = do
  fail_if (ltb one msg.max_referral_commission)
      (invalid_referral_commission msg.max_referral_commission)
  check_trading_start (seconds call.now) msg.trading_starts
  owner ← map_err std (validate_address api msg.owner)
  fee_address ← map_err std (addr_opt_validate api msg.fee_address)
  fail_if (has_duplicates msg.pool_configs) pool_config_duplicate
  pair_configs ← save_all msg.pool_configs []
  let config : Config = record {
    owner = owner;
    fee_address = fee_address;
    max_referral_commission = msg.max_referral_commission;
    default_stake_config = msg.default_stake_config;
    only_owner_can_create_pools = false;
    pool_creation_fee = msg.pool_creation_fee;
    trading_starts = msg.trading_starts;
  }
  ok (record {
    tmp_pair_info = none;
    config = some config;
    pairs = [];
    staking_addresses = λ a. false;
    pair_configs = pair_configs;
    ownership_proposal = none;
    pairs_to_migrate = none;
    route = λ a b. none;
  })

-- `CreatePool` and `CreatePoolAndDistributionFlows`, with the flows of the latter.
pub record ReceiveMsg : Type 0 where
  pub new : NewPool
  pub distribution_flows : List DistributionFlow

pub data ExecuteMsg : Type 0 where
  update_config : UpdateConfig → ExecuteMsg
  update_pool_fees_of : List AssetInfo → FeeConfig → ExecuteMsg
  update_pool_config : PoolConfig → ExecuteMsg
  create_pool : NewPool → ExecuteMsg
  create_pool_and_flows : NewPool → List DistributionFlow → ExecuteMsg
  deregister : List AssetInfo → ExecuteMsg
  propose_new_owner : String → ℕ → ExecuteMsg
  drop_ownership_proposal claim_ownership : ExecuteMsg
  mark_as_migrated : List String → ExecuteMsg
  create_distribution_flow : List AssetInfo → AssetInfo → List (ℕ × ℕ) → ExecuteMsg
  withdraw_pool_creation_fees : ExecuteMsg
  -- the sender and the amount of the tokens, and the message, none where it cannot be parsed
  receive : String → ℕ → Option ReceiveMsg → ExecuteMsg

-- `required_deposit == deposit`
unfoldable pub same_asset : Asset → Asset → Bool
same_asset a b = if same_info a.info b.info then a.amount == b.amount else false

unfoldable pub receive_cw20_message :
    Api → Call → Storage → ℕ → Option ReceiveMsg → Outcome ContractError (Storage × List FactoryMsg)
receive_cw20_message api call s amount msg = do
  config ← load_config s
  let required = config.pool_creation_fee
  let deposit : Asset = record { info = AssetInfo.cw20_token call.sender; amount = amount }
  fail_if (not (same_asset required deposit))
      (deposit_required required.amount (info_text required.info))
  m ← map_err std (ok_or msg invalid_reply)
  execute_create_pair api call s m.new m.distribution_flows

unfoldable pub propose :
    Api → Call → Storage → String → ℕ → Outcome ContractError (Storage × List FactoryMsg)
propose api call s owner expires_in = do
  config ← load_config s
  p ← map_err std (run_propose api call.now call.sender owner expires_in config.owner)
  ok (record s { ownership_proposal = p }, [])

unfoldable pub drop_proposal : Call → Storage → Outcome ContractError (Storage × List FactoryMsg)
drop_proposal call s = do
  config ← load_config s
  p ← map_err std (run_drop call.sender config.owner)
  ok (record s { ownership_proposal = p }, [])

-- The callback of `claim_ownership`.
unfoldable pub set_owner : Storage → String → Outcome StdError Storage
set_owner s new_owner = do
  config ← ok_or s.config not_found
  let config' : Config = record config { owner = new_owner }
  ok (record s { config = some config' })

unfoldable pub claim : Call → Storage → Outcome ContractError (Storage × List FactoryMsg)
claim call s = do
  let s' : Storage = record s { pairs_to_migrate = some (values s.pairs) }
  (s'', p) ← map_err std (run_claim call.now call.sender s.ownership_proposal set_owner s')
  ok (record s'' { ownership_proposal = p }, [])

module _ (api : Api) (querier : Querier)
    (query_pair_info : String → Outcome StdError PairInfo) where
  unfoldable pub execute :
      Call → Storage → ExecuteMsg → Outcome ContractError (Storage × List FactoryMsg)
  execute call s (update_config param) = execute_update_config api call s param
  execute call s (update_pool_fees_of infos fees) = execute_update_pair_fees api call s infos fees
  execute call s (update_pool_config config) = execute_update_pair_config call s config
  execute call s (create_pool new) = execute_create_pair api call s new []
  execute call s (create_pool_and_flows new flows) = execute_create_pair api call s new flows
  execute call s (deregister infos) = deregister_pool_and_staking api query_pair_info call s infos
  execute call s (propose_new_owner owner expires_in) = propose api call s owner expires_in
  execute call s drop_ownership_proposal = drop_proposal call s
  execute call s claim_ownership = claim call s
  execute call s (mark_as_migrated pools) = execute_mark_pairs_as_migrated api call s pools
  execute call s (create_distribution_flow infos asset rewards) =
      execute_create_distribution_flow api query_pair_info call s infos asset rewards
  execute call s withdraw_pool_creation_fees =
      execute_withdraw_pool_creation_fees api querier call s
  execute call s (receive sender amount msg) = receive_cw20_message api call s amount msg

  -- The reply to the only submessage; none where it cannot be parsed.
  unfoldable pub reply :
      Call → Storage → Option String → Outcome ContractError (Storage × List FactoryMsg)
  reply call s parsed = do
    contract_address ← map_err std (ok_or parsed invalid_reply)
    instantiate_pair api query_pair_info call s contract_address

pub data MigrateMsg : Type 0 where
  update : MigrateMsg
  add_permissionless_pool_deposit : Asset → MigrateMsg

-- The check of the version is left out.
unfoldable pub migrate : Storage → MigrateMsg → Outcome ContractError Storage
migrate s update = ok s
migrate s (add_permissionless_pool_deposit asset) = do
  config ← load_config s
  ok (record s { config = some (record config { pool_creation_fee = asset }) })
