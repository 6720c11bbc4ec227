-- ===== src/Pool/Contract.antt =====
-- contracts/pool/src/contract.rs and packages/dex/src/pool/instantiate.rs: the entry points of the
-- constant product pool. The submessages that `instantiate` sends (the issue of the LP token and
-- the creation of the staking contract) are values of `SubMsg`; the reply to the second one comes
-- back as the address of the staking contract, `none` where it cannot be parsed.
use whelp_contracts.Prelude.{
  ℕ, String, Bool, true, false, not, Option, none, some, List, [], ◌∷◌, ◌==◌, str_eq, unwrap_or,
  if◌then◌else◌, length,
}
use Prim.Native.String.{◌++◌ as append}
use whelp_contracts.Outcome.{Outcome, ok, err, panic, ◌>>=◌, ◌>>◌, fail_if, ensure, map_err, unwrap}
use whelp_contracts.Dex.Error.{
  StdError, invalid_reply, ContractError, std, unauthorized, invalid_number_of_assets,
  addr_already_set, invalid_fee_bps, unknown_reply,
}
use whelp_contracts.Dex.Asset.{
  Api, AssetInfo, AssetInfoValidated, Msg, check_asset_infos, validate_address,
}
use whelp_contracts.Dex.Spread.{FeeConfig, valid_fee_bps}
use whelp_contracts.Dex.Oracle.{OracleStore}
use whelp_contracts.Dex.Querier.{Querier, Call}
use whelp_contracts.Pool.State.{
  PairInfo, PoolType, xyk, Config, StakeConfig, Storage, load_config, check_if_frozen,
}
pub mod Access
pub mod Execute
pub mod Frame
pub mod Minted

pub record InstantiateMsg : Type 0 where
  pub asset_infos : List AssetInfo
  pub factory_addr : String
  pub fee_config : FeeConfig
  pub verified : Bool
  pub staking_config : StakeConfig
  pub trading_starts : ℕ
  pub circuit_breaker : Option String

pub data SubMsg : Type 0 where
  -- symbol and subunit
  issue : String → String → SubMsg
  -- the denom of the LP token, the configuration and the admin
  instantiate_stake : String → StakeConfig → String → SubMsg

unfoldable pub validate_fees : InstantiateMsg → Outcome ContractError (Unit {0})
validate_fees msg = ensure (valid_fee_bps msg.fee_config) invalid_fee_bps

module _ (api : Api) (querier : Querier) where
  unfoldable pub short_symbols : List AssetInfoValidated → Outcome StdError String
  short_symbols [] = ok ""
  short_symbols (AssetInfoValidated.smart_token denom ∷ infos) = do
    rest ← short_symbols infos
    ok (append (api.take_chars 4 denom) rest)
  short_symbols (AssetInfoValidated.cw20_token contract ∷ infos) = do
    symbol ← querier.token_symbol contract
    rest ← short_symbols infos
    ok (append (api.take_chars 4 symbol) rest)

  unfoldable pub format_lp_token_name : List AssetInfoValidated → Outcome StdError String
  format_lp_token_name infos = do
    names ← short_symbols infos
    ok (api.to_lowercase (append names "lp"))

abbrev pub empty_oracle : OracleStore
empty_oracle = record {
  last_updates = none;
  last_minutes_prices = none;
  last_half_hour_prices = none;
  last_six_hour_prices = none;
}

module _ (api : Api) (querier : Querier) where
  unfoldable pub instantiate : Call → InstantiateMsg → Outcome ContractError (Storage × List SubMsg)
  instantiate call msg = do
    asset_infos ← check_asset_infos api msg.asset_infos
    fail_if (not (length asset_infos == 2)) (invalid_number_of_assets 2 2)
    validate_fees msg
    factory_addr ← map_err std (validate_address api msg.factory_addr)
    name ← map_err std (format_lp_token_name api querier asset_infos)
    let lp_share_denom = append "u" (append name (append "-" call.contract))
    let pair : PairInfo = record {
      contract_addr = call.contract;
      liquidity_token = lp_share_denom;
      staking_addr = "";
      asset_infos = asset_infos;
      pool_type = xyk;
      fee_config = msg.fee_config;
      verified = msg.verified;
    }
    let config : Config = record {
      pool_info = pair;
      factory_addr = factory_addr;
      block_time_last = 0;
      price0_cumulative_last = 0;
      price1_cumulative_last = 0;
      trading_starts = msg.trading_starts;
    }
    let s : Storage = record {
      config = some config;
      circuit_breaker = none;
      frozen = some false;
      lp_share_amount = some 0;
      tmp_staking_config = some msg.staking_config;
      oracle = empty_oracle;
    }
    ok (
      s,
      issue name (append "u" name)
          ∷ instantiate_stake lp_share_denom msg.staking_config call.sender
          ∷ [],
    )

-- `MigrateMsg::UpdateFreeze`, the only message of `migrate`.
unfoldable pub migrate : Api → Storage → Bool → Option String → Outcome ContractError Storage
migrate api s frozen none = ok (record s { frozen = some frozen })
migrate api s frozen (some circuit_breaker) = do
  breaker ← map_err std (validate_address api circuit_breaker)
  ok (record s { frozen = some frozen; circuit_breaker = some breaker })

abbrev pub instantiate_stake_reply_id : ℕ
instantiate_stake_reply_id = 2

unfoldable pub instantiate_staking_reply : Api → String → PairInfo → Outcome ContractError PairInfo
instantiate_staking_reply api contract_address pair = do
  fail_if (not (str_eq pair.staking_addr "")) addr_already_set
  addr ← map_err std (validate_address api contract_address)
  ok (record pair { staking_addr = addr })

-- `handle_reply` of an id and the parsed address.
unfoldable pub handle_reply : Api → ℕ → Option String → PairInfo → Outcome ContractError PairInfo
handle_reply api id none pair = err (std invalid_reply)
handle_reply api id (some contract_address) pair =
    let set = instantiate_staking_reply api contract_address pair in
    if id == instantiate_stake_reply_id then set else err (unknown_reply id)

unfoldable pub reply : Api → Storage → ℕ → Option String → Outcome ContractError Storage
reply api s id parsed = do
  config ← load_config s
  pair ← handle_reply api id parsed config.pool_info
  ok (record s { config = some (record config { pool_info = pair }) })

unfoldable pub update_fees : Call → Storage → FeeConfig → Outcome ContractError (Storage × List Msg)
update_fees call s fee_config = do
  config ← load_config s
  check_if_frozen s
  fail_if (not (str_eq call.sender config.factory_addr)) ContractError.unauthorized
  let pair : PairInfo = record config.pool_info { fee_config = fee_config }
  ok (record s { config = some (record config { pool_info = pair }) }, [])

-- `ExecuteMsg::Freeze`
unfoldable pub freeze : Call → Storage → Bool → Outcome ContractError (Storage × List Msg)
freeze call s frozen = do
  ensure (str_eq call.sender (unwrap_or s.circuit_breaker "")) ContractError.unauthorized
  ok (record s { frozen = some frozen }, [])
