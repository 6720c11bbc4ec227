-- ===== src/StablePool/Contract.antt =====
-- contracts/pool_stable/src/contract.rs: the entry points of the stable pool. The reply handler and
-- the message of `instantiate` are those of the constant product pool. `amp_params` are the parsed
-- `StablePoolParams`: none where the message has none, and else the amplification and the owner.
use whelp_contracts.Prelude.{
  ℕ, String, Bool, true, not, ◌||◌, Option, none, some, List, [], ◌∷◌, ◌++◌, ◌==◌, ◌*◌, ltb, str_eq,
  unwrap_or, length, if◌then◌else◌,
}
use Prim.Native.String.{◌++◌ as append}
use whelp_contracts.Outcome.{Outcome, ok, err, ◌>>=◌, ◌>>◌, fail_if, ensure, map_err, ok_or}
use whelp_contracts.Num.{Decimals, u64_max, mul}
use whelp_contracts.Dex.Error.{
  StdError, invalid_reply, ContractError, std, unauthorized, non_supported,
  invalid_number_of_assets, init_params_not_found, incorrect_amp,
}
use whelp_contracts.Dex.Asset.{
  Api, Asset, AssetInfo, AssetInfoValidated, AssetValidated, Msg, equal, is_native_token,
  check_asset_infos, validate_address, validate_asset, addr_opt_validate,
}
use whelp_contracts.Dex.Spread.{FeeConfig, check_cw20_in_pool}
use whelp_contracts.Dex.Oracle.{seconds}
use whelp_contracts.Dex.Querier.{Querier, Call}
use whelp_contracts.Pool.State.{PairInfo, PoolType, stable}
use whelp_contracts.Pool.Contract.{
  InstantiateMsg, SubMsg, issue, validate_fees, format_lp_token_name, empty_oracle, handle_reply,
}
use whelp_contracts.StablePool.Amp.{Config, max_amp, amp_precision}
use whelp_contracts.StablePool.State.{Storage, load_config, check_if_frozen, store_precisions}
use whelp_contracts.StablePool.Swap.{swap as run_swap}
use whelp_contracts.StablePool.Liquidity.{provide_liquidity as run_provide}
use whelp_contracts.StablePool.Withdraw.{withdraw_liquidity as run_withdraw}
pub mod Laws

pub record StablePoolParams : Type 0 where
  pub amp : ℕ
  pub owner : Option String

-- The cumulative prices from one asset to the others, and of all.
unfoldable pub prices_from :
    AssetInfoValidated
    → List AssetInfoValidated
    → List (AssetInfoValidated × AssetInfoValidated × ℕ)
prices_from from [] = []
prices_from from (to ∷ infos) =
    let rest = prices_from from infos in if equal from to then rest else (from, to, 0) ∷ rest

unfoldable pub prices_of :
    List AssetInfoValidated
    → List AssetInfoValidated
    → List (AssetInfoValidated × AssetInfoValidated × ℕ)
prices_of [] all = []
prices_of (from ∷ infos) all = prices_from from all ++ prices_of infos all

-- The parameters are none where the message has none, and an error where they cannot be parsed.
module _ (api : Api) (querier : Querier) (token_decimals : String → Outcome StdError ℕ) where
  unfoldable pub instantiate :
      Call
      → InstantiateMsg
      → Option (Outcome StdError StablePoolParams)
      → Outcome ContractError (Storage × List SubMsg)
  instantiate call msg init_params = do
    asset_infos ← check_asset_infos api msg.asset_infos
    fail_if (not (length asset_infos == 2)) (invalid_number_of_assets 2 2)
    validate_fees msg
    factory_addr ← map_err std (validate_address api msg.factory_addr)
    name ← map_err std (format_lp_token_name api querier asset_infos)
    parsed ← ok_or init_params init_params_not_found
    params ← map_err std parsed
    fail_if (params.amp == 0 || ltb max_amp params.amp) (incorrect_amp max_amp)
    (greatest_precision, precisions) ←
        map_err std (store_precisions token_decimals asset_infos 0 (λ key. none))
    owner ← map_err std (addr_opt_validate api params.owner)
    amp ← mul u64_max params.amp amp_precision
    let pair : PairInfo = record {
      contract_addr = call.contract;
      liquidity_token = append "u" (append name (append "-" call.contract));
      staking_addr = "";
      asset_infos = asset_infos;
      pool_type = stable;
      fee_config = msg.fee_config;
      verified = msg.verified;
    }
    let config : Config = record {
      owner = owner;
      pool_info = pair;
      factory_addr = factory_addr;
      block_time_last = 0;
      init_amp = amp;
      init_amp_time = seconds call.now;
      next_amp = amp;
      next_amp_time = seconds call.now;
      greatest_precision = greatest_precision;
      cumulative_prices = prices_of asset_infos asset_infos;
      trading_starts = msg.trading_starts;
    }
    let s : Storage = record {
      config = some config;
      circuit_breaker = none;
      frozen = some Bool.false;
      lp_share_amount = some 0;
      tmp_staking_config = some msg.staking_config;
      precisions = precisions;
      oracle = empty_oracle;
    }
    ok (s, issue name (append "u" name) ∷ [])

unfoldable pub migrate : Api → Storage → Bool → Option String → Outcome ContractError Storage
migrate api s frozen none = ok (record s { frozen = some frozen })
migrate api s frozen (some circuit_breaker) = do
  breaker ← map_err std (validate_address api circuit_breaker)
  ok (record s { frozen = some frozen; circuit_breaker = some breaker })

unfoldable pub reply : Api → Storage → ℕ → Option String → Outcome ContractError Storage
reply api s id parsed = do
  config ← load_config s
  pair ← handle_reply api id parsed config.pool_info
  ok (record s { config = some (record config { pool_info = pair }) })

-- The check of the sender is commented out in the source.
unfoldable pub update_fees : Storage → FeeConfig → Outcome ContractError (Storage × List Msg)
update_fees s fee_config = do
  config ← load_config s
  check_if_frozen s
  let pair : PairInfo = record config.pool_info { fee_config = fee_config }
  ok (record s { config = some (record config { pool_info = pair }) }, [])

-- `ExecuteMsg::Freeze`
unfoldable pub freeze : Call → Storage → Bool → Outcome ContractError (Storage × List Msg)
freeze call s frozen = do
  ensure (str_eq call.sender (unwrap_or s.circuit_breaker "")) ContractError.unauthorized
  ok (record s { frozen = some frozen }, [])

-- The arguments of a swap that both of its messages have and that are read.
pub record SwapHook : Type 0 where
  pub ask_asset_info : Option AssetInfo
  pub belief_price : Option ℕ
  pub max_spread : Option ℕ
  pub to : Option String
  pub referral_address : Option String
  pub referral_commission : Option ℕ

-- A `Cw20ReceiveMsg`: `msg` is none where its bytes are no `Cw20HookMsg`.
pub record Cw20ReceiveMsg : Type 0 where
  pub sender : String
  pub amount : ℕ
  pub msg : Option SwapHook

pub data ExecuteMsg : Type 0 where
  receive : Cw20ReceiveMsg → ExecuteMsg
  provide_liquidity : List Asset → Option String → ExecuteMsg
  withdraw_liquidity : List Asset → ExecuteMsg
  swap : Asset → SwapHook → ExecuteMsg
  change_fees : FeeConfig → ExecuteMsg
  set_frozen : Bool → ExecuteMsg
  -- the texts of the source's `UpdateConfig` and of the three messages on the owner are not read
  update_config propose_new_owner drop_ownership_proposal claim_ownership : ExecuteMsg

module _ (dec : Decimals) (querier : Querier) (api : Api) where
  unfoldable pub receive_cw20 :
      Call → Storage → Cw20ReceiveMsg → Outcome ContractError (Storage × List Msg)
  receive_cw20 call s cw20_msg = do
    m ← map_err std (ok_or cw20_msg.msg invalid_reply)
    config ← load_config s
    check_cw20_in_pool config.pool_info.asset_infos call.sender
    to ← map_err std (addr_opt_validate api m.to)
    referral_address ← map_err std (addr_opt_validate api m.referral_address)
    sender ← map_err std (validate_address api cw20_msg.sender)
    let offer : AssetValidated = record {
      info = AssetInfoValidated.cw20_token call.sender;
      amount = cw20_msg.amount;
    }
    run_swap dec querier api call s sender offer m.ask_asset_info m.belief_price m.max_spread to
        referral_address m.referral_commission

  -- `ExecuteMsg::Swap`
  unfoldable pub swap_native :
      Call → Storage → Asset → SwapHook → Outcome ContractError (Storage × List Msg)
  swap_native call s asset m = do
    offer ← map_err std (validate_asset api asset)
    fail_if (not (is_native_token offer.info)) ContractError.unauthorized
    to ← map_err std (addr_opt_validate api m.to)
    referral_address ← map_err std (addr_opt_validate api m.referral_address)
    run_swap dec querier api call s call.sender offer m.ask_asset_info m.belief_price m.max_spread
        to referral_address m.referral_commission

  unfoldable pub execute : Call → Storage → ExecuteMsg → Outcome ContractError (Storage × List Msg)
  execute call s (receive m) = receive_cw20 call s m
  execute call s (provide_liquidity assets receiver) =
      run_provide dec querier api call s assets receiver
  execute call s (withdraw_liquidity assets) = run_withdraw dec querier api call s assets
  execute call s (swap asset m) = swap_native call s asset m
  execute call s (change_fees fee_config) = update_fees s fee_config
  execute call s (set_frozen frozen) = freeze call s frozen
  execute call s _ = err non_supported
