-- ===== src/Pool/Contract/Execute.antt =====
-- contracts/pool/src/contract.rs: the dispatch of the messages.
use whelp_contracts.Prelude.{ℕ, String, Bool, not, Option, none, some, List}
use whelp_contracts.Outcome.{Outcome, err, ◌>>=◌, ◌>>◌, fail_if, map_err}
use whelp_contracts.Num.{Decimals}
use whelp_contracts.Dex.Error.{ContractError, std, non_supported, invalid_reply}
use whelp_contracts.Dex.Asset.{
  Api, Asset, AssetInfoValidated, AssetValidated, Msg, is_native_token, validate_address,
  addr_opt_validate, validate_asset,
}
use whelp_contracts.Dex.Spread.{FeeConfig, check_cw20_in_pool}
use whelp_contracts.Dex.Querier.{Querier, Call}
use whelp_contracts.Pool.State.{Storage, load_config}
use whelp_contracts.Pool.Swap.{swap as run_swap}
use whelp_contracts.Pool.Liquidity.{Roots, provide_liquidity as run_provide}
use whelp_contracts.Pool.Withdraw.{withdraw_liquidity as run_withdraw}
use whelp_contracts.Pool.Contract.{update_fees as run_update_fees, freeze as run_freeze}

-- The arguments of a swap that both of its messages have and that are read.
pub record SwapHook : Type 0 where
  pub belief_price : Option ℕ
  pub max_spread : Option ℕ
  pub to : Option String
  pub referral_address : Option String
  pub referral_commission : Option ℕ

-- A `Cw20ReceiveMsg`: `msg` is none where its bytes are no `Cw20HookMsg`.
pub record Cw20ReceiveMsg : Type 0 where
  pub sender : String
  pub amount : ℕ
  pub msg : Option SwapHook

pub data ExecuteMsg : Type 0 where
  receive : Cw20ReceiveMsg → ExecuteMsg
  provide_liquidity : List Asset → Option ℕ → Option String → ExecuteMsg
  withdraw_liquidity : List Asset → ExecuteMsg
  swap : Asset → SwapHook → ExecuteMsg
  update_fees : FeeConfig → ExecuteMsg
  freeze : Bool → ExecuteMsg
  -- the texts of the source's `UpdateConfig` and of the three messages on the owner are not read
  update_config propose_new_owner drop_ownership_proposal claim_ownership : ExecuteMsg

module _ (dec : Decimals) (querier : Querier) (api : Api) where
  unfoldable pub receive_cw20 :
      Call → Storage → Cw20ReceiveMsg → Outcome ContractError (Storage × List Msg)
  receive_cw20 call s cw20_msg = elim cw20_msg.msg [
    | none ↦ err (std invalid_reply)
    | some m ↦ do
      config ← load_config s
      check_cw20_in_pool config.pool_info.asset_infos call.sender
      to ← map_err std (addr_opt_validate api m.to)
      referral_address ← map_err std (addr_opt_validate api m.referral_address)
      sender ← map_err std (validate_address api cw20_msg.sender)
      let offer : AssetValidated = record {
        info = AssetInfoValidated.cw20_token call.sender;
        amount = cw20_msg.amount;
      }
      run_swap dec querier call s sender offer m.belief_price m.max_spread to referral_address
          m.referral_commission
  ]

  -- `ExecuteMsg::Swap`
  unfoldable pub swap_native :
      Call → Storage → Asset → SwapHook → Outcome ContractError (Storage × List Msg)
  swap_native call s asset m = do
    offer ← map_err std (validate_asset api asset)
    fail_if (not (is_native_token offer.info)) ContractError.unauthorized
    to ← map_err std (addr_opt_validate api m.to)
    referral_address ← map_err std (addr_opt_validate api m.referral_address)
    run_swap dec querier call s call.sender offer m.belief_price m.max_spread to referral_address
        m.referral_commission

  unfoldable pub execute :
      Roots → Call → Storage → ExecuteMsg → Outcome ContractError (Storage × List Msg)
  execute roots call s (ExecuteMsg.receive m) = receive_cw20 call s m
  execute roots call s (ExecuteMsg.provide_liquidity assets slippage_tolerance receiver) =
      run_provide dec querier roots api call s assets slippage_tolerance receiver
  execute roots call s (ExecuteMsg.withdraw_liquidity assets) = run_withdraw dec querier call s
  execute roots call s (ExecuteMsg.swap asset m) = swap_native call s asset m
  execute roots call s (ExecuteMsg.update_fees fee_config) = run_update_fees call s fee_config
  execute roots call s (ExecuteMsg.freeze frozen) = run_freeze call s frozen
  execute roots call s _ = err non_supported
