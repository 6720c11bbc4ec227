-- ===== src/Pool/Contract/Access.antt =====
-- contracts/pool/src/contract.rs: who may call what, and what a frozen pool refuses.
use whelp_contracts.Prelude.{◌≡◌, true, false, some, List, arith, unwrap_or, str_eq}
use whelp_contracts.Outcome.{ok, >>=-eq-ok}
use whelp_contracts.Num.{Decimals}
use whelp_contracts.Dex.Asset.{Api, Msg}
use whelp_contracts.Dex.Querier.{Querier, Call}
use whelp_contracts.Pool.State.{Config, Storage, load_config, check_if_frozen}
use whelp_contracts.Pool.Swap.{swap}
use whelp_contracts.Pool.Liquidity.{Roots, provide_liquidity}
use whelp_contracts.Pool.Contract.{update_fees, freeze}
use whelp_contracts.Pool.Contract.Execute.{ExecuteMsg, execute, receive_cw20, swap_native}

module _ (dec : Decimals) (querier : Querier) (api : Api) (roots : Roots) where
  -- What must hold for a message to go through.
  abbrev pub Allowed : Storage → Call → ExecuteMsg → Type 0
  Allowed s call (ExecuteMsg.receive m) = s.frozen ≡ some false
  Allowed s call (ExecuteMsg.provide_liquidity assets tolerance receiver) = s.frozen ≡ some false
  Allowed s call (ExecuteMsg.withdraw_liquidity assets) = Unit
  Allowed s call (ExecuteMsg.swap asset m) = s.frozen ≡ some false
  Allowed s call (ExecuteMsg.update_fees fee_config) =
      (s.frozen ≡ some false)
      × (config : Config) × (load_config s ≡ ok config)
      × (str_eq call.sender config.factory_addr ≡ true)
  Allowed s call (ExecuteMsg.freeze frozen) =
      str_eq call.sender (unwrap_or s.circuit_breaker "") ≡ true
  Allowed s call _ = ⊥

  -- If `execute` accepts a message, then for a swap, a deposit and a change of the fees the pool is
  -- not frozen; for a change of the fees the sender is the factory; for freezing and unfreezing the
  -- sender is the circuit breaker, or the empty address where none is set; and the message is none
  -- of those on the configuration and the owner.
  pub execute-Allowed :
      (call : Call) (s : Storage) (msg : ExecuteMsg) {r : Storage × List Msg}
      → execute dec querier api roots call s msg ≡ ok r
      → Allowed s call msg
  unfolding execute receive_cw20 swap_native swap provide_liquidity update_fees freeze
      check_if_frozen
  execute-Allowed call s (ExecuteMsg.receive m) h = ground arith
  execute-Allowed call s (ExecuteMsg.provide_liquidity assets tolerance receiver) h = ground arith
  execute-Allowed call s (ExecuteMsg.withdraw_liquidity assets) h = tt
  execute-Allowed call s (ExecuteMsg.swap asset m) h = ground arith
  execute-Allowed call s (ExecuteMsg.update_fees fee_config) h =
      let (config, e, h') = >>=-eq-ok (load_config s) _ h in (ground arith, config, e, ground arith)
  execute-Allowed call s (ExecuteMsg.freeze frozen) h = ground arith
  execute-Allowed call s ExecuteMsg.update_config h = ground arith
  execute-Allowed call s ExecuteMsg.propose_new_owner h = ground arith
  execute-Allowed call s ExecuteMsg.drop_ownership_proposal h = ground arith
  execute-Allowed call s ExecuteMsg.claim_ownership h = ground arith
