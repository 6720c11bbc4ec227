-- ===== src/StablePool/Contract/Laws.antt =====
-- contracts/pool_stable/src/contract.rs: who may call what, and what a frozen pool refuses.
use whelp_contracts.Prelude.{◌≡◌, true, false, some, List, arith, unwrap_or, str_eq}
use whelp_contracts.Outcome.{ok}
use whelp_contracts.Num.{Decimals}
use whelp_contracts.Dex.Asset.{Api, Msg}
use whelp_contracts.Dex.Querier.{Querier, Call}
use whelp_contracts.StablePool.State.{Storage, check_if_frozen}
use whelp_contracts.StablePool.Swap.{swap as run_swap}
use whelp_contracts.StablePool.Liquidity.{provide_liquidity as run_provide}
use whelp_contracts.StablePool.Contract.{
  update_fees, freeze, ExecuteMsg, receive, provide_liquidity, withdraw_liquidity, swap,
  change_fees, set_frozen, update_config, propose_new_owner, drop_ownership_proposal,
  claim_ownership, receive_cw20, swap_native, execute,
}

module _ (dec : Decimals) (querier : Querier) (api : Api) where
  -- What must hold for a message to go through.
  abbrev pub Accepted : Storage → Call → ExecuteMsg → Type 0
  Accepted s call (withdraw_liquidity assets) = Unit
  Accepted s call (set_frozen frozen) = str_eq call.sender (unwrap_or s.circuit_breaker "") ≡ true
  Accepted s call (receive m) = s.frozen ≡ some false
  Accepted s call (provide_liquidity assets receiver) = s.frozen ≡ some false
  Accepted s call (swap asset m) = s.frozen ≡ some false
  Accepted s call (change_fees fee_config) = s.frozen ≡ some false
  Accepted s call _ = ⊥

  pub execute-Accepted :
      (call : Call) (s : Storage) (msg : ExecuteMsg) {r : Storage × List Msg}
      → execute dec querier api call s msg ≡ ok r
      → Accepted s call msg
  unfolding execute receive_cw20 swap_native run_swap run_provide update_fees freeze check_if_frozen
  execute-Accepted call s (receive m) h = ground arith
  execute-Accepted call s (provide_liquidity assets receiver) h = ground arith
  execute-Accepted call s (withdraw_liquidity assets) h = tt
  execute-Accepted call s (swap asset m) h = ground arith
  execute-Accepted call s (change_fees fee_config) h = ground arith
  execute-Accepted call s (set_frozen frozen) h = ground arith
  execute-Accepted call s update_config h = ground arith
  execute-Accepted call s propose_new_owner h = ground arith
  execute-Accepted call s drop_ownership_proposal h = ground arith
  execute-Accepted call s claim_ownership h = ground arith
