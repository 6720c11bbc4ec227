-- ===== src/Stake/Contract/Access.antt =====
-- contracts/stake/src/contract.rs: who may call what, and what the unbond-all flag switches off.
use whelp_contracts.Prelude.{◌≡◌, ◌≢◌, ◌⊎◌, true, false, List, arith}
use whelp_contracts.Outcome.{ok}
use whelp_contracts.Num.{Decimals}
use whelp_contracts.Dex.Asset.{Msg}
use whelp_contracts.Stake.Chain.{Chain, Call}
use whelp_contracts.Stake.Bond.{Storage, execute_rebond}
use whelp_contracts.Stake.Flows.{
  execute_create_distribution_flow, execute_receive, execute_distribute_rewards,
  execute_fund_distribution,
}
use whelp_contracts.Stake.Contract.{
  ExecuteMsg, delegate, update_admin, create_distribution_flow, rebond, unbond, quick_unbond,
  unbond_all, stop_unbond_all, claim, receive, distribute_rewards, withdraw_rewards,
  delegate_withdrawal, fund_distribution, is_unbonder, execute, execute_unbond_all,
  execute_stop_unbond_all, execute_quick_unbond,
}

module _ (dec : Decimals) (chain : Chain) where
  -- What must hold for a message to go through: a role of the sender, or that the flag is not set.
  abbrev pub Permitted : Storage dec chain → Call → ExecuteMsg → Type 0
  Permitted s call (create_distribution_flow manager asset rewards) =
      chain.is_admin s.admin call.sender ≡ true
  Permitted s call (quick_unbond stakers) = is_unbonder dec chain s call.sender ≡ true
  Permitted s call unbond_all =
      (is_unbonder dec chain s call.sender ≡ true) × (s.unbond_all ≡ false)
  Permitted s call stop_unbond_all =
      ((is_unbonder dec chain s call.sender ≡ true) ⊎ (chain.is_admin s.admin call.sender ≡ true))
      × (s.unbond_all ≡ true)
  Permitted s call (delegate period) = s.unbond_all ≡ false
  Permitted s call (rebond tokens bond_from bond_to) =
      (s.unbond_all ≡ false) × (bond_from ≢ bond_to)
  Permitted s call (receive amount funding) = s.unbond_all ≡ false
  Permitted s call (distribute_rewards sender) = s.unbond_all ≡ false
  Permitted s call (fund_distribution funding) = s.unbond_all ≡ false
  Permitted s call _ = Unit

  -- If `execute` accepts a message, then: for a new flow the sender is the admin; for a quick
  -- unbond and for setting the unbond-all flag the sender is the unbonder, and for setting the flag
  -- it was not set; for clearing the flag the sender is the unbonder or the admin, and it was set;
  -- and for bonding, rebonding, funding and distributing rewards the flag is not set, and a rebond
  -- is between two different periods.
  pub execute-Permitted :
      (s : Storage dec chain) (call : Call) (msg : ExecuteMsg) {r : Storage dec chain × List Msg}
      → execute dec chain s call msg ≡ ok r
      → Permitted s call msg
  unfolding execute execute_unbond_all execute_stop_unbond_all execute_quick_unbond execute_rebond
      execute_create_distribution_flow execute_receive execute_distribute_rewards
      execute_fund_distribution
  execute-Permitted s call (delegate period) h = ground arith
  execute-Permitted s call (update_admin a) h = tt
  execute-Permitted s call (create_distribution_flow manager asset rewards) h = ground arith
  execute-Permitted s call (rebond tokens bond_from bond_to) h = ground arith
  execute-Permitted s call (unbond tokens period) h = tt
  execute-Permitted s call (quick_unbond stakers) h = ground arith
  execute-Permitted s call unbond_all h = ground arith
  execute-Permitted s call stop_unbond_all h = ground arith
  execute-Permitted s call claim h = tt
  execute-Permitted s call (receive amount funding) h = ground arith
  execute-Permitted s call (distribute_rewards sender) h = ground arith
  execute-Permitted s call (withdraw_rewards owner receiver) h = tt
  execute-Permitted s call (delegate_withdrawal delegated) h = tt
  execute-Permitted s call (fund_distribution funding) h = ground arith
