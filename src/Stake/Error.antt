-- ===== src/Stake/Error.antt =====
-- contracts/stake/src/error.rs: the errors that the modelled handlers return. `overflow` stands for
-- the `OverflowError` that `?` converts; the payloads that only carry a message are left out.
use whelp_contracts.Prelude.{ℕ, String}
use whelp_contracts.Dex.Error.{StdError}

pub data ContractError : Type 0 where
  std : StdError → ContractError
  admin unauthorized same_unbonding_rebond no_rebond_amount nothing_to_claim : ContractError
  denom_not_match : String → String → ContractError
  no_funds : ContractError
  no_unbonding_period_found : ℕ → ContractError
  distribution_already_exists invalid_asset invalid_rewards : ContractError
  no_distribution_flow : String → ContractError
  too_many_distributions : ℕ → ContractError
  past_starting_time flag_already_set cannot_delegate_if_unbond_all : ContractError
  cannot_distribute_if_unbond_all cannot_rebond_if_unbond_all overflow curve : ContractError
