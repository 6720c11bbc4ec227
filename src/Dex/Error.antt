-- ===== src/Dex/Error.antt =====
-- The errors of packages/dex/src/pool/error.rs that the modelled code returns. A `StdError` is
-- named by the check that raises it, in place of its text.
use whelp_contracts.Prelude.{ℕ}

pub data StdError : Type 0 where
  empty_pool zero_swap_amount overflow invalid_address not_lowercase : StdError
  balance_mismatch invalid_belief_price unauthorized same_owner : StdError
  ttl_too_high no_proposal proposal_expired not_found start_too_early invalid_reply
        invalid_operations divide_by_zero :
      StdError
  range_exceeded multiply_ratio conversion_overflow same_offer_and_ask : StdError
  not_converging not_enough_lp_tokens : StdError

pub data ContractError : Type 0 where
  std : StdError → ContractError
  unauthorized doubling_assets allowed_spread_assertion max_spread_assertion : ContractError
  max_slippage_assertion referral_commission_too_high contract_frozen : ContractError
  trading_not_started asset_mismatch invalid_zero_amount non_supported : ContractError
  minimum_liquidity_amount_error invalid_provide_lps_with_single_token : ContractError
  invalid_asset addr_already_set invalid_fee_bps : ContractError
  variable_asset_missed same_assets : ContractError
  init_params_not_found liquidity_amount_too_small : ContractError
  incorrect_amp max_amp_change_assertion min_amp_changing_time_assertion : ℕ → ContractError
  unknown_reply : ℕ → ContractError
  too_many_assets : ℕ → ℕ → ContractError
  invalid_number_of_assets : ℕ → ℕ → ContractError
