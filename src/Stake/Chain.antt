-- ===== src/Stake/Chain.antt =====
-- What the staking contract uses and does not implement: address checks and balances (the chain),
-- the reward curves of wynd-curve-utils, and the claims and the admin of cw-controllers.
use whelp_contracts.Prelude.{ℕ, String, Bool, Option, List}
use whelp_contracts.Outcome.{Outcome}
use whelp_contracts.Dex.Error.{StdError}
use whelp_contracts.Dex.Asset.{Api, AssetInfoValidated}
pub use whelp_contracts.Dex.Querier.{Call}

pub record Chain : Type 1 where
  pub api : Api
  -- What the query of the contract's balance in an asset answers.
  pub balance : AssetInfoValidated → Outcome StdError ℕ
  pub Curve : Type 0
  pub curve_constant : ℕ → Curve
  -- `Curve::saturating_linear((start, amount), (end, 0))`, `range`, `combine`, `value` and whether
  -- `validate_monotonic_decreasing` passes.
  pub curve_saturating : ℕ → ℕ → ℕ → Curve
  pub curve_range : Curve → ℕ × ℕ
  pub curve_combine : Curve → Curve → Curve
  pub curve_value : Curve → ℕ → ℕ
  pub curve_decreasing : Curve → Bool
  pub Claims : Type 0
  -- The amounts of all claims of an address, mature or not.
  pub claim_amounts : Claims → String → List ℕ
  -- `create_claim(addr, amount, AtTime(t))`, `claim_tokens(addr, block, None)`, and the deletion of
  -- all claims of an address.
  pub create_claim : Claims → String → ℕ → ℕ → Claims
  pub claim_tokens : Claims → String → ℕ → ℕ × Claims
  pub clear_claims : Claims → String → Claims
  pub is_admin : Option String → String → Bool
  -- `execute_update_admin` of the admin so far, the sender and the new admin; `none` is its refusal.
  pub update_admin : Option String → String → Option String → Option (Option String)
