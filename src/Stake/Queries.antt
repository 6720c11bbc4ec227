-- ===== src/Stake/Queries.antt =====
-- contracts/stake: the queries of contract.rs and distribution.rs, and the migration. A query reads
-- the storage and changes nothing. A `StdError` with a text is named by the error that the handlers
-- return for the same cause.
use whelp_contracts.Prelude.{
  ℕ, String, Bool, Option, some, none, List, [], ◌∷◌, ◌==◌, unwrap_or, if◌then◌else◌,
}
use whelp_contracts.Outcome.{Outcome, ok, ◌>>=◌, ◌>>◌, ensure, map_err}
use whelp_contracts.Num.{Decimals, sub}
use whelp_contracts.Dex.Asset.{
  AssetInfo, AssetInfoValidated, AssetValidated, validate_address, validate_info, addr_opt_validate,
}
use whelp_contracts.Dex.Error.{StdError}
use whelp_contracts.Stake.Error.{ContractError, std, no_unbonding_period_found}
use whelp_contracts.Stake.Bonding.{BondingInfo, total_stake, total_locked}
use whelp_contracts.Stake.State.{
  Config, Stakes, Totals, Distribution, Distributions, WithdrawAdjustment, no_adjustment, get_stake,
  stake_or_default, calc_rewards_power, total_rewards_power,
}
use whelp_contracts.Stake.Rewards.{withdrawable_rewards}
use whelp_contracts.Stake.Chain.{Chain}
use whelp_contracts.Stake.Bond.{Storage}

pub record StakedResponse : Type 0 where
  pub stake : ℕ
  pub total_locked : ℕ
  pub unbonding_period : ℕ
  pub lp_share_denom : String

-- The totals are searched for the period, which is all that the search is for.
unfoldable pub has_total : ℕ → Totals → Bool
has_total p [] = Bool.false
has_total p ((q, t) ∷ ts) = let rest = has_total p ts in if q == p then Bool.true else rest

unfoldable pub staked_response : ℕ → String → ℕ → BondingInfo → Outcome ContractError StakedResponse
staked_response now denom period info = do
  stake ← total_stake info
  locked ← total_locked now info
  ok (record {
    stake = stake;
    total_locked = locked;
    unbonding_period = period;
    lp_share_denom = denom;
  })

-- The loop of `query_all_staked`: a period without an entry gives no response.
unfoldable pub all_staked :
    ℕ → String → Stakes → List ℕ → Outcome ContractError (List StakedResponse)
all_staked now denom stakes [] = ok []
all_staked now denom stakes (p ∷ periods) =
    let rest = all_staked now denom stakes periods in
    elim (get_stake p stakes) [
      | none ↦ rest
      | some info ↦ do r ← staked_response now denom p info; rs ← rest; ok (r ∷ rs)
    ]

unfoldable pub bonding_of : Totals → List (ℕ × ℕ)
bonding_of [] = []
bonding_of ((period, total) ∷ ts) = (period, total.staked) ∷ bonding_of ts

unfoldable pub totals_of : (Distribution → ℕ) → Distributions → List AssetValidated
totals_of f [] = []
totals_of f ((asset, d) ∷ ds) = record { info = asset; amount = f d } ∷ totals_of f ds

module _ (dec : Decimals) where
  -- `query_rewards` from the stakes of the address: powers of zero are left out.
  unfoldable pub rewards_powers :
      Config → Stakes → Distributions → Outcome ContractError (List (AssetInfoValidated × ℕ))
  rewards_powers cfg stakes [] = ok []
  rewards_powers cfg stakes ((asset, d) ∷ ds) = do
    power ← calc_rewards_power dec cfg stakes d
    rest ← rewards_powers cfg stakes ds
    ok (if power == 0 then rest else (asset, power) ∷ rest)

  unfoldable pub total_powers :
      Config → Totals → Distributions → Outcome ContractError (List (AssetInfoValidated × ℕ))
  total_powers cfg totals [] = ok []
  total_powers cfg totals ((asset, d) ∷ ds) = do
    power ← total_rewards_power dec cfg totals d
    rest ← total_powers cfg totals ds
    ok ((asset, power) ∷ rest)

  unfoldable pub withdrawable_of :
      Config
      → Stakes
      → (AssetInfoValidated → Option WithdrawAdjustment)
      → Distributions
      → Outcome ContractError (List AssetValidated)
  withdrawable_of cfg stakes adjustments [] = ok []
  withdrawable_of cfg stakes adjustments ((asset, d) ∷ ds) = do
    n ← withdrawable_rewards dec cfg stakes d (unwrap_or (adjustments asset) no_adjustment)
    rest ← withdrawable_of cfg stakes adjustments ds
    ok (record { info = asset; amount = n } ∷ rest)

unfoldable pub undistributed_of :
    (AssetInfoValidated → Outcome StdError ℕ)
    → Distributions
    → Outcome ContractError (List AssetValidated)
undistributed_of balance [] = ok []
undistributed_of balance ((asset, d) ∷ ds) = do
  held ← map_err std (balance asset)
  n ← sub held d.withdrawable_total
  rest ← undistributed_of balance ds
  ok (record { info = asset; amount = n } ∷ rest)

module _ (dec : Decimals) (chain : Chain) where
  open chain use {api}

  unfoldable pub query_rewards :
      Storage dec chain → String → Outcome ContractError (List (AssetInfoValidated × ℕ))
  query_rewards s addr = do
    a ← map_err std (validate_address api addr)
    rewards_powers dec s.config (s.stakes a) s.distributions

  unfoldable pub query_total_rewards :
      Storage dec chain → Outcome ContractError (List (AssetInfoValidated × ℕ))
  query_total_rewards s = total_powers dec s.config s.totals s.distributions

  unfoldable pub query_bonding_info : Storage dec chain → List (ℕ × ℕ)
  query_bonding_info s = bonding_of s.totals

  unfoldable pub query_staked :
      Storage dec chain → ℕ → String → ℕ → Outcome ContractError StakedResponse
  query_staked s now addr unbonding_period = do
    a ← map_err std (validate_address api addr)
    ensure (has_total unbonding_period s.totals) (no_unbonding_period_found unbonding_period)
    staked_response now s.config.lp_share_denom unbonding_period
        (stake_or_default unbonding_period (s.stakes a))

  unfoldable pub query_all_staked :
      Storage dec chain → ℕ → String → Outcome ContractError (List StakedResponse)
  query_all_staked s now addr = do
    a ← map_err std (validate_address api addr)
    all_staked now s.config.lp_share_denom (s.stakes a) s.config.unbonding_periods

  unfoldable pub query_withdrawable_rewards :
      Storage dec chain → String → Outcome ContractError (List AssetValidated)
  query_withdrawable_rewards s owner =
      withdrawable_of dec s.config (s.stakes owner) (s.adjustments owner) s.distributions

  unfoldable pub query_undistributed_rewards :
      Storage dec chain → Outcome ContractError (List AssetValidated)
  query_undistributed_rewards s = undistributed_of chain.balance s.distributions

  -- The distributed and the withdrawable totals.
  unfoldable pub query_distributed_rewards :
      Storage dec chain → List AssetValidated × List AssetValidated
  query_distributed_rewards s = (
    totals_of (λ d. d.distributed_total) s.distributions,
    totals_of (λ d. d.withdrawable_total) s.distributions,
  )

  unfoldable pub query_delegated : Storage dec chain → String → Outcome ContractError String
  query_delegated s owner = do
    o ← map_err std (validate_address api owner)
    ok (unwrap_or (s.delegated o) o)

  unfoldable pub query_withdraw_adjustment_data :
      Storage dec chain → String → AssetInfo → Outcome ContractError WithdrawAdjustment
  query_withdraw_adjustment_data s owner asset = do
    a ← map_err std (validate_address api owner)
    i ← map_err std (validate_info api asset)
    ok (unwrap_or (s.adjustments a i) no_adjustment)

  -- `version` is the outcome of `ensure_from_older_version` of cw-utils.
  unfoldable pub migrate :
      Outcome ContractError (Unit {0})
      → Storage dec chain
      → Option String
      → Bool
      → Outcome ContractError (Storage dec chain)
  migrate version s unbonder flag = do
    version
    u ← map_err std (addr_opt_validate api unbonder)
    ok (record s { config = record (s.config) { unbonder = u }; unbond_all = flag })
