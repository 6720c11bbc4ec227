-- ===== src/Stake/State.antt =====
-- contracts/stake/src/state.rs and utils.rs: the storage of the staking contract.
pub mod Map
use whelp_contracts.Prelude.{
  ℕ, ◌+◌, ◌-◌, String, Bool, Option, none, some, List, [], ◌∷◌, ltb, leb, ◌==◌, str_eq, unwrap_or,
  if◌then◌else◌,
}
use whelp_contracts.Outcome.{Outcome, ok, err, ◌>>=◌}
use whelp_contracts.Num.{Decimals, u128_max, add, div, mul_decimal}
use whelp_contracts.Int.{ℤ, pos}
use whelp_contracts.Dex.Asset.{AssetInfoValidated, equal}
use whelp_contracts.Stake.Error.{ContractError, no_unbonding_period_found}
use whelp_contracts.Stake.Bonding.{BondingInfo, no_bonding, total_stake}

pub record Config : Type 0 where
  pub lp_share_denom : String
  pub instantiator : String
  pub tokens_per_power : ℕ
  pub min_bond : ℕ
  pub unbonding_periods : List ℕ
  pub max_distributions : ℕ
  pub unbonder : Option String

pub record TokenInfo : Type 0 where
  pub staked : ℕ
  pub unbonding : ℕ

pub record TotalStake : Type 0 where
  pub staked : ℕ
  pub powered_stake : ℕ

pub record Distribution : Type 0 where
  pub shares_per_point : ℕ
  pub shares_leftover : ℕ
  pub distributed_total : ℕ
  pub withdrawable_total : ℕ
  pub manager : String
  pub reward_multipliers : List (ℕ × ℕ)

pub record WithdrawAdjustment : Type 0 where
  pub shares_correction : ℤ
  pub withdrawn_rewards : ℕ

abbrev pub no_adjustment : WithdrawAdjustment
no_adjustment = record { shares_correction = pos 0; withdrawn_rewards = 0 }

-- `TOTAL_PER_PERIOD`, sorted by period.
abbrev pub Totals : Type 0
Totals = List (ℕ × TotalStake)

-- The part of `STAKE` below one address: `STAKE.prefix(addr)`, in ascending order of the period.
abbrev pub Stakes : Type 0
Stakes = List (ℕ × BondingInfo)

-- In the order of creation, where the source's map is in the order of the keys.
abbrev pub Distributions : Type 0
Distributions = List (AssetInfoValidated × Distribution)

-- The storage, over the types of the curve (wynd-curve-utils) and of the claims (cw-controllers).
pub record State (Curve Claims : Type 0) : Type 0 where
  pub config : Config
  pub admin : Option String
  pub token_info : TokenInfo
  pub totals : Totals
  pub stakes : String → Stakes
  pub distributions : Distributions
  pub adjustments : String → AssetInfoValidated → Option WithdrawAdjustment
  pub delegated : String → Option String
  pub unbond_all : Bool
  pub curves : AssetInfoValidated → Option Curve
  pub claims : Claims

-- `cfg.unbonding_periods.binary_search(&period)` on the sorted periods.
unfoldable pub has_period : ℕ → List ℕ → Bool
has_period p [] = Bool.false
has_period p (q ∷ qs) = let rest = has_period p qs in if q == p then Bool.true else rest

-- `STAKE.may_load((addr, period))`.
unfoldable pub get_stake : ℕ → Stakes → Option BondingInfo
get_stake p [] = none
get_stake p ((q, b) ∷ l) = let rest = get_stake p l in if q == p then some b else rest

-- `STAKE.save((addr, period), b)`.
unfoldable pub put_stake : ℕ → BondingInfo → Stakes → Stakes
put_stake p b [] = (p, b) ∷ []
put_stake p b ((q, c) ∷ l) =
    let rest = put_stake p b l in
    if q == p then (p, b) ∷ l else if ltb p q then (p, b) ∷ (q, c) ∷ l else (q, c) ∷ rest

abbrev pub stake_or_default : ℕ → Stakes → BondingInfo
stake_or_default p l = unwrap_or (get_stake p l) no_bonding

-- A write to a map that is keyed by addresses.
abbrev pub at_addr {ℓ} : {A : Type ℓ} → String → A → (String → A) → String → A
at_addr k v m j = if str_eq k j then v else m j

abbrev pub at_asset {ℓ} :
    {A : Type ℓ} → AssetInfoValidated → A → (AssetInfoValidated → A) → AssetInfoValidated → A
at_asset k v m j = if equal k j then v else m j

module _ (dec : Decimals) where
  -- utils.rs
  unfoldable pub calc_power : Config → ℕ → ℕ → Outcome ContractError ℕ
  calc_power cfg stake multiplier =
      if ltb stake cfg.min_bond
      then ok 0
      else do scaled ← mul_decimal dec u128_max stake multiplier; div scaled cfg.tokens_per_power

  -- The loop of `calc_rewards_power` from the power so far.
  unfoldable pub add_rewards_power : Config → Stakes → ℕ → List (ℕ × ℕ) → Outcome ContractError ℕ
  add_rewards_power cfg stakes power [] = ok power
  add_rewards_power cfg stakes power ((period, multiplier) ∷ l) = do
    s ← total_stake (stake_or_default period stakes)
    p ← calc_power cfg s multiplier
    power' ← add u128_max power p
    add_rewards_power cfg stakes power' l

  unfoldable pub calc_rewards_power : Config → Stakes → Distribution → Outcome ContractError ℕ
  calc_rewards_power cfg stakes d = add_rewards_power cfg stakes 0 d.reward_multipliers

  -- `zip` of the multipliers with the totals, mapped to the powers, and their sum.
  unfoldable pub add_total_power : Config → ℕ → List (ℕ × ℕ) → Totals → Outcome ContractError ℕ
  add_total_power cfg power ((period, multiplier) ∷ l) ((period', total) ∷ ts) = do
    p ← calc_power cfg total.powered_stake multiplier
    power' ← add u128_max power p
    add_total_power cfg power' l ts
  add_total_power cfg power _ _ = ok power

  unfoldable pub total_rewards_power : Config → Totals → Distribution → Outcome ContractError ℕ
  total_rewards_power cfg totals d = add_total_power cfg 0 d.reward_multipliers totals

-- `rewards_multiplier`: the first entry of the period, where the source has a binary search, which
-- may give any entry of a period that occurs twice.
unfoldable pub find_multiplier : ℕ → List (ℕ × ℕ) → Outcome ContractError ℕ
find_multiplier p [] = err (no_unbonding_period_found p)
find_multiplier p ((q, m) ∷ l) = let rest = find_multiplier p l in if q == p then ok m else rest

unfoldable pub rewards_multiplier : Distribution → ℕ → Outcome ContractError ℕ
rewards_multiplier d period = find_multiplier period d.reward_multipliers
