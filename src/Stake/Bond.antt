-- ===== src/Stake/Bond.antt =====
-- contracts/stake/src/contract.rs: bonding, rebonding, unbonding and claiming. A handler gives the
-- new storage and the messages; the attributes of the response are left out.
pub mod Laws
pub mod Rebond
use whelp_contracts.Prelude.{
  ℕ, ◌+◌, ◌-◌, ◌*◌, ◌^◌, String, Bool, not, Option, some, none, List, [], ◌∷◌, leb, ltb, ◌==◌,
  str_eq, unwrap_or, if◌then◌else◌,
}
use whelp_contracts.Outcome.{Outcome, ok, err, ◌>>=◌, ◌>>◌, ensure, fail_if, traverse}
use whelp_contracts.Num.{Decimals, u64_max, u128_max, fit, add}
use whelp_contracts.Dex.Asset.{AssetInfoValidated, Coin, Msg, bank_send}
use whelp_contracts.Stake.Error.{
  ContractError, denom_not_match, no_unbonding_period_found, no_funds, no_rebond_amount,
  same_unbonding_rebond, cannot_rebond_if_unbond_all, nothing_to_claim,
}
use whelp_contracts.Stake.Bonding.{
  BondingInfo, total_stake, add_unlocked_tokens, add_locked_tokens, release_stake,
}
use whelp_contracts.Stake.State.{
  Config, State, Stakes, Totals, Distribution, Distributions, WithdrawAdjustment, no_adjustment,
  has_period, put_stake, get_stake, stake_or_default, at_addr, at_asset, calc_rewards_power,
  TokenInfo,
}
use whelp_contracts.Stake.Totals.{update_total_stake}
use whelp_contracts.Stake.Rewards.{update_rewards}
use whelp_contracts.Stake.Chain.{Chain, Call}

abbrev pub Adjustments : Type 0
Adjustments = String → AssetInfoValidated → Option WithdrawAdjustment

-- `update_rewards` on the storage: nothing is written if the power stays.
unfoldable pub save_rewards :
    Adjustments
    → String
    → AssetInfoValidated
    → Distribution
    → ℕ
    → ℕ
    → Outcome ContractError Adjustments
save_rewards adjustments staker asset d old_power new_power =
    if old_power == new_power then ok adjustments else do
      a ← update_rewards (unwrap_or (adjustments staker asset) no_adjustment) d old_power new_power
      ok (at_addr staker (at_asset asset (some a) (adjustments staker)) adjustments)

-- `Timestamp::plus_seconds`.
abbrev pub plus_seconds : ℕ → ℕ → Outcome ContractError ℕ
plus_seconds now s = do nanos ← fit u64_max (s * 10 ^ 9); add u64_max now nanos

-- The branch of `execute_rebond` that adds the tokens to the target period: locked until the
-- difference of the periods has passed if that period is shorter, unlocked else.
unfoldable pub add_rebonded : ℕ → ℕ → ℕ → ℕ → BondingInfo → Outcome ContractError BondingInfo
add_rebonded now bond_from bond_to amount to =
    if ltb bond_to bond_from
    then (do expires ← plus_seconds now (bond_from - bond_to); add_locked_tokens to expires amount)
    else add_unlocked_tokens to amount

-- The two calls of `update_total_stake` in `execute_rebond`.
unfoldable pub move_totals : Config → ℕ → ℕ → ℕ → ℕ → ℕ → ℕ → Totals → Outcome ContractError Totals
move_totals cfg bond_from old_from new_from bond_to old_to new_to totals = do
  totals' ← update_total_stake cfg bond_from old_from new_from totals
  update_total_stake cfg bond_to old_to new_to totals'

-- `create_undelegate_msg` of utils.rs.
unfoldable pub create_undelegate_msg : String → ℕ → String → Msg
create_undelegate_msg recipient amount denom =
    bank_send recipient (record { denom = denom; amount = amount } ∷ [])

module _ (dec : Decimals) where
  unfoldable pub calc_rewards_powers :
      Config → Stakes → Distributions → Outcome ContractError (List ℕ)
  calc_rewards_powers cfg stakes [] = ok []
  calc_rewards_powers cfg stakes ((asset, d) ∷ ds) = do
    p ← calc_rewards_power dec cfg stakes d
    ps ← calc_rewards_powers cfg stakes ds
    ok (p ∷ ps)

  -- The loop that adjusts the rewards after a stake has changed. It saves each distribution as it
  -- was loaded.
  unfoldable pub adjust_all :
      Config
      → String
      → Stakes
      → Distributions
      → List ℕ
      → Adjustments
      → Outcome ContractError Adjustments
  adjust_all cfg staker stakes ((asset, d) ∷ ds) (old_power ∷ old_powers) adjustments = do
    new_power ← calc_rewards_power dec cfg stakes d
    adjustments' ← save_rewards adjustments staker asset d old_power new_power
    adjust_all cfg staker stakes ds old_powers adjustments'
  adjust_all cfg staker stakes _ _ adjustments = ok adjustments

module _ (dec : Decimals) (chain : Chain) where
  open chain use {Curve, Claims, create_claim, claim_tokens}

  abbrev pub Storage : Type 0
  Storage = State Curve Claims

  abbrev pub Done : Type 0
  Done = Outcome ContractError (Storage × List Msg)

  unfoldable pub execute_mass_bond : Storage → String → Coin → ℕ → Done
  execute_mass_bond s sender lp_share period = do
    let cfg = s.config
    ensure (str_eq cfg.lp_share_denom lp_share.denom)
        (denom_not_match lp_share.denom cfg.lp_share_denom)
    ensure (has_period period cfg.unbonding_periods) (no_unbonding_period_found period)
    old_rewards ← calc_rewards_powers dec cfg (s.stakes sender) s.distributions
    let info = stake_or_default period (s.stakes sender)
    old_stake ← total_stake info
    info' ← add_unlocked_tokens info lp_share.amount
    new_stake ← total_stake info'
    let stakes = put_stake period info' (s.stakes sender)
    totals ← update_total_stake cfg period old_stake new_stake s.totals
    adjustments ← adjust_all dec cfg sender stakes s.distributions old_rewards s.adjustments
    staked ← add u128_max s.token_info.staked lp_share.amount
    ok (
      record s {
        stakes = at_addr sender stakes s.stakes;
        totals = totals;
        adjustments = adjustments;
        token_info = record { staked = staked; unbonding = s.token_info.unbonding };
      },
      [],
    )

  unfoldable pub execute_bond : Storage → Call → ℕ → Done
  execute_bond s call period = elim call.funds [
    | [] ↦ err no_funds
    | c ∷ cs ↦ elim cs [ [] ↦ execute_mass_bond s call.sender c period | d ∷ ds ↦ err no_funds ]
  ]

  unfoldable pub execute_rebond : Storage → Call → ℕ → ℕ → ℕ → Done
  execute_rebond s call amount bond_from bond_to = do
    fail_if s.unbond_all cannot_rebond_if_unbond_all
    fail_if (amount == 0) no_rebond_amount
    fail_if (bond_from == bond_to) same_unbonding_rebond
    let cfg = s.config
    ensure (has_period bond_from cfg.unbonding_periods) (no_unbonding_period_found bond_from)
    ensure (has_period bond_to cfg.unbonding_periods) (no_unbonding_period_found bond_to)
    old_rewards ← calc_rewards_powers dec cfg (s.stakes call.sender) s.distributions
    let from = stake_or_default bond_from (s.stakes call.sender)
    old_stake_from ← total_stake from
    from' ← release_stake call.now amount from
    new_stake_from ← total_stake from'
    let stakes = put_stake bond_from from' (s.stakes call.sender)
    let to = stake_or_default bond_to stakes
    old_stake_to ← total_stake to
    to' ← add_rebonded call.now bond_from bond_to amount to
    new_stake_to ← total_stake to'
    let stakes' = put_stake bond_to to' stakes
    totals' ←
        move_totals cfg bond_from old_stake_from new_stake_from bond_to old_stake_to new_stake_to
          s.totals
    adjustments ← adjust_all dec cfg call.sender stakes' s.distributions old_rewards s.adjustments
    ok (
      record s {
        stakes = at_addr call.sender stakes' s.stakes;
        totals = totals';
        adjustments = adjustments;
      },
      [],
    )

  unfoldable pub remove_stake_without_total :
      Storage → ℕ → String → ℕ → ℕ → Outcome ContractError Storage
  remove_stake_without_total s now staker period amount = do
    let cfg = s.config
    ensure (has_period period cfg.unbonding_periods) (no_unbonding_period_found period)
    old_rewards ← calc_rewards_powers dec cfg (s.stakes staker) s.distributions
    let info = stake_or_default period (s.stakes staker)
    old_stake ← total_stake info
    info' ← release_stake now amount info
    new_stake ← total_stake info'
    let stakes = put_stake period info' (s.stakes staker)
    totals ← update_total_stake cfg period old_stake new_stake s.totals
    adjustments ← adjust_all dec cfg staker stakes s.distributions old_rewards s.adjustments
    ok (record s {
      stakes = at_addr staker stakes s.stakes;
      totals = totals;
      adjustments = adjustments;
    })

  -- `-` on ℕ is the `saturating_sub` of the source. While the unbond-all flag is set nothing is
  -- added to `unbonding`, and the tokens are sent at once.
  unfoldable pub execute_unbond : Storage → Call → ℕ → ℕ → Done
  execute_unbond s call amount period = do
    s' ← remove_stake_without_total s call.now call.sender period amount
    unbonding ← add u128_max s'.token_info.unbonding (if s.unbond_all then 0 else amount)
    let info : TokenInfo = record { staked = s'.token_info.staked - amount; unbonding = unbonding }
    if s.unbond_all
        then ok (
          record s' { token_info = info },
          create_undelegate_msg call.sender amount s.config.lp_share_denom ∷ [],
        )
        else do
          release_at ← plus_seconds call.now period
          ok (
            record s' {
              token_info = info;
              claims = create_claim s'.claims call.sender amount release_at;
            },
            [],
          )

  unfoldable pub execute_claim : Storage → Call → Done
  execute_claim s call = do
    let r = claim_tokens s.claims call.sender call.now
    fail_if (r.0 == 0) nothing_to_claim
    ok (
      record s {
        claims = r.1;
        token_info = record {
          staked = s.token_info.staked;
          unbonding = s.token_info.unbonding - r.0;
        };
      },
      create_undelegate_msg call.sender r.0 s.config.lp_share_denom ∷ [],
    )
