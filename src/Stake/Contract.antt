-- ===== src/Stake/Contract.antt =====
-- contracts/stake/src/contract.rs: the entry points, and the emergency handlers of the unbonder.
pub mod Access
pub mod Empties
pub mod Flows
pub mod Frame
pub mod History
pub mod Invariant
pub mod Quick
pub mod Reach
pub mod Unbond
use whelp_contracts.Prelude.{
  ℕ, ◌+◌, ◌-◌, String, Bool, true, false, not, ◌||◌, Option, some, none, List, [], ◌∷◌, ◌++◌, leb,
  ltb, ◌==◌, str_eq, unwrap_or, sum, max, if◌then◌else◌,
}
use whelp_contracts.Outcome.{
  Outcome, ok, err, panic, ◌>>=◌, ◌>>◌, ensure, fail_if, map_err, traverse, ok_or,
}
use whelp_contracts.Num.{Decimals, u128_max, fit, add, sub}
use whelp_contracts.Int.{ℤ}
use whelp_contracts.Dex.Asset.{
  AssetInfo, AssetInfoValidated, Msg, cw20_transfer, validate_address, addr_opt_validate,
}
use whelp_contracts.Stake.Error.{
  ContractError, std, unauthorized, flag_already_set, cannot_delegate_if_unbond_all,
}
use whelp_contracts.Stake.Bonding.{BondingInfo, total_stake, release_stake, force_unlock_all}
use whelp_contracts.Stake.State.{
  Config, State, TokenInfo, Stakes, Totals, TotalStake, Distribution, Distributions, at_addr,
}
use whelp_contracts.Stake.Totals.{update_total_stake}
use whelp_contracts.Stake.Chain.{Chain, Call}
use whelp_contracts.Stake.Bond.{
  Adjustments, Storage, Done, save_rewards, calc_rewards_powers, execute_bond, execute_rebond,
  execute_unbond, execute_claim,
}
use whelp_contracts.Stake.Flows.{
  FundingInfo, execute_create_distribution_flow, execute_fund_distribution, execute_receive,
  execute_distribute_rewards, execute_withdraw_rewards, execute_delegate_withdrawal,
}

-- `InstantiateMsg` of packages/dex/src/stake.rs.
pub record InstantiateMsg : Type 0 where
  pub lp_share_denom : String
  pub tokens_per_power : ℕ
  pub min_bond : ℕ
  pub unbonding_periods : List ℕ
  pub max_distributions : ℕ
  pub admin : Option String
  pub unbonder : Option String

-- `sort_unstable`.
unfoldable pub insert_period : ℕ → List ℕ → List ℕ
insert_period p [] = p ∷ []
insert_period p (q ∷ qs) = let rest = insert_period p qs in if leb p q then p ∷ q ∷ qs else q ∷ rest

unfoldable pub sort_periods : List ℕ → List ℕ
sort_periods [] = []
sort_periods (p ∷ ps) = insert_period p (sort_periods ps)

unfoldable pub zero_totals : List ℕ → Totals
zero_totals [] = []
zero_totals (p ∷ ps) = (p, record { staked = 0; powered_stake = 0 }) ∷ zero_totals ps

-- `unbonded_by_period`: the amounts that are unbonded, by period. A period that is no key is an
-- `unwrap` of `None`.
abbrev pub Unbonded : Type 0
Unbonded = List (ℕ × ℕ)

unfoldable pub no_unbonded : List ℕ → Unbonded
no_unbonded [] = []
no_unbonded (p ∷ ps) = (p, 0) ∷ no_unbonded ps

unfoldable pub add_unbonded : ℕ → ℕ → Unbonded → Outcome ContractError Unbonded
add_unbonded p amount [] = panic
add_unbonded p amount ((q, n) ∷ u) =
    let rest = add_unbonded p amount u in
    if q == p
    then (do m ← add u128_max n amount; ok ((q, m) ∷ u))
    else (do u' ← rest; ok ((q, n) ∷ u'))

-- The loop of `execute_quick_unbond` over the stakes of one address: the emptied stakes, the amounts
-- by period, and the sum.
unfoldable pub unbond_stakes :
    ℕ → Stakes → Unbonded → ℕ → Outcome ContractError (Stakes × Unbonded × ℕ)
unbond_stakes now [] u staker_unbonds = ok ([], u, staker_unbonds)
unbond_stakes now ((period, info) ∷ l) u staker_unbonds = do
  old_stake ← total_stake info
  u' ← add_unbonded period old_stake u
  unbonds ← add u128_max staker_unbonds old_stake
  unlocked ← force_unlock_all info
  emptied ← release_stake now old_stake unlocked
  r ← unbond_stakes now l u' unbonds
  ok ((period, emptied) ∷ r.0, r.1, r.2)

-- The rewards of an address whose power goes to zero in every distribution.
unfoldable pub drop_rewards :
    String → Distributions → List ℕ → Adjustments → Outcome ContractError Adjustments
drop_rewards staker ((asset, d) ∷ ds) (old_power ∷ old_powers) adjustments = do
  adjustments' ← save_rewards adjustments staker asset d old_power 0
  drop_rewards staker ds old_powers adjustments'
drop_rewards staker _ _ adjustments = ok adjustments

-- `update_total_stake` for every period with what was unbonded in it.
unfoldable pub lower_totals : Config → Unbonded → Totals → Outcome ContractError Totals
lower_totals cfg [] totals = ok totals
lower_totals cfg ((period, unbonded) ∷ u) totals = do
  totals' ← update_total_stake cfg period unbonded 0 totals
  lower_totals cfg u totals'

abbrev pub unbonded_amounts : Unbonded → List ℕ
unbonded_amounts [] = []
unbonded_amounts ((p, n) ∷ u) = n ∷ unbonded_amounts u

pub data ExecuteMsg : Type 0 where
  delegate : ℕ → ExecuteMsg
  update_admin : Option String → ExecuteMsg
  create_distribution_flow : String → AssetInfo → List (ℕ × ℕ) → ExecuteMsg
  rebond : ℕ → ℕ → ℕ → ExecuteMsg
  unbond : ℕ → ℕ → ExecuteMsg
  quick_unbond : List String → ExecuteMsg
  unbond_all stop_unbond_all claim : ExecuteMsg
  receive : ℕ → FundingInfo → ExecuteMsg
  distribute_rewards : Option String → ExecuteMsg
  withdraw_rewards : Option String → Option String → ExecuteMsg
  delegate_withdrawal : String → ExecuteMsg
  fund_distribution : FundingInfo → ExecuteMsg

module _ (dec : Decimals) (chain : Chain) where
  open chain use {api, Curve, Claims, is_admin, claim_amounts, clear_claims}

  -- A fresh storage: `claims` is that of an empty storage.
  unfoldable pub instantiate :
      Claims → Call → InstantiateMsg → Outcome ContractError (Storage dec chain)
  instantiate claims call msg = do
    admin ← map_err std (addr_opt_validate api msg.admin)
    unbonder ← map_err std (addr_opt_validate api msg.unbonder)
    let periods = sort_periods msg.unbonding_periods
    ok (record {
      config = record {
        lp_share_denom = msg.lp_share_denom;
        instantiator = call.sender;
        tokens_per_power = msg.tokens_per_power;
        min_bond = max msg.min_bond 1;
        unbonding_periods = periods;
        max_distributions = msg.max_distributions;
        unbonder = unbonder;
      };
      admin = admin;
      token_info = record { staked = 0; unbonding = 0 };
      totals = zero_totals periods;
      stakes = λ a. [];
      distributions = [];
      adjustments = λ a b. none;
      delegated = λ a. none;
      unbond_all = false;
      curves = λ a. none;
      claims = claims;
    })

  -- `cfg.unbonder == Some(sender)`.
  unfoldable pub is_unbonder : Storage dec chain → String → Bool
  is_unbonder s sender = elim s.config.unbonder [ none ↦ false | some u ↦ str_eq u sender ]

  unfoldable pub execute_unbond_all : Storage dec chain → Call → Done dec chain
  execute_unbond_all s call = do
    ensure (is_unbonder s call.sender) unauthorized
    fail_if s.unbond_all flag_already_set
    ok (record s { unbond_all = true }, [])

  unfoldable pub execute_stop_unbond_all : Storage dec chain → Call → Done dec chain
  execute_stop_unbond_all s call = do
    ensure (is_unbonder s call.sender || is_admin s.admin call.sender) unauthorized
    ensure s.unbond_all flag_already_set
    ok (record s { unbond_all = false }, [])

  -- The body of the loop of `execute_quick_unbond` for one address.
  unfoldable pub unbond_staker :
      ℕ
      → Storage dec chain
      → Unbonded
      → ℕ
      → String
      → Outcome ContractError (Storage dec chain × Unbonded × ℕ × List Msg)
  unbond_staker now s u claimed_total staker = do
    old_rewards ← calc_rewards_powers dec s.config (s.stakes staker) s.distributions
    r ← unbond_stakes now (s.stakes staker) u 0
    adjustments ← drop_rewards staker s.distributions old_rewards s.adjustments
    open_claims ← fit u128_max (sum (claim_amounts s.claims staker))
    claimed ← add u128_max claimed_total open_claims
    amount ← add u128_max r.2 open_claims
    ok (
      record s {
        stakes = at_addr staker r.0 s.stakes;
        adjustments = adjustments;
        claims = clear_claims s.claims staker;
      },
      r.1,
      claimed,
      if amount == 0 then [] else cw20_transfer s.config.lp_share_denom staker amount ∷ [],
    )

  unfoldable pub unbond_stakers :
      ℕ
      → Storage dec chain
      → Unbonded
      → ℕ
      → List String
      → Outcome ContractError (Storage dec chain × Unbonded × ℕ × List Msg)
  unbond_stakers now s u claimed_total [] = ok (s, u, claimed_total, [])
  unbond_stakers now s u claimed_total (staker ∷ stakers) = do
    one ← unbond_staker now s u claimed_total staker
    rest ← unbond_stakers now one.0 one.1 one.2 stakers
    ok (rest.0, rest.1, rest.2, one.3 ++ rest.3)

  -- `execute_quick_unbond` after the addresses are checked.
  unfoldable pub unbond_addresses : Storage dec chain → ℕ → List String → Done dec chain
  unbond_addresses s now stakers = do
    r ← unbond_stakers now s (no_unbonded s.config.unbonding_periods) 0 stakers
    unbonded_total ← fit u128_max (sum (unbonded_amounts r.1))
    totals ← lower_totals s.config r.1 r.0.totals
    staked ← sub r.0.token_info.staked unbonded_total
    unbonding ← sub r.0.token_info.unbonding r.2
    ok (
      record (r.0) {
        totals = totals;
        token_info = record { staked = staked; unbonding = unbonding };
      },
      r.3,
    )

  unfoldable pub execute_quick_unbond : Storage dec chain → Call → List String → Done dec chain
  execute_quick_unbond s call stakers = do
    ensure (is_unbonder s call.sender) unauthorized
    addresses ← map_err std (traverse (validate_address api) stakers)
    unbond_addresses s call.now addresses

  unfoldable pub execute_update_admin : Storage dec chain → Call → Option String → Done dec chain
  execute_update_admin s call new_admin = do
    a ← map_err std (addr_opt_validate api new_admin)
    admin ← ok_or (chain.update_admin s.admin call.sender a) ContractError.admin
    ok (record s { admin = admin }, [])

  unfoldable pub execute : Storage dec chain → Call → ExecuteMsg → Done dec chain
  execute s call (delegate period) = do
    fail_if s.unbond_all cannot_delegate_if_unbond_all
    execute_bond dec chain s call period
  execute s call (update_admin a) = execute_update_admin s call a
  execute s call (create_distribution_flow manager asset rewards) =
      execute_create_distribution_flow dec chain s call manager asset rewards
  execute s call (rebond tokens bond_from bond_to) =
      execute_rebond dec chain s call tokens bond_from bond_to
  execute s call (unbond tokens period) = execute_unbond dec chain s call tokens period
  execute s call (quick_unbond stakers) = execute_quick_unbond s call stakers
  execute s call unbond_all = execute_unbond_all s call
  execute s call stop_unbond_all = execute_stop_unbond_all s call
  execute s call claim = execute_claim dec chain s call
  execute s call (receive amount funding) = execute_receive dec chain s call amount funding
  execute s call (distribute_rewards sender) = execute_distribute_rewards dec chain s call sender
  execute s call (withdraw_rewards owner receiver) =
      execute_withdraw_rewards dec chain s call owner receiver
  execute s call (delegate_withdrawal delegated) =
      execute_delegate_withdrawal dec chain s call delegated
  execute s call (fund_distribution funding) = execute_fund_distribution dec chain s call funding
