-- ===== src/Stake/Totals.antt =====
-- `update_total_stake` of contracts/stake/src/contract.rs: the totals of one unbonding period.
pub mod Laws
use whelp_contracts.Prelude.{
  ℕ, ◌+◌, ◌-◌, Bool, true, false, List, [], ◌∷◌, leb, ◌==◌, if◌then◌else◌,
}
use whelp_contracts.Outcome.{Outcome, ok, err, ◌>>=◌}
use whelp_contracts.Num.{u128_max, add, sub, checked_sub, checked_fit}
use whelp_contracts.Stake.Error.{ContractError, overflow, no_unbonding_period_found}
use whelp_contracts.Stake.State.{Config, TotalStake, Totals}

-- The case distinction on whether the stake was and is above `min_bond`.
unfoldable pub new_powered : Bool → Bool → ℕ → ℕ → ℕ → Outcome ContractError ℕ
new_powered false false powered old new = ok powered
new_powered false true powered old new = add u128_max powered new
new_powered true false powered old new = sub powered old
new_powered true true powered old new =
    if leb old new then add u128_max powered (new - old) else sub powered (old - new)

unfoldable pub update_total : Config → ℕ → ℕ → TotalStake → Outcome ContractError TotalStake
unfolding new_powered
update_total cfg old new total = do
  staked ←
      if leb old new
      then checked_fit overflow u128_max (total.staked + (new - old))
      else checked_sub overflow total.staked (old - new)
  powered ← new_powered (leb cfg.min_bond old) (leb cfg.min_bond new) total.powered_stake old new
  ok (record { staked = staked; powered_stake = powered })

-- The first entry of the period, where the source has a binary search.
unfoldable pub update_total_stake : Config → ℕ → ℕ → ℕ → Totals → Outcome ContractError Totals
unfolding update_total
update_total_stake cfg period old new [] = err (no_unbonding_period_found period)
update_total_stake cfg period old new ((p, total) ∷ totals) =
    let rest = update_total_stake cfg period old new totals in
    if p == period
    then (do t ← update_total cfg old new total; ok ((p, t) ∷ totals))
    else (do ts ← rest; ok ((p, total) ∷ ts))
