-- ===== src/Stake/Tests/Messages.antt =====
-- Messages to the staking contract on concrete storages: the quick unbond, the roles, and a run from
-- a fresh contract.
use whelp_contracts.Prelude.{◌+◌, ◌≡◌, true, some, List, [], ◌∷◌, refl}
use whelp_contracts.Outcome.{traverse, value_or, is_ok, is_ok→eq-ok}
use whelp_contracts.Num.{floors}
use whelp_contracts.Int.{◌-ℤ◌, ◌*ℤ◌, as_i128, fit_i128}
use whelp_contracts.Dex.Asset.{Msg, validate_address, addr_opt_validate}
use whelp_contracts.Stake.Bonding.{
  total_stake, add_unlocked_tokens, release_stake, free_unlocked_tokens, unlocked, locked,
  force_unlock_all,
}
use whelp_contracts.Stake.State.{
  has_period, get_stake, put_stake, calc_power, add_rewards_power, calc_rewards_power,
}
use whelp_contracts.Stake.Totals.{new_powered, update_total, update_total_stake}
use whelp_contracts.Stake.Rewards.{update_rewards, apply_points_correction}
use whelp_contracts.Stake.Bond.{
  Storage, save_rewards, calc_rewards_powers, adjust_all, execute_bond, execute_mass_bond,
}
use whelp_contracts.Stake.Contract.{
  InstantiateMsg, instantiate, insert_period, sort_periods, zero_totals, is_unbonder, no_unbonded,
  add_unbonded, unbond_stakes, drop_rewards, lower_totals, unbond_staker, unbond_stakers,
  unbond_addresses, execute_quick_unbond, delegate, quick_unbond, execute,
}
use whelp_contracts.Stake.Contract.Access.{execute-Permitted}
use whelp_contracts.Stake.Contract.Empties.{Empty, unbond_addresses-Empty}
use whelp_contracts.Stake.Contract.History.{here, after, Reachable-WellFormed}
use whelp_contracts.Stake.Contract.Invariant.{WellFormed}
use whelp_contracts.Stake.Contract.Unbond.{paid, execute_quick_unbond_pays}
use whelp_contracts.Stake.Tests.{chain, store, call_of, nothing}

abbrev emptied : Storage floors chain × List Msg
emptied = value_or (execute_quick_unbond floors chain store (call_of "boss") ("alice" ∷ [])) nothing

empties : is_ok (execute_quick_unbond floors chain store (call_of "boss") ("alice" ∷ [])) ≡ true
unfolding execute_quick_unbond unbond_addresses unbond_stakers unbond_staker unbond_stakes
    is_unbonder traverse validate_address no_unbonded add_unbonded drop_rewards lower_totals
    calc_rewards_powers calc_rewards_power add_rewards_power calc_power total_stake get_stake
    release_stake free_unlocked_tokens unlocked locked force_unlock_all update_total_stake
    update_total new_powered save_rewards update_rewards apply_points_correction ◌-ℤ◌ ◌*ℤ◌ as_i128
    fit_i128
empties = refl

execute_quick_unbond_pays_example :
    (emptied.0.token_info.staked + emptied.0.token_info.unbonding + paid emptied.1 ≡ 100 + 5)
    × (is_unbonder floors chain store "boss" ≡ true)
execute_quick_unbond_pays_example =
    execute_quick_unbond_pays floors chain store (call_of "boss") ("alice" ∷ []) (
      is_ok→eq-ok (execute_quick_unbond floors chain store (call_of "boss") ("alice" ∷ [])) nothing
        empties)

quick_ok : is_ok (execute floors chain store (call_of "boss") (quick_unbond ("alice" ∷ []))) ≡ true
unfolding execute
quick_ok = empties

execute-Permitted_example : is_unbonder floors chain store "boss" ≡ true
execute-Permitted_example =
    execute-Permitted floors chain store (call_of "boss") (quick_unbond ("alice" ∷ [])) (
      is_ok→eq-ok (execute floors chain store (call_of "boss") (quick_unbond ("alice" ∷ [])))
        nothing quick_ok)

abbrev creation : InstantiateMsg
creation = record {
  lp_share_denom = "lp";
  tokens_per_power = 1;
  min_bond = 1;
  unbonding_periods = 20 ∷ 10 ∷ [];
  max_distributions = 2;
  admin = some "boss";
  unbonder = some "boss";
}

abbrev start : Storage floors chain
start = value_or (instantiate floors chain (λ a. 0) (call_of "boss") creation) store

starts : is_ok (instantiate floors chain (λ a. 0) (call_of "boss") creation) ≡ true
unfolding instantiate addr_opt_validate sort_periods insert_period zero_totals
starts = refl

abbrev first : Storage floors chain × List Msg
first = value_or (execute floors chain start (call_of "alice") (delegate 10)) nothing

firsts : is_ok (execute floors chain start (call_of "alice") (delegate 10)) ≡ true
unfolding execute instantiate addr_opt_validate sort_periods insert_period zero_totals execute_bond
    execute_mass_bond has_period calc_rewards_powers total_stake get_stake put_stake
    add_unlocked_tokens update_total_stake update_total new_powered adjust_all
firsts = refl

Reachable-WellFormed_example : WellFormed floors chain first.0
Reachable-WellFormed_example =
    Reachable-WellFormed floors chain (λ a. 0) (call_of "boss") creation {start = start}
      {s = first.0}
      (is_ok→eq-ok (instantiate floors chain (λ a. 0) (call_of "boss") creation) store starts)
      (after (call_of "alice") (delegate 10) here
        (is_ok→eq-ok (execute floors chain start (call_of "alice") (delegate 10)) nothing firsts))

abbrev gone : Storage floors chain × List Msg
gone = value_or (unbond_addresses floors chain store 5 ("alice" ∷ "bob" ∷ [])) nothing

goes : is_ok (unbond_addresses floors chain store 5 ("alice" ∷ "bob" ∷ [])) ≡ true
unfolding unbond_addresses unbond_stakers unbond_staker unbond_stakes no_unbonded add_unbonded
    drop_rewards lower_totals calc_rewards_powers calc_rewards_power add_rewards_power calc_power
    total_stake get_stake release_stake free_unlocked_tokens unlocked locked force_unlock_all
    update_total_stake update_total new_powered save_rewards update_rewards apply_points_correction
    ◌-ℤ◌ ◌*ℤ◌ as_i128 fit_i128
goes = refl

unbond_addresses-Empty_example : Empty floors chain ("alice" ∷ "bob" ∷ []) gone.0
unbond_addresses-Empty_example =
    unbond_addresses-Empty floors chain store 5 ("alice" ∷ "bob" ∷ [])
      (is_ok→eq-ok (unbond_addresses floors chain store 5 ("alice" ∷ "bob" ∷ [])) nothing goes)
