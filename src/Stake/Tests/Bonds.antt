-- ===== src/Stake/Tests/Bonds.antt =====
-- Bonding, rebonding, unbonding and the quick unbond on concrete storages.
use whelp_contracts.Prelude.{◌+◌, ◌-◌, ◌*◌, ◌^◌, ◌≡◌, true, List, [], str_eq, refl, if◌then◌else◌}
use whelp_contracts.Outcome.{value_or, is_ok, is_ok→eq-ok}
use whelp_contracts.Num.{floors}
use whelp_contracts.Dex.Asset.{Coin, Msg}
use whelp_contracts.Stake.Bonding.{
  total_stake, add_unlocked_tokens, add_locked_tokens, insert_locked, release_stake,
  free_unlocked_tokens, unlocked, locked,
}
use whelp_contracts.Stake.State.{
  has_period, get_stake, put_stake, calc_power, add_rewards_power, calc_rewards_power,
}
use whelp_contracts.Stake.State.Map.{held_all, Ascending}
use whelp_contracts.Stake.Totals.{new_powered, update_total, update_total_stake}
use whelp_contracts.Stake.Rewards.{update_rewards, apply_points_correction}
use whelp_contracts.Stake.Bond.{
  Storage, save_rewards, add_rebonded, move_totals, calc_rewards_powers, adjust_all,
  execute_mass_bond, execute_rebond, remove_stake_without_total, execute_unbond,
}
use whelp_contracts.Stake.Bond.Laws.{execute_mass_bond_effect, execute_unbond_effect}
use whelp_contracts.Stake.Bond.Rebond.{execute_rebond_effect}
use whelp_contracts.Int.{◌-ℤ◌, ◌*ℤ◌, as_i128, fit_i128}
use whelp_contracts.Stake.Tests.{chain, store, call_of, nothing}

abbrev coin : Coin
coin = record { denom = "lp"; amount = 40 }

abbrev bonded : Storage floors chain × List Msg
bonded = value_or (execute_mass_bond floors chain store "alice" coin 20) nothing

bonds : is_ok (execute_mass_bond floors chain store "alice" coin 20) ≡ true
unfolding execute_mass_bond has_period calc_rewards_powers calc_rewards_power add_rewards_power
    calc_power total_stake get_stake put_stake add_unlocked_tokens update_total_stake update_total
    new_powered adjust_all save_rewards update_rewards apply_points_correction ◌-ℤ◌ ◌*ℤ◌ as_i128
    fit_i128
bonds = refl

execute_mass_bond_effect_example :
    (held_all (bonded.0.stakes "alice") ≡ 100 + 40)
    × Ascending (bonded.0.stakes "alice")
    × (bonded.0.token_info.staked ≡ 100 + 40)
    × (bonded.0.token_info.unbonding ≡ 5)
    × (bonded.1 ≡ [])
    × (bonded.0.stakes "bob"
        ≡ (if str_eq "alice" "bob" then bonded.0.stakes "alice" else store.stakes "bob"))
execute_mass_bond_effect_example =
    execute_mass_bond_effect floors chain store "alice" coin 20 "bob" (tt, tt)
      (is_ok→eq-ok (execute_mass_bond floors chain store "alice" coin 20) nothing bonds)

abbrev rebonded : Storage floors chain × List Msg
rebonded = value_or (execute_rebond floors chain store (call_of "alice") 30 10 20) nothing

rebonds : is_ok (execute_rebond floors chain store (call_of "alice") 30 10 20) ≡ true
unfolding execute_rebond has_period calc_rewards_powers calc_rewards_power add_rewards_power
    calc_power total_stake get_stake put_stake add_unlocked_tokens add_locked_tokens insert_locked
    release_stake free_unlocked_tokens unlocked locked add_rebonded move_totals update_total_stake
    update_total new_powered adjust_all save_rewards update_rewards apply_points_correction ◌-ℤ◌
    ◌*ℤ◌ as_i128 fit_i128
rebonds = refl

execute_rebond_effect_example :
    (held_all (rebonded.0.stakes "alice") ≡ 100)
    × Ascending (rebonded.0.stakes "alice")
    × (rebonded.0.token_info ≡ store.token_info)
    × (rebonded.0.claims ≡ store.claims)
    × (rebonded.1 ≡ [])
    × (rebonded.0.stakes "bob"
        ≡ (if str_eq "alice" "bob" then rebonded.0.stakes "alice" else store.stakes "bob"))
execute_rebond_effect_example =
    execute_rebond_effect floors chain store (call_of "alice") 30 10 20 "bob" (tt, tt)
      (is_ok→eq-ok (execute_rebond floors chain store (call_of "alice") 30 10 20) nothing rebonds)

abbrev unbonded : Storage floors chain × List Msg
unbonded = value_or (execute_unbond floors chain store (call_of "alice") 60 10) nothing

unbonds : is_ok (execute_unbond floors chain store (call_of "alice") 60 10) ≡ true
unfolding execute_unbond remove_stake_without_total has_period calc_rewards_powers
    calc_rewards_power add_rewards_power calc_power total_stake get_stake put_stake release_stake
    free_unlocked_tokens unlocked locked update_total_stake update_total new_powered adjust_all
    save_rewards update_rewards apply_points_correction ◌-ℤ◌ ◌*ℤ◌ as_i128 fit_i128
unbonds = refl

execute_unbond_effect_example :
    (held_all (unbonded.0.stakes "alice") + 60 ≡ 100)
    × (unbonded.0.token_info.staked ≡ 100 - 60)
    × (unbonded.0.token_info.unbonding ≡ 5 + 60)
    × (unbonded.1 ≡ [])
    × (unbonded.0.claims
        ≡ chain.create_claim store.claims "alice" 60 ((call_of "alice").now + 10 * 10 ^ 9))
    × (unbonded.0.stakes "bob"
        ≡ (if str_eq "alice" "bob" then unbonded.0.stakes "alice" else store.stakes "bob"))
    × Ascending (unbonded.0.stakes "alice")
execute_unbond_effect_example =
    execute_unbond_effect floors chain store (call_of "alice") 60 10 "bob" (tt, tt)
      (is_ok→eq-ok (execute_unbond floors chain store (call_of "alice") 60 10) nothing unbonds)
