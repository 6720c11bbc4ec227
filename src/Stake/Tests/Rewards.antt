-- ===== src/Stake/Tests/Rewards.antt =====
-- Rewards, totals and locked tokens on concrete numbers.
use whelp_contracts.Prelude.{
  ℕ, ◌+◌, ◌-◌, ◌*◌, ◌^◌, ◌≤◌, ◌<◌, ◌≡◌, true, List, [], ◌∷◌, refl, arith, leb, ◌==◌, if◌then◌else◌,
  none,
}
use whelp_contracts.Outcome.{ok, err, panic, value_or, is_ok, is_ok→eq-ok}
use whelp_contracts.Num.{floors}
use whelp_contracts.Int.{negsuc, ◌+ℤ◌, ◌-ℤ◌, ◌*ℤ◌, as_i128, as_u128, fit_i128}
use whelp_contracts.Dex.Asset.{AssetInfoValidated, Msg, into_msg}
use whelp_contracts.Stake.Error.{overflow}
use whelp_contracts.Stake.Bonding.{
  BondingInfo, amounts, unlocked, locked, total_stake, insert_locked, add_locked_tokens,
  release_stake,
}
use whelp_contracts.Stake.Bonding.Order.{IsSorted, From, release_stake_lem}
use whelp_contracts.Stake.State.{
  Distribution, WithdrawAdjustment, TotalStake, Config, no_adjustment, calc_power,
  add_rewards_power, calc_rewards_power, add_total_power, total_rewards_power, get_stake,
}
use whelp_contracts.Stake.Totals.{update_total}
use whelp_contracts.Stake.Totals.Laws.{Matches, update_total-Matches, update_total_batch_panics}
use whelp_contracts.Stake.Rewards.{
  shares_scale, add_shares, update_rewards, apply_points_correction, rewards_of_power,
  withdrawable_rewards, distribute_one,
}
use whelp_contracts.Stake.Rewards.Laws.{rewards_of_power-update_rewards}
use whelp_contracts.Stake.Rewards.Shares.{IsSolvent, add_shares_conserves, add_shares-IsSolvent}
use whelp_contracts.Stake.Rewards.Solvency.{
  Claims, entitled, entitled-le-distributed, update_rewards-IsSolvent,
}
use whelp_contracts.Stake.Bond.{Adjustments}
use whelp_contracts.Stake.Flows.{withdraw_one}
use whelp_contracts.Stake.Flows.Withdraw.{booked, withdraw_one_effect}
use whelp_contracts.Stake.Tests.{chain, store, flow}

-- 300 tokens for powers of 2 and 1.
abbrev paid_in : Distribution
paid_in = record {
  shares_per_point = 100 * 2 ^ 32;
  shares_leftover = 0;
  distributed_total = 300;
  withdrawable_total = 300;
  manager = "boss";
  reward_multipliers = (10, 10 ^ 18) ∷ (20, 2 * 10 ^ 18) ∷ [];
}

pays_in : add_shares flow 300 3 ≡ ok paid_in
unfolding add_shares
pays_in = refl

add_shares_conserves_example :
    (paid_in.shares_per_point * 3 + paid_in.shares_leftover ≡ 0 * 3 + 0 + 300 * shares_scale)
    × (paid_in.shares_leftover < 3)
    × (paid_in.distributed_total ≡ 0 + 300)
    × (paid_in.withdrawable_total ≡ 0 + 300)
add_shares_conserves_example = add_shares_conserves flow 300 3 (omega arith) (omega arith) pays_in

solvent : IsSolvent flow ((2, no_adjustment) ∷ (1, no_adjustment) ∷ [])
solvent = record { covered = omega arith; nonnegative = (omega arith, (omega arith, tt)) }

add_shares-IsSolvent_example : IsSolvent paid_in ((2, no_adjustment) ∷ (1, no_adjustment) ∷ [])
add_shares-IsSolvent_example =
    add_shares-IsSolvent flow ((2, no_adjustment) ∷ (1, no_adjustment) ∷ []) 300 3 solvent
      (omega arith) pays_in

abbrev due : Claims
due = (2, no_adjustment, 200) ∷ (1, no_adjustment, 100) ∷ []

reward_of : (p r : ℕ) → r ≡ 100 * p → p < 1000 → rewards_of_power paid_in no_adjustment p ≡ ok r
unfolding rewards_of_power as_i128 as_u128 fit_i128 ◌+ℤ◌
reward_of p r e small = ground (arith, e, small)

entitled-le-distributed_example : entitled due ≤ 300
entitled-le-distributed_example =
    entitled-le-distributed paid_in due
      (record { covered = omega arith; nonnegative = (omega arith, (omega arith, tt)) })
      (
        reward_of 2 200 refl (omega arith),
        omega arith,
        (reward_of 1 100 refl (omega arith), omega arith, tt),
      )

-- The correction when the power goes from 2 to 5: 3 * 100 * 2 ^ 32 points back.
abbrev corrected : WithdrawAdjustment
corrected = record { shares_correction = negsuc (300 * 2 ^ 32 - 1); withdrawn_rewards = 0 }

corrects : update_rewards no_adjustment paid_in 2 5 ≡ ok corrected
unfolding update_rewards apply_points_correction ◌-ℤ◌ ◌*ℤ◌ as_i128 fit_i128
corrects = refl

update_rewards-IsSolvent_example : IsSolvent paid_in ((5, corrected) ∷ (1, no_adjustment) ∷ [])
update_rewards-IsSolvent_example =
    update_rewards-IsSolvent paid_in [] ((1, no_adjustment) ∷ []) no_adjustment 2 5 (omega arith)
      (omega arith) (omega arith) corrects
      (record { covered = omega arith; nonnegative = (omega arith, (omega arith, tt)) })

rewards_of_power-update_rewards_example :
    rewards_of_power paid_in corrected 5 ≡ rewards_of_power paid_in no_adjustment 2
rewards_of_power-update_rewards_example =
    rewards_of_power-update_rewards no_adjustment paid_in 2 5 (omega arith) (omega arith)
      (omega arith) (omega arith) (omega arith) corrects

abbrev rich : Distribution
rich = record paid_in { distributed_total = 20000; withdrawable_total = 20000 }

abbrev adjustments : Adjustments
adjustments a b = none

abbrev usd : AssetInfoValidated
usd = AssetInfoValidated.smart_token "usd"

abbrev withdrawn : Distribution × Adjustments × List Msg
withdrawn =
    value_or
      (withdraw_one floors chain store.config (store.stakes "alice") "alice" "bob" usd rich
        adjustments)
      (rich, adjustments, [])

withdraws :
    is_ok (
      withdraw_one floors chain store.config
        (store.stakes "alice")
        "alice"
        "bob"
        usd
        rich
        adjustments)
    ≡ true
unfolding withdraw_one withdrawable_rewards rewards_of_power calc_rewards_power add_rewards_power
    calc_power total_stake get_stake as_i128 as_u128 fit_i128 ◌+ℤ◌
withdraws = refl

withdraw_one_effect_example :
    (reward : ℕ) × (withdrawable_rewards floors store.config
        (store.stakes "alice")
        rich
        no_adjustment
      ≡ ok reward)
    × (withdrawn.0.withdrawable_total + reward ≡ 20000)
    × (withdrawn.2 ≡ (
        if reward == 0 then [] else into_msg (record { info = usd; amount = reward }) "bob" ∷ []))
    × (withdrawable_rewards floors store.config
          (store.stakes "alice")
          withdrawn.0
          (booked withdrawn.1 "alice" usd)
        ≡ ok 0)
withdraw_one_effect_example =
    withdraw_one_effect floors chain store.config (store.stakes "alice") "alice" "bob" usd rich
      adjustments
      (is_ok→eq-ok
        (withdraw_one floors chain store.config (store.stakes "alice") "alice" "bob" usd rich
          adjustments)
        (rich, adjustments, []) withdraws)

power_of : total_rewards_power floors store.config store.totals flow ≡ ok 100
unfolding total_rewards_power add_total_power calc_power
power_of = refl

abbrev taken_in : Distribution
taken_in = value_or (distribute_one floors store.config store.totals (ok 1000) (ok 400) flow) flow

takes_in : is_ok (distribute_one floors store.config store.totals (ok 1000) (ok 400) flow) ≡ true
unfolding distribute_one total_rewards_power add_total_power calc_power add_shares
takes_in = refl

-- 7 tokens until 40 and 5 until 60, beside 10 unlocked ones.
abbrev entry : BondingInfo
entry = record { stake = 10; locked_tokens = (40, 7) ∷ (60, 5) ∷ [] }

locks :
    add_locked_tokens entry 50 3
    ≡ ok (record { stake = 10; locked_tokens = (40, 7) ∷ (50, 3) ∷ (60, 5) ∷ [] })
unfolding add_locked_tokens insert_locked
locks = refl

entry-IsSorted : IsSorted entry.locked_tokens
entry-IsSorted = ((omega arith, tt), (tt, tt))

release_stake_lem_example :
    (release_stake 45 12 entry ≡ (
      if leb 12 (10 + amounts (unlocked 45 entry.locked_tokens))
      then ok (record {
        stake = 10 + amounts (unlocked 45 entry.locked_tokens) - 12;
        locked_tokens = locked 45 entry.locked_tokens;
      })
      else err overflow))
    × IsSorted (locked 45 entry.locked_tokens)
    × From (45 + 1) (locked 45 entry.locked_tokens)
release_stake_lem_example = release_stake_lem 45 12 entry (omega arith) entry-IsSorted

-- Two stakers with 100 and 50, where 60 is the least that counts.
abbrev strict : Config
strict = record (store.config) { min_bond = 60 }

update_total-Matches_example :
    (t : TotalStake) × (update_total strict 50 70 (record { staked = 150; powered_stake = 100 })
      ≡ ok t)
    × Matches strict (100 ∷ 70 ∷ []) t
update_total-Matches_example =
    update_total-Matches strict (100 ∷ []) [] 50 70 (record { staked = 150; powered_stake = 100 })
      (record { staked = refl; powered_stake = refl }) (omega arith)

update_total_batch_panics_example :
    update_total strict (40 + (50 + 0)) 0 (record { staked = 90; powered_stake = 0 }) ≡ panic
update_total_batch_panics_example =
    update_total_batch_panics strict (40 ∷ 50 ∷ []) (record { staked = 90; powered_stake = 0 })
      (record { staked = refl; powered_stake = refl }) (omega arith) (omega arith) (omega arith)
