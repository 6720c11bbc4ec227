-- ===== src/Stake/Flows/Withdraw.antt =====
-- contracts/stake/src/distribution.rs: what a withdrawal of rewards pays, who may ask for it, and
-- what a distribution takes in.
use whelp_contracts.Prelude.{
  ℕ, ◌+◌, ◌≡◌, ◌⊎◌, String, true, some, List, [], ◌∷◌, ◌==◌, str_eq_refl, unwrap_or, arith,
  if◌then◌else◌,
}
use whelp_contracts.Outcome.{ok, >>=-eq-ok}
use whelp_contracts.Num.{Decimals}
use whelp_contracts.Dex.Asset.{AssetInfoValidated, Msg, equal, into_msg}
use whelp_contracts.Stake.State.{
  Config, Stakes, Totals, Distribution, WithdrawAdjustment, no_adjustment, calc_rewards_power,
  total_rewards_power, at_addr, at_asset,
}
use whelp_contracts.Stake.Rewards.{
  withdrawable_rewards, rewards_of_power, distribute_one, add_shares,
}
use whelp_contracts.Stake.Chain.{Chain}
use whelp_contracts.Stake.Bond.{Adjustments}
use whelp_contracts.Stake.Flows.{withdraw_one}

-- The adjustment of an address, and with a further reward withdrawn.
abbrev pub booked : Adjustments → String → AssetInfoValidated → WithdrawAdjustment
booked adjustments owner asset = unwrap_or (adjustments owner asset) no_adjustment

abbrev take : WithdrawAdjustment → ℕ → WithdrawAdjustment
take a reward = record a { withdrawn_rewards = a.withdrawn_rewards + reward }

equal_refl : (a : AssetInfoValidated) → equal a a ≡ true
unfolding equal
equal_refl (AssetInfoValidated.cw20_token a) = str_eq_refl a
equal_refl (AssetInfoValidated.smart_token d) = str_eq_refl d

-- After the rewards are booked as withdrawn, none are left.
rewards_after :
    (d d' : Distribution) (a a' : WithdrawAdjustment) (p reward : ℕ)
    → rewards_of_power d a p ≡ ok reward
    → d'.shares_per_point ≡ d.shares_per_point
    → a'.shares_correction ≡ a.shares_correction
    → a'.withdrawn_rewards ≡ a.withdrawn_rewards + reward
    → rewards_of_power d' a' p ≡ ok 0
unfolding rewards_of_power
rewards_after d d' a a' p reward h spp correction withdrawn =
    rw (spp, correction, withdrawn) (ground arith)

module _ (dec : Decimals) where
  calc-same :
      (cfg : Config) (stakes : Stakes) (d d' : Distribution)
      → d'.reward_multipliers ≡ d.reward_multipliers
      → calc_rewards_power dec cfg stakes d' ≡ calc_rewards_power dec cfg stakes d
  unfolding calc_rewards_power
  calc-same cfg stakes d d' e = rw e

  withdrawable_after :
      (cfg : Config) (stakes : Stakes) (d d' : Distribution) (a a' : WithdrawAdjustment)
      (reward : ℕ)
      → withdrawable_rewards dec cfg stakes d a ≡ ok reward
      → d'.reward_multipliers ≡ d.reward_multipliers
      → d'.shares_per_point ≡ d.shares_per_point
      → a'.shares_correction ≡ a.shares_correction
      → a'.withdrawn_rewards ≡ a.withdrawn_rewards + reward
      → withdrawable_rewards dec cfg stakes d' a' ≡ ok 0
  unfolding withdrawable_rewards
  withdrawable_after cfg stakes d d' a a' reward h mults spp correction withdrawn =
      let (p, ep, er) = >>=-eq-ok (calc_rewards_power dec cfg stakes d) _ h in
      rw (calc-same cfg stakes d d' mults, ep)
        (rewards_after d d' a a' p reward er spp correction withdrawn)

module _ (dec : Decimals) (chain : Chain) where
  -- The steps of a withdrawal that went through.
  withdraw_steps :
      (cfg : Config) (stakes : Stakes) (owner receiver : String) (asset : AssetInfoValidated)
      (d : Distribution) (adjustments : Adjustments) {r : Distribution × Adjustments × List Msg}
      → withdraw_one dec chain cfg stakes owner receiver asset d adjustments ≡ ok r
      → (reward : ℕ) × (withdrawable_rewards dec cfg stakes d (booked adjustments owner asset)
          ≡ ok reward)
        × (r.0.withdrawable_total + reward ≡ d.withdrawable_total)
        × (r.0.reward_multipliers ≡ d.reward_multipliers)
        × (r.0.shares_per_point ≡ d.shares_per_point)
        × (r.2 ≡ (
            if reward == 0
            then []
            else into_msg (record { info = asset; amount = reward }) receiver ∷ []))
        × (r.1 ≡ (
            if reward == 0
            then adjustments
            else at_addr owner
                (at_asset asset
                  (some (take (booked adjustments owner asset) reward))
                  (adjustments owner))
                adjustments))
  unfolding withdraw_one
  withdraw_steps cfg stakes owner receiver asset d adjustments h = ground arith

  booked_after :
      (owner : String) (asset : AssetInfoValidated) (adjustments : Adjustments) (reward : ℕ)
      {adjustments' : Adjustments}
      → adjustments' ≡ (
          if reward == 0
          then adjustments
          else at_addr owner
              (at_asset asset
                (some (take (booked adjustments owner asset) reward))
                (adjustments owner))
              adjustments)
      → (booked adjustments' owner asset).shares_correction
          ≡ (booked adjustments owner asset).shares_correction
        × ((booked adjustments' owner asset).withdrawn_rewards
            ≡ (booked adjustments owner asset).withdrawn_rewards + reward)
  booked_after owner asset adjustments reward e =
      rw e (ground (arith, str_eq_refl owner, equal_refl asset))

  -- If a withdrawal of one address from one distribution goes through, there is a reward that
  -- `withdrawable_rewards` computed before it, the withdrawable total goes down by exactly that
  -- reward, the only message pays it to the receiver, or there is no message if it is zero, and
  -- `withdrawable_rewards` computes zero after it.
  pub withdraw_one_effect :
      (cfg : Config) (stakes : Stakes) (owner receiver : String) (asset : AssetInfoValidated)
      (d : Distribution) (adjustments : Adjustments) {r : Distribution × Adjustments × List Msg}
      → withdraw_one dec chain cfg stakes owner receiver asset d adjustments ≡ ok r
      → (reward : ℕ) × (withdrawable_rewards dec cfg stakes d (booked adjustments owner asset)
          ≡ ok reward)
        × (r.0.withdrawable_total + reward ≡ d.withdrawable_total)
        × (r.2 ≡ (
            if reward == 0
            then []
            else into_msg (record { info = asset; amount = reward }) receiver ∷ []))
        × (withdrawable_rewards dec cfg stakes r.0 (booked r.1 owner asset) ≡ ok 0)
  withdraw_one_effect cfg stakes owner receiver asset d adjustments {r} h =
      let (reward, er, total, mults, spp, msgs, adj) =
        withdraw_steps cfg stakes owner receiver asset d adjustments h in
      let (correction, withdrawn) = booked_after owner asset adjustments reward adj in
      (
        reward,
        er,
        total,
        msgs,
        withdrawable_after dec cfg stakes d (r.0) (booked adjustments owner asset)
            (booked r.1 owner asset) reward er mults spp correction withdrawn,
      )

module _ (dec : Decimals) where
  pub distribute_one_effect :
      (cfg : Config) (totals : Totals) (balance locked power : ℕ) (d : Distribution)
      {d' : Distribution}
      → total_rewards_power dec cfg totals d ≡ ok power
      → distribute_one dec cfg totals (ok balance) (ok locked) d ≡ ok d'
      → ((power ≡ 0) × (d' ≡ d)) ⊎ (d'.withdrawable_total + locked ≡ balance)
  unfolding distribute_one add_shares
  distribute_one_effect cfg totals balance locked power d e h = ground arith
