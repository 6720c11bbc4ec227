-- ===== src/Stake/Bond/Laws.antt =====
-- What bonding and unbonding do to the tokens of the sender and to the totals.
use whelp_contracts.Prelude.{
  ℕ, ◌+◌, ◌-◌, ◌≡◌, String, List, [], ◌∷◌, str_eq, str_eq_refl, arith, if◌then◌else◌, ◌*◌, ◌^◌,
}
use whelp_contracts.Outcome.{ok}
use whelp_contracts.Num.{Decimals}
use whelp_contracts.Dex.Asset.{Coin, Msg}
use whelp_contracts.Stake.Bonding.{BondingInfo, add_unlocked_tokens, release_stake}
use whelp_contracts.Stake.Bonding.Laws.{held-add_unlocked_tokens, held-release_stake}
use whelp_contracts.Stake.State.{put_stake, stake_or_default, at_addr}
use whelp_contracts.Stake.State.Map.{held_all, Ascending, held_all-put_stake, put_stake-Ascending}
use whelp_contracts.Stake.Chain.{Chain, Call}
use whelp_contracts.Stake.Bond.{
  Storage, execute_mass_bond, remove_stake_without_total, execute_unbond, create_undelegate_msg,
}

module _ (dec : Decimals) (chain : Chain) where
  -- The steps of a bond that went through.
  mass_bond_steps :
      (s : Storage dec chain) (sender : String) (c : Coin) (period : ℕ)
      {r : Storage dec chain × List Msg}
      → execute_mass_bond dec chain s sender c period ≡ ok r
      → (b : BondingInfo) × (add_unlocked_tokens
            (stake_or_default period (s.stakes sender))
            c.amount
          ≡ ok b)
        × (r.0.stakes ≡ at_addr sender (put_stake period b (s.stakes sender)) s.stakes)
        × (r.0.token_info.staked ≡ s.token_info.staked + c.amount)
        × (r.0.token_info.unbonding ≡ s.token_info.unbonding)
        × (r.1 ≡ [])
  unfolding execute_mass_bond
  mass_bond_steps s sender c period h = ground arith

  at_self : {A : Type 0} (k : String) (v : A) (m : String → A) → at_addr k v m k ≡ v
  at_self k v m = rw (str_eq_refl k)

  -- If a bond goes through, with the sender's stakes in ascending order of the period, the sender's
  -- tokens and the staked counter go up by the amount of the coin, the unbonding counter stays, no
  -- message is sent, the stakes of all other addresses stay, and the sender's stakes stay in order.
  pub execute_mass_bond_effect :
      (s : Storage dec chain) (sender : String) (c : Coin) (period : ℕ) (other : String)
      {r : Storage dec chain × List Msg}
      → Ascending (s.stakes sender)
      → execute_mass_bond dec chain s sender c period ≡ ok r
      → (held_all (r.0.stakes sender) ≡ held_all (s.stakes sender) + c.amount)
        × Ascending (r.0.stakes sender)
        × (r.0.token_info.staked ≡ s.token_info.staked + c.amount)
        × (r.0.token_info.unbonding ≡ s.token_info.unbonding)
        × (r.1 ≡ [])
        × (r.0.stakes other ≡ (if str_eq sender other then r.0.stakes sender else s.stakes other))
  execute_mass_bond_effect s sender c period other {r} asc h =
      let (b, eb, estakes, estaked, eunbonding, emsgs) = mass_bond_steps s sender c period h in
      let info = stake_or_default period (s.stakes sender) in
      let here : r.0.stakes sender ≡ put_stake period b (s.stakes sender) =
        rw estakes (at_self sender (put_stake period b (s.stakes sender)) s.stakes) in
      (
        rw here (
            omega (
              arith,
              held_all-put_stake period b (s.stakes sender) asc,
              held-add_unlocked_tokens info c.amount eb,
            )),
        rw here (put_stake-Ascending period b (s.stakes sender) asc),
        estaked,
        eunbonding,
        emsgs,
        rw (estakes, str_eq_refl sender),
      )

  -- The storage and the messages after the stake is removed, by the unbond-all flag.
  unbond_steps :
      (s : Storage dec chain) (call : Call) (amount period : ℕ) {r : Storage dec chain × List Msg}
      → execute_unbond dec chain s call amount period ≡ ok r
      → (b : BondingInfo) × (release_stake call.now amount
            (stake_or_default period (s.stakes call.sender))
          ≡ ok b)
        × (r.0.stakes ≡ at_addr call.sender (put_stake period b (s.stakes call.sender)) s.stakes)
        × (r.0.token_info.staked ≡ s.token_info.staked - amount)
        × (r.0.token_info.unbonding ≡ s.token_info.unbonding + (if s.unbond_all then 0 else amount))
        × (r.1 ≡ (
            if s.unbond_all
            then create_undelegate_msg call.sender amount s.config.lp_share_denom ∷ []
            else []))
        × (r.0.claims ≡ (
            if s.unbond_all
            then s.claims
            else chain.create_claim s.claims call.sender amount (call.now + period * 10 ^ 9)))
  unfolding execute_unbond remove_stake_without_total
  unbond_steps s call amount period h = ground arith

  -- If an unbond goes through, with the sender's stakes in ascending order of the period, the
  -- sender's tokens go down by the amount, the staked counter goes down by it, but not below zero,
  -- and the stakes of all other addresses stay. Without the unbond-all flag the unbonding counter
  -- goes up by the amount, a claim for it is created that is due after the period, and nothing is
  -- sent; with the flag the amount is sent to the sender, and the unbonding counter and the claims
  -- stay. The sender's stakes stay in order.
  pub execute_unbond_effect :
      (s : Storage dec chain) (call : Call) (amount period : ℕ) (other : String)
      {r : Storage dec chain × List Msg}
      → Ascending (s.stakes call.sender)
      → execute_unbond dec chain s call amount period ≡ ok r
      → (held_all (r.0.stakes call.sender) + amount ≡ held_all (s.stakes call.sender))
        × (r.0.token_info.staked ≡ s.token_info.staked - amount)
        × (r.0.token_info.unbonding ≡ s.token_info.unbonding + (if s.unbond_all then 0 else amount))
        × (r.1 ≡ (
            if s.unbond_all
            then create_undelegate_msg call.sender amount s.config.lp_share_denom ∷ []
            else []))
        × (r.0.claims ≡ (
            if s.unbond_all
            then s.claims
            else chain.create_claim s.claims call.sender amount (call.now + period * 10 ^ 9)))
        × (r.0.stakes other
            ≡ (if str_eq call.sender other then r.0.stakes call.sender else s.stakes other))
        × Ascending (r.0.stakes call.sender)
  execute_unbond_effect s call amount period other {r} asc h =
      let (b, eb, stakes, staked, unbonding, msgs, claims) = unbond_steps s call amount period h in
      let old = stake_or_default period (s.stakes call.sender) in
      let here : r.0.stakes call.sender ≡ put_stake period b (s.stakes call.sender) =
        rw stakes (at_self call.sender (put_stake period b (s.stakes call.sender)) s.stakes) in
      (
        rw here (
            omega (
              arith,
              held_all-put_stake period b (s.stakes call.sender) asc,
              held-release_stake call.now amount old eb,
            )),
        staked,
        unbonding,
        msgs,
        claims,
        rw (stakes, str_eq_refl call.sender),
        rw here (put_stake-Ascending period b (s.stakes call.sender) asc),
      )
