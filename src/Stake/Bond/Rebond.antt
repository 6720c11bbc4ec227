-- ===== src/Stake/Bond/Rebond.antt =====
-- contracts/stake/src/contract.rs: moving a stake between two unbonding periods.
use whelp_contracts.Prelude.{
  ℕ, ◌+◌, ◌-◌, ◌≡◌, String, if◌then◌else◌, List, [], str_eq, str_eq_refl, arith, ◌^◌, ◌*◌,
}
use whelp_contracts.Outcome.{ok}
use whelp_contracts.Num.{Decimals}
use whelp_contracts.Dex.Asset.{Msg}
use whelp_contracts.Stake.Bonding.{BondingInfo, release_stake}
use whelp_contracts.Stake.Bonding.Laws.{
  held, held-release_stake, held-add_locked_tokens, held-add_unlocked_tokens,
}
use whelp_contracts.Stake.State.{put_stake, stake_or_default, at_addr}
use whelp_contracts.Stake.State.Map.{held_all, Ascending, held_all-put_stake, put_stake-Ascending}
use whelp_contracts.Stake.Chain.{Chain, Call}
use whelp_contracts.Stake.Bond.{Storage, execute_rebond, add_rebonded}

held-add_rebonded :
    (now bond_from bond_to amount : ℕ) (to : BondingInfo) {b : BondingInfo}
    → add_rebonded now bond_from bond_to amount to ≡ ok b
    → held b ≡ held to + amount
unfolding add_rebonded
held-add_rebonded now bond_from bond_to amount to {b} h = ground (
  arith,
  held-add_locked_tokens to (now + (bond_from - bond_to) * 10 ^ 9) amount {b' = b},
  held-add_unlocked_tokens to amount {b' = b},
)

module _ (dec : Decimals) (chain : Chain) where
  -- The steps of a rebond that went through.
  rebond_steps :
      (s : Storage dec chain) (call : Call) (amount bond_from bond_to : ℕ)
      {r : Storage dec chain × List Msg}
      → execute_rebond dec chain s call amount bond_from bond_to ≡ ok r
      → (f : BondingInfo) × (t : BondingInfo) × (release_stake call.now amount
            (stake_or_default bond_from (s.stakes call.sender))
          ≡ ok f)
        × (add_rebonded call.now bond_from bond_to amount
              (stake_or_default bond_to (put_stake bond_from f (s.stakes call.sender)))
            ≡ ok t)
        × (r.0.stakes
            ≡ at_addr call.sender
                (put_stake bond_to t (put_stake bond_from f (s.stakes call.sender)))
                s.stakes)
        × (r.0.token_info ≡ s.token_info)
        × (r.0.claims ≡ s.claims)
        × (r.1 ≡ [])
  unfolding execute_rebond
  rebond_steps s call amount bond_from bond_to h = ground arith

  -- If a rebond goes through, with the sender's stakes in ascending order of the period, the sum of
  -- the sender's tokens over all periods stays, and so do both counters, the claims and the stakes
  -- of all other addresses; no message is sent, and the sender's stakes stay in order.
  pub execute_rebond_effect :
      (s : Storage dec chain) (call : Call) (amount bond_from bond_to : ℕ) (other : String)
      {r : Storage dec chain × List Msg}
      → Ascending (s.stakes call.sender)
      → execute_rebond dec chain s call amount bond_from bond_to ≡ ok r
      → (held_all (r.0.stakes call.sender) ≡ held_all (s.stakes call.sender))
        × Ascending (r.0.stakes call.sender)
        × (r.0.token_info ≡ s.token_info)
        × (r.0.claims ≡ s.claims)
        × (r.1 ≡ [])
        × (r.0.stakes other
            ≡ (if str_eq call.sender other then r.0.stakes call.sender else s.stakes other))
  execute_rebond_effect s call amount bond_from bond_to other {r} asc h =
      let (f, t, ef, et, stakes, info, claims, msgs) =
        rebond_steps s call amount bond_from bond_to h in
      let old = s.stakes call.sender in
      let mid = put_stake bond_from f old in
      let asc' = put_stake-Ascending bond_from f old asc in
      let to = stake_or_default bond_to mid in
      let here : r.0.stakes call.sender ≡ put_stake bond_to t mid =
        rw (stakes, str_eq_refl call.sender) in
      (
        rw here (
            omega (
              arith,
              held_all-put_stake bond_from f old asc,
              held_all-put_stake bond_to t mid asc',
              held-release_stake call.now amount (stake_or_default bond_from old) ef,
              held-add_rebonded call.now bond_from bond_to amount to et,
            )),
        rw here (put_stake-Ascending bond_to t mid asc'),
        info,
        claims,
        msgs,
        rw (stakes, str_eq_refl call.sender),
      )
