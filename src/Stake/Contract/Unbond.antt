-- ===== src/Stake/Contract/Unbond.antt =====
-- contracts/stake/src/contract.rs: the quick unbond, where a trusted address empties the stakes of
-- others.
use whelp_contracts.Prelude.{ℕ, ◌+◌, ◌≡◌, String, true, List, [], ◌∷◌, ◌++◌, sum, arith, ◌∙◌, refl}
use whelp_contracts.Outcome.{ok, Post, Post-ok, >>=-eq-ok, ◌>>=◌, ensure, map_err, traverse}
use whelp_contracts.Num.{Decimals, fit, sub, u128_max}
use whelp_contracts.Dex.Asset.{Msg, validate_address}
use whelp_contracts.Stake.Error.{ContractError}
use whelp_contracts.Stake.Bonding.{BondingInfo, total_stake, release_stake, force_unlock_all}
use whelp_contracts.Stake.Bonding.Laws.{
  total_stake-eq-held, held-release_stake, held-force_unlock_all,
}
use whelp_contracts.Stake.State.{Stakes}
use whelp_contracts.Stake.State.Map.{held_all}
use whelp_contracts.Stake.Chain.{Chain, Call}
use whelp_contracts.Stake.Bond.{Storage}
use whelp_contracts.Stake.Contract.{
  Unbonded, no_unbonded, add_unbonded, unbond_stakes, unbonded_amounts, unbond_staker,
  unbond_stakers, execute_quick_unbond, is_unbonder, lower_totals, unbond_addresses,
}

sum-add_unbonded :
    (p amount : ℕ) (u : Unbonded)
    → Post
        (λ u'. sum (unbonded_amounts u') ≡ sum (unbonded_amounts u) + amount)
        (add_unbonded p amount u)
unfolding add_unbonded
sum-add_unbonded p amount [] = tt
sum-add_unbonded p amount ((q, n) ∷ u) = ground (arith, sum-add_unbonded p amount u)

-- The emptied stakes of one address, with the amounts taken.
abbrev pub Emptied : Stakes → Unbonded → ℕ → Stakes × Unbonded × ℕ → Type 0
Emptied l u n r =
    (held_all (r.0) ≡ 0)
    × (r.2 ≡ n + held_all l)
    × (sum (unbonded_amounts r.1) ≡ sum (unbonded_amounts u) + held_all l)

-- The steps of the loop body for one stake.
pub stake_steps :
    (now p : ℕ) (b : BondingInfo) (l : Stakes) (u : Unbonded) (n : ℕ) {r : Stakes × Unbonded × ℕ}
    → unbond_stakes now ((p, b) ∷ l) u n ≡ ok r
    → (old : ℕ) × (u' : Unbonded) × (free : BondingInfo) × (e : BondingInfo) × (rest : Stakes
        × Unbonded × ℕ)
      × (total_stake b ≡ ok old)
      × (add_unbonded p old u ≡ ok u')
      × (force_unlock_all b ≡ ok free)
      × (release_stake now old free ≡ ok e)
      × (unbond_stakes now l u' (n + old) ≡ ok rest)
      × (r ≡ ((p, e) ∷ rest.0, rest.1, rest.2))
unfolding unbond_stakes
stake_steps now p b l u n h = ground arith

pub unbond_stakes-Emptied :
    (now : ℕ) (l : Stakes) (u : Unbonded) (n : ℕ) {r : Stakes × Unbonded × ℕ}
    → unbond_stakes now l u n ≡ ok r
    → Emptied l u n r
unfolding unbond_stakes
unbond_stakes-Emptied now [] u n h = ground arith
unbond_stakes-Emptied now ((p, b) ∷ l) u n h =
    let (old, u', free, e, rest, eo, eu, ef, ee, er, same) = stake_steps now p b l u n h in
    ground (
      arith,
      Post-ok _ _ (sum-add_unbonded p old u) eu,
      unbond_stakes-Emptied now l u' (n + old) er,
      total_stake-eq-held b eo,
      held-force_unlock_all b ef,
      held-release_stake now old free ee,
      same,
    )

-- The tokens that the cw20 transfers of a list of messages pay out.
abbrev pub paid : List Msg → ℕ
paid [] = 0
paid (Msg.cw20_transfer token to n ∷ ms) = n + paid ms
paid (_ ∷ ms) = paid ms

paid-++ : (ms ns : List Msg) → paid (ms ++ ns) ≡ paid ms + paid ns
paid-++ [] ns = omega arith
paid-++ (m ∷ ms) ns = ground (arith, paid-++ ms ns)

module _ (dec : Decimals) (chain : Chain) where
  -- What the loop over the addresses has so far: the storage, the amounts by period, the claims.
  abbrev pub Loop : Type 0
  Loop = Storage dec chain × Unbonded × ℕ × List Msg

  -- What was unbonded and claimed since `u` and `claimed` is what the messages pay.
  abbrev Balanced : Storage dec chain → Unbonded → ℕ → Loop → Type 0
  Balanced s u claimed r =
      (sum (unbonded_amounts r.1) + r.2 ≡ sum (unbonded_amounts u) + claimed + paid r.3)
      × (r.0.token_info ≡ s.token_info)

  staker_steps :
      (now : ℕ) (s : Storage dec chain) (u : Unbonded) (claimed : ℕ) (staker : String) {r : Loop}
      → unbond_staker dec chain now s u claimed staker ≡ ok r
      → (rest : Stakes × Unbonded × ℕ) × (unbond_stakes now (s.stakes staker) u 0 ≡ ok rest)
        × (r.1 ≡ rest.1)
        × (r.2 + rest.2 ≡ claimed + paid r.3)
        × (r.0.token_info ≡ s.token_info)
  unfolding unbond_staker
  staker_steps now s u claimed staker h = ground arith

  staker-Balanced :
      (now : ℕ) (s : Storage dec chain) (u : Unbonded) (claimed : ℕ) (staker : String) {r : Loop}
      → unbond_staker dec chain now s u claimed staker ≡ ok r
      → Balanced s u claimed r
  staker-Balanced now s u claimed staker {r} h =
      let (rest, er, unbonded, sums, info) = staker_steps now s u claimed staker h in
      let (zero, all, taken) = unbond_stakes-Emptied now (s.stakes staker) u 0 er in
      (rw unbonded (omega (arith, sums, all, taken)), info)

  pub loop_steps :
      (now : ℕ) (s : Storage dec chain) (u : Unbonded) (claimed : ℕ) (a : String) (l : List String)
      {r : Loop}
      → unbond_stakers dec chain now s u claimed (a ∷ l) ≡ ok r
      → (one : Loop) × (rest : Loop) × (unbond_staker dec chain now s u claimed a ≡ ok one)
        × (unbond_stakers dec chain now one.0 one.1 one.2 l ≡ ok rest)
        × (r ≡ (rest.0, rest.1, rest.2, one.3 ++ rest.3))
  unfolding unbond_stakers
  loop_steps now s u claimed a l h =
      let (one, eo, h') = >>=-eq-ok (unbond_staker dec chain now s u claimed a) _ h in
      let (rest, er, h'') =
        >>=-eq-ok (unbond_stakers dec chain now (one.0) (one.1) (one.2) l) _ h' in
      (one, rest, eo, er, ground (arith, h''))

  stakers-Balanced :
      (now : ℕ) (s : Storage dec chain) (u : Unbonded) (claimed : ℕ) (l : List String) {r : Loop}
      → unbond_stakers dec chain now s u claimed l ≡ ok r
      → Balanced s u claimed r
  unfolding unbond_stakers
  stakers-Balanced now s u claimed [] h = ground arith
  stakers-Balanced now s u claimed (a ∷ l) h =
      let (one, rest, eo, er, same) = loop_steps now s u claimed a l h in
      let first = staker-Balanced now s u claimed a eo in
      let after = stakers-Balanced now (one.0) (one.1) (one.2) l er in
      rw same (omega (arith, first.0, after.0, paid-++ (one.3) (rest.3)), after.1 ∙ first.1)

  pub quick_steps :
      (s : Storage dec chain) (call : Call) (stakers : List String)
      {r : Storage dec chain × List Msg}
      → execute_quick_unbond dec chain s call stakers ≡ ok r
      → (l : List String) × (unbond_addresses dec chain s call.now l ≡ ok r)
        × (is_unbonder dec chain s call.sender ≡ true)
  unfolding execute_quick_unbond
  quick_steps s call stakers h =
      let (u, e, h') =
        >>=-eq-ok (ensure (is_unbonder dec chain s call.sender) ContractError.unauthorized) _ h in
      let (l, el, h'') =
        >>=-eq-ok (map_err ContractError.std (traverse (validate_address chain.api) stakers)) _
          h' in
      (l, h'', ground (arith, e))

  -- The handler after the loop.
  counters :
      (s : Storage dec chain) (loop : Loop) {r : Storage dec chain × List Msg}
      → (do
        unbonded_total ← fit u128_max (sum (unbonded_amounts loop.1))
        totals ← lower_totals s.config loop.1 loop.0.totals
        staked ← sub loop.0.token_info.staked unbonded_total
        unbonding ← sub loop.0.token_info.unbonding loop.2
        ok (
          record (loop.0) {
            totals = totals;
            token_info = record { staked = staked; unbonding = unbonding };
          },
          loop.3,
        ))
        ≡ ok r
      → (r.0.token_info.staked + sum (unbonded_amounts loop.1) ≡ loop.0.token_info.staked)
        × (r.0.token_info.unbonding + loop.2 ≡ loop.0.token_info.unbonding)
        × (r.1 ≡ loop.3)
        × (lower_totals s.config loop.1 loop.0.totals ≡ ok r.0.totals)
        × (r.0.config ≡ loop.0.config)
        × (r.0.distributions ≡ loop.0.distributions)
        × (r.0.stakes ≡ loop.0.stakes)
  counters s loop h = ground arith

  pub address_steps :
      (s : Storage dec chain) (now : ℕ) (l : List String) {r : Storage dec chain × List Msg}
      → unbond_addresses dec chain s now l ≡ ok r
      → (loop : Loop) × (unbond_stakers dec chain now s (no_unbonded s.config.unbonding_periods) 0 l
          ≡ ok loop)
        × (r.0.token_info.staked + sum (unbonded_amounts loop.1) ≡ loop.0.token_info.staked)
        × (r.0.token_info.unbonding + loop.2 ≡ loop.0.token_info.unbonding)
        × (r.1 ≡ loop.3)
        × (lower_totals s.config loop.1 loop.0.totals ≡ ok r.0.totals)
        × (r.0.config ≡ loop.0.config)
        × (r.0.distributions ≡ loop.0.distributions)
        × (r.0.stakes ≡ loop.0.stakes)
  unfolding unbond_addresses
  address_steps s now l h =
      let (loop, el, h') =
        >>=-eq-ok (unbond_stakers dec chain now s (no_unbonded s.config.unbonding_periods) 0 l) _
          h in
      let (staked, unbonding, msgs, totals, config, distributions, stakes) = counters s loop h' in
      (loop, el, staked, unbonding, msgs, totals, config, distributions, stakes)

  unbonded-zero : (l : List ℕ) → sum (unbonded_amounts (no_unbonded l)) ≡ 0
  unfolding no_unbonded
  unbonded-zero [] = refl
  unbonded-zero (p ∷ l) = ground (arith, unbonded-zero l)

  -- If a quick unbond goes through, the sender is the unbonder, and the tokens of the cw20
  -- transfers it emits are exactly the amount by which the staked and the unbonding counters
  -- together go down.
  pub execute_quick_unbond_pays :
      (s : Storage dec chain) (call : Call) (stakers : List String)
      {r : Storage dec chain × List Msg}
      → execute_quick_unbond dec chain s call stakers ≡ ok r
      → (r.0.token_info.staked + r.0.token_info.unbonding + paid r.1
          ≡ s.token_info.staked + s.token_info.unbonding)
        × (is_unbonder dec chain s call.sender ≡ true)
  execute_quick_unbond_pays s call stakers {r} h =
      let (l, done, allowed) = quick_steps s call stakers h in
      let (loop, el, staked, unbonding, msgs, totals, config, distributions, stakes) =
        address_steps s call.now l done in
      let periods = s.config.unbonding_periods in
      let (sums, info) = stakers-Balanced call.now s (no_unbonded periods) 0 l el in
      let staked' = rw info at staked in
      let unbonding' = rw info at unbonding in
      (rw msgs (omega (arith, staked', unbonding', sums, unbonded-zero periods)), allowed)
