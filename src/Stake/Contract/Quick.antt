-- ===== src/Stake/Contract/Quick.antt =====
-- contracts/stake/src/contract.rs: the quick unbond keeps the frame and the order of the stakes.
use whelp_contracts.Prelude.{
  ℕ, ◌+◌, ◌≡◌, String, Bool, true, false, List, [], ◌∷◌, arith, ◌∙◌, ap, subst, if◌then◌else◌,
  str_eq,
}
use whelp_contracts.Outcome.{ok, >>=-eq-ok}
use whelp_contracts.Num.{Decimals}
use whelp_contracts.Dex.Asset.{Msg}
use whelp_contracts.Stake.State.{Config, Stakes, Totals, at_addr}
use whelp_contracts.Stake.State.Map.{Ascending, Above}
use whelp_contracts.Stake.Totals.{update_total_stake}
use whelp_contracts.Stake.Chain.{Chain, Call}
use whelp_contracts.Stake.Bond.{Storage}
use whelp_contracts.Stake.Contract.{
  Unbonded, no_unbonded, unbond_stakes, lower_totals, unbond_staker, unbond_stakers,
  execute_quick_unbond,
}
use whelp_contracts.Stake.Contract.Unbond.{
  Loop, stake_steps, loop_steps, address_steps, quick_steps,
}
use whelp_contracts.Stake.Contract.Frame.{Keeps, shape, periods_of, periods-update_total_stake}

-- The periods of the stakes stay, and with them their order.
unbond_stakes-Above :
    (now lo : ℕ) (l : Stakes) (u : Unbonded) (n : ℕ) {r : Stakes × Unbonded × ℕ}
    → Above lo l
    → unbond_stakes now l u n ≡ ok r
    → Above lo (r.0)
unfolding unbond_stakes
unbond_stakes-Above now lo [] u n a h = ground arith
unbond_stakes-Above now lo ((p, b) ∷ l) u n a h =
    let (old, u', free, e, rest, eo, eu, ef, ee, er, same) = stake_steps now p b l u n h in
    rw same (a.0, unbond_stakes-Above now lo l u' (n + old) a.1 er)

unbond_stakes-Ascending :
    (now : ℕ) (l : Stakes) (u : Unbonded) (n : ℕ) {r : Stakes × Unbonded × ℕ}
    → Ascending l
    → unbond_stakes now l u n ≡ ok r
    → Ascending (r.0)
unfolding unbond_stakes
unbond_stakes-Ascending now [] u n a h = ground arith
unbond_stakes-Ascending now ((p, b) ∷ l) u n a h =
    let (old, u', free, e, rest, eo, eu, ef, ee, er, same) = stake_steps now p b l u n h in
    rw same (
      unbond_stakes-Above now p l u' (n + old) a.0 er,
      unbond_stakes-Ascending now l u' (n + old) a.1 er,
    )

periods-lower_totals :
    (cfg : Config) (u : Unbonded) (ts : Totals) {ts' : Totals}
    → lower_totals cfg u ts ≡ ok ts'
    → periods_of ts' ≡ periods_of ts
unfolding lower_totals
periods-lower_totals cfg [] ts h = ground arith
periods-lower_totals cfg ((p, n) ∷ u) ts h =
    let (mid, e, h') = >>=-eq-ok (update_total_stake cfg p n 0 ts) _ h in
    periods-lower_totals cfg u mid h' ∙ periods-update_total_stake cfg p n 0 ts e

module _ (dec : Decimals) (chain : Chain) where
  pub staker_frame :
      (now : ℕ) (s : Storage dec chain) (u : Unbonded) (claimed : ℕ) (staker : String)
      {r : Loop dec chain}
      → unbond_staker dec chain now s u claimed staker ≡ ok r
      → (rest : Stakes × Unbonded × ℕ) × (unbond_stakes now (s.stakes staker) u 0 ≡ ok rest)
        × (r.0.stakes ≡ at_addr staker (rest.0) s.stakes)
        × (r.0.config ≡ s.config)
        × (r.0.distributions ≡ s.distributions)
        × (r.0.totals ≡ s.totals)
  unfolding unbond_staker
  staker_frame now s u claimed staker h = ground arith

  -- All stakes of the storage are in order.
  abbrev Ordered : Storage dec chain → Type 0
  Ordered s = (a : String) → Ascending (s.stakes a)

  branches :
      (b : Bool) (l l' : Stakes) → Ascending l → Ascending l' → Ascending (if b then l else l')
  branches true l l' h k = h
  branches false l l' h k = k

  staker-Ordered :
      (now : ℕ) (s : Storage dec chain) (u : Unbonded) (claimed : ℕ) (staker : String)
      {r : Loop dec chain}
      → Ordered s
      → unbond_staker dec chain now s u claimed staker ≡ ok r
      → Ordered (r.0)
  staker-Ordered now s u claimed staker o h a =
      let (rest, er, stakes, config, distributions, totals) =
        staker_frame now s u claimed staker h in
      rw stakes (
        branches (str_eq staker a) (rest.0) (s.stakes a)
          (unbond_stakes-Ascending now (s.stakes staker) u 0 (o staker) er) (o a))

  stakers-Ordered :
      (now : ℕ) (s : Storage dec chain) (u : Unbonded) (claimed : ℕ) (l : List String)
      {r : Loop dec chain}
      → Ordered s
      → unbond_stakers dec chain now s u claimed l ≡ ok r
      → Ordered (r.0)
        × (r.0.config ≡ s.config)
        × (r.0.distributions ≡ s.distributions)
        × (r.0.totals ≡ s.totals)
  unfolding unbond_stakers
  stakers-Ordered now s u claimed [] {r} o h =
      let same : s ≡ r.0 = ground (arith, h) in
      (
        λ a. subst (λ (t : Storage dec chain). Ascending (t.stakes a)) same (o a),
        ground arith,
        ground arith,
        ground arith,
      )
  stakers-Ordered now s u claimed (a ∷ l) o h =
      let (one, rest, eo, er, same) = loop_steps dec chain now s u claimed a l h in
      let (stakes, eu, written, config, distributions, totals) =
        staker_frame now s u claimed a eo in
      let (ordered, config', distributions', totals') =
        stakers-Ordered now (one.0) (one.1) (one.2) l (staker-Ordered now s u claimed a o eo) er in
      rw same (ordered, config' ∙ config, distributions' ∙ distributions, totals' ∙ totals)

  pub execute_quick_unbond-Keeps :
      (s : Storage dec chain) (call : Call) (stakers : List String)
      {r : Storage dec chain × List Msg}
      → Ordered s
      → execute_quick_unbond dec chain s call stakers ≡ ok r
      → Keeps dec chain s (r.0) × Ordered (r.0)
  execute_quick_unbond-Keeps s call stakers {r} o h =
      let (l, done, allowed) = quick_steps dec chain s call stakers h in
      let (loop, el, staked, unbonding, msgs, lowered, config, distributions, stakes) =
        address_steps dec chain s call.now l done in
      let (ordered, config', distributions', totals') =
        stakers-Ordered call.now s (no_unbonded s.config.unbonding_periods) 0 l o el in
      (
        (
          config ∙ config',
          ap shape (distributions ∙ distributions'),
          periods-lower_totals s.config loop.1 loop.0.totals lowered ∙ ap periods_of totals',
        ),
        λ a. rw stakes (ordered a),
      )
