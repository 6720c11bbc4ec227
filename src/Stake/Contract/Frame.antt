-- ===== src/Stake/Contract/Frame.antt =====
-- contracts/stake/src/contract.rs: what the bonding handlers leave as it was, and what they keep in
-- order.
use whelp_contracts.Prelude.{ℕ, ◌≡◌, String, List, [], ◌∷◌, arith, ◌∙◌, ap}
use whelp_contracts.Outcome.{ok, Post, Post-ok, >>=-eq-ok}
use whelp_contracts.Num.{Decimals}
use whelp_contracts.Dex.Asset.{AssetInfoValidated, Coin, Msg}
use whelp_contracts.Stake.Bonding.{BondingInfo, total_stake, release_stake}
use whelp_contracts.Stake.State.{Config, Totals, Distributions, put_stake, stake_or_default}
use whelp_contracts.Stake.Totals.{update_total_stake}
use whelp_contracts.Stake.Chain.{Chain, Call}
use whelp_contracts.Stake.Bond.{
  Storage, execute_mass_bond, execute_rebond, remove_stake_without_total, execute_unbond,
  execute_claim, move_totals, add_rebonded,
}

-- The periods of the totals.
abbrev pub periods_of : Totals → List ℕ
periods_of [] = []
periods_of ((p, t) ∷ ts) = p ∷ periods_of ts

-- The part of the distributions that never changes: the assets and the multipliers.
abbrev pub Shape : Type 0
Shape = List (AssetInfoValidated × List (ℕ × ℕ))

abbrev pub shape : Distributions → Shape
shape [] = []
shape ((a, d) ∷ ds) = (a, d.reward_multipliers) ∷ shape ds

update_total_stake-Post :
    (cfg : Config) (p old new : ℕ) (ts : Totals)
    → Post (λ ts'. periods_of ts' ≡ periods_of ts) (update_total_stake cfg p old new ts)
unfolding update_total_stake
update_total_stake-Post cfg p old new [] = tt
update_total_stake-Post cfg p old new ((q, t) ∷ ts) =
    ground (arith, update_total_stake-Post cfg p old new ts)

pub periods-update_total_stake :
    (cfg : Config) (p old new : ℕ) (ts : Totals) {ts' : Totals}
    → update_total_stake cfg p old new ts ≡ ok ts'
    → periods_of ts' ≡ periods_of ts
periods-update_total_stake cfg p old new ts h =
    Post-ok (λ ts'. periods_of ts' ≡ periods_of ts) _ (update_total_stake-Post cfg p old new ts) h

periods-move_totals :
    (cfg : Config) (p q : ℕ) (ts : Totals) (old new old' new' : ℕ) {ts' : Totals}
    → move_totals cfg p old new q old' new' ts ≡ ok ts'
    → periods_of ts' ≡ periods_of ts
unfolding move_totals
periods-move_totals cfg p q ts old new old' new' h =
    let (mid, e, e') = >>=-eq-ok (update_total_stake cfg p old new ts) _ h in
    periods-update_total_stake cfg q old' new' mid e'
    ∙ periods-update_total_stake cfg p old new ts e

module _ (dec : Decimals) (chain : Chain) where
  -- The configuration, the shape of the distributions and the periods of the totals stay.
  abbrev pub Keeps : Storage dec chain → Storage dec chain → Type 0
  Keeps s s' =
      (s'.config ≡ s.config)
      × (shape s'.distributions ≡ shape s.distributions)
      × (periods_of s'.totals ≡ periods_of s.totals)

  pub execute_mass_bond-Keeps :
      (s : Storage dec chain) (sender : String) (c : Coin) (period : ℕ)
      {r : Storage dec chain × List Msg}
      → execute_mass_bond dec chain s sender c period ≡ ok r
      → Keeps s (r.0)
  unfolding execute_mass_bond
  execute_mass_bond-Keeps s sender c period h =
      grind (arith, periods-update_total_stake s.config period)

  -- The totals after a rebond, with the stakes before and after.
  rebond_totals :
      (s : Storage dec chain) (call : Call) (amount p q : ℕ) {r : Storage dec chain × List Msg}
      → execute_rebond dec chain s call amount p q ≡ ok r
      → (old : ℕ) × (f : BondingInfo) × (new : ℕ) × (old' : ℕ) × (t : BondingInfo) × (new' : ℕ)
        × (total_stake (stake_or_default p (s.stakes call.sender)) ≡ ok old)
        × (release_stake call.now amount (stake_or_default p (s.stakes call.sender)) ≡ ok f)
        × (total_stake f ≡ ok new)
        × (total_stake (stake_or_default q (put_stake p f (s.stakes call.sender))) ≡ ok old')
        × (add_rebonded call.now p q amount
              (stake_or_default q (put_stake p f (s.stakes call.sender)))
            ≡ ok t)
        × (total_stake t ≡ ok new')
        × (move_totals s.config p old new q old' new' s.totals ≡ ok r.0.totals)
        × (r.0.config ≡ s.config)
        × (r.0.distributions ≡ s.distributions)
  unfolding execute_rebond
  rebond_totals s call amount p q h = ground arith

  pub execute_rebond-Keeps :
      (s : Storage dec chain) (call : Call) (amount bond_from bond_to : ℕ)
      {r : Storage dec chain × List Msg}
      → execute_rebond dec chain s call amount bond_from bond_to ≡ ok r
      → Keeps s (r.0)
  execute_rebond-Keeps s call amount p q h =
      let (old, f, new, old', t, new', eo, ef, en, eo', et, en', moved, config, distributions) =
        rebond_totals s call amount p q h in
      (
        config,
        ap shape distributions,
        periods-move_totals s.config p q s.totals old new old' new' moved,
      )

  remove_stake-Keeps :
      (s : Storage dec chain) (now : ℕ) (staker : String) (period amount : ℕ)
      {r : Storage dec chain}
      → remove_stake_without_total dec chain s now staker period amount ≡ ok r
      → Keeps s r
  unfolding remove_stake_without_total
  remove_stake-Keeps s now staker period amount h =
      grind (arith, periods-update_total_stake s.config period)

  pub execute_unbond-Keeps :
      (s : Storage dec chain) (call : Call) (amount period : ℕ) {r : Storage dec chain × List Msg}
      → execute_unbond dec chain s call amount period ≡ ok r
      → Keeps s (r.0)
  unfolding execute_unbond
  execute_unbond-Keeps s call amount period h =
      let (s', e, h') =
        >>=-eq-ok (remove_stake_without_total dec chain s call.now call.sender period amount) _ h in
      let (config, distributions, totals) =
        remove_stake-Keeps s call.now call.sender period amount e in
      ground (arith, h', config, distributions, totals)

  pub execute_claim-Keeps :
      (s : Storage dec chain) (call : Call) {r : Storage dec chain × List Msg}
      → execute_claim dec chain s call ≡ ok r
      → Keeps s (r.0) × (r.0.stakes ≡ s.stakes)
  unfolding execute_claim
  execute_claim-Keeps s call h = ground arith
