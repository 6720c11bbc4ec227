-- ===== src/Stake/Rewards/Solvency.antt =====
-- A solvent distribution can pay all its holders, and stays solvent when a stake changes.
use whelp_contracts.Prelude.{ℕ, ◌+◌, ◌*◌, ◌^◌, ◌≤◌, ◌<◌, ◌≡◌, List, [], ◌∷◌, ◌++◌, ◌∙◌, sym, arith}
use whelp_contracts.Outcome.{ok}
use whelp_contracts.Int.{ℤ, pos, negsuc, pos_part, neg_part, ◌+ℤ◌, +ℤ_parts, as_u128, fit_i128}
use whelp_contracts.Stake.State.{Distribution, WithdrawAdjustment}
use whelp_contracts.Stake.Rewards.{shares_scale, update_rewards, rewards_of_power}
use whelp_contracts.Stake.Rewards.Laws.{
  rewards_of_power-eq-paid_out, paid_out, update_rewards_parts,
}
use whelp_contracts.Stake.Rewards.Shares.{Holders, IsSolvent, NonNegative, credits, debits}

paid_out-le :
    (z : ℤ) (withdrawn : ℕ) {r : ℕ}
    → neg_part z ≡ 0
    → paid_out z withdrawn ≡ ok r
    → (withdrawn + r) * shares_scale ≤ pos_part z
unfolding fit_i128 as_u128
paid_out-le (pos n) withdrawn e h = ground arith
paid_out-le (negsuc n) withdrawn e h = absurd (omega arith)

sum-nonnegative : (n : ℕ) (c : ℤ) → neg_part c ≤ n + pos_part c → neg_part (pos n +ℤ c) ≡ 0
unfolding ◌+ℤ◌
sum-nonnegative n c h = ground arith

-- What one holder has taken and can take is covered by the holder's points.
reward-le-points :
    (d : Distribution) (a : WithdrawAdjustment) (p : ℕ) {r : ℕ}
    → d.shares_per_point * p < 2 ^ 127
    → neg_part a.shares_correction ≤ d.shares_per_point * p + pos_part a.shares_correction
    → rewards_of_power d a p ≡ ok r
    → (a.withdrawn_rewards + r) * shares_scale + neg_part a.shares_correction
      ≤ d.shares_per_point * p + pos_part a.shares_correction
reward-le-points d a p {r} small nonneg h =
    let z = pos (d.shares_per_point * p) +ℤ a.shares_correction in
    let paid : paid_out z a.withdrawn_rewards ≡ ok r =
      sym (rewards_of_power-eq-paid_out d a p small) ∙ h in
    let e : neg_part z ≡ 0 = sum-nonnegative (d.shares_per_point * p) a.shares_correction nonneg in
    omega (
      arith,
      paid_out-le z a.withdrawn_rewards e paid,
      e,
      +ℤ_parts (pos (d.shares_per_point * p)) a.shares_correction,
    )

-- The holders with what they could withdraw now: for each the power, the adjustment and the reward.
abbrev pub Claims : Type 0
Claims = List (ℕ × WithdrawAdjustment × ℕ)

abbrev pub holders : Claims → Holders
holders [] = []
holders ((p, a, r) ∷ cs) = (p, a) ∷ holders cs

-- Each reward is what the contract computes.
abbrev pub Due : Distribution → Claims → Type 0
Due d [] = Unit
Due d ((p, a, r) ∷ cs) =
    (rewards_of_power d a p ≡ ok r) × (d.shares_per_point * p < 2 ^ 127) × Due d cs

-- What the holders have withdrawn and can withdraw.
abbrev pub entitled : Claims → ℕ
entitled [] = 0
entitled ((p, a, r) ∷ cs) = a.withdrawn_rewards + r + entitled cs

entitled-le-credits :
    (d : Distribution) (cs : Claims)
    → NonNegative d.shares_per_point (holders cs)
    → Due d cs
    → entitled cs * shares_scale + debits (holders cs) ≤ credits d.shares_per_point (holders cs)
entitled-le-credits d [] n due = omega arith
entitled-le-credits d ((p, a, r) ∷ cs) n (e, small, due) =
    omega (arith, reward-le-points d a p small n.0 e, entitled-le-credits d cs n.1 due)

-- In a solvent distribution, let each holder's reward be what `rewards_of_power` computes, with a
-- product of shares and power below 2 ^ 127. Then what all holders have withdrawn and can withdraw
-- together is at most the total that was distributed.
pub entitled-le-distributed :
    (d : Distribution) (cs : Claims)
    → IsSolvent d (holders cs)
    → Due d cs
    → entitled cs ≤ d.distributed_total
entitled-le-distributed d cs s due =
    omega (arith, s.covered, entitled-le-credits d cs s.nonnegative due)

credits-insert :
    (spp p : ℕ) (a : WithdrawAdjustment) (xs ys : Holders)
    → credits spp (xs ++ (p, a) ∷ ys)
      ≡ credits spp (xs ++ ys) + spp * p + pos_part a.shares_correction
credits-insert spp p a [] ys = omega arith
credits-insert spp p a (x ∷ xs) ys = omega (arith, credits-insert spp p a xs ys)

debits-insert :
    (p : ℕ) (a : WithdrawAdjustment) (xs ys : Holders)
    → debits (xs ++ (p, a) ∷ ys) ≡ debits (xs ++ ys) + neg_part a.shares_correction
debits-insert p a [] ys = omega arith
debits-insert p a (x ∷ xs) ys = omega (arith, debits-insert p a xs ys)

NonNegative-at :
    (spp p : ℕ) (a : WithdrawAdjustment) (xs ys : Holders)
    → NonNegative spp (xs ++ (p, a) ∷ ys)
    → neg_part a.shares_correction ≤ spp * p + pos_part a.shares_correction
NonNegative-at spp p a [] ys n = n.0
NonNegative-at spp p a (x ∷ xs) ys n = NonNegative-at spp p a xs ys n.1

NonNegative-replace :
    (spp p q : ℕ) (a b : WithdrawAdjustment) (xs ys : Holders)
    → neg_part b.shares_correction ≤ spp * q + pos_part b.shares_correction
    → NonNegative spp (xs ++ (p, a) ∷ ys)
    → NonNegative spp (xs ++ (q, b) ∷ ys)
NonNegative-replace spp p q a b [] ys h n = (h, n.1)
NonNegative-replace spp p q a b (x ∷ xs) ys h n = (n.0, NonNegative-replace spp p q a b xs ys h n.1)

-- If `update_rewards` goes through for one holder of a solvent distribution, with the shares per
-- point and both powers below 2 ^ 127, the distribution is solvent with the holder's new power and
-- new adjustment.
pub update_rewards-IsSolvent :
    (d : Distribution) (xs ys : Holders) (a : WithdrawAdjustment) (old new : ℕ)
    {a' : WithdrawAdjustment}
    → d.shares_per_point < 2 ^ 127
    → old < 2 ^ 127
    → new < 2 ^ 127
    → update_rewards a d old new ≡ ok a'
    → IsSolvent d (xs ++ (old, a) ∷ ys)
    → IsSolvent d (xs ++ (new, a') ∷ ys)
update_rewards-IsSolvent d xs ys a old new {a'} hs ho hn h s =
    let spp = d.shares_per_point in
    let same = update_rewards_parts a d old new hs ho hn h in
    record {
      covered = omega (
        arith,
        same,
        s.covered,
        credits-insert spp old a xs ys,
        credits-insert spp new a' xs ys,
        debits-insert old a xs ys,
        debits-insert new a' xs ys,
      );
      nonnegative =
          NonNegative-replace spp old new a a' xs ys
            (omega (arith, same, NonNegative-at spp old a xs ys s.nonnegative)) s.nonnegative;
    }
