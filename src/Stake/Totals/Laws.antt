-- ===== src/Stake/Totals/Laws.antt =====
-- The totals of a period are sums over its stakers: what keeps them so, and what does not.
use whelp_contracts.Prelude.{
  ℕ, ◌+◌, ◌≤◌, ◌<◌, ◌≡◌, List, [], ◌∷◌, ◌++◌, leb, sum, if◌then◌else◌, arith,
}
use whelp_contracts.Outcome.{ok, panic}
use whelp_contracts.Num.{u128_max}
use whelp_contracts.Stake.State.{Config, TotalStake}
use whelp_contracts.Stake.Totals.{update_total}

-- The stake that counts for power.
abbrev pub powered : Config → ℕ → ℕ
powered cfg s = if leb cfg.min_bond s then s else 0

abbrev pub sum_powered : Config → List ℕ → ℕ
sum_powered cfg [] = 0
sum_powered cfg (s ∷ l) = powered cfg s + sum_powered cfg l

-- `t` has the totals of stakers with these stakes.
pub record Matches (cfg : Config) (l : List ℕ) (t : TotalStake) : Type 0 where
  pub staked : t.staked ≡ sum l
  pub powered_stake : t.powered_stake ≡ sum_powered cfg l

sum-insert : (xs ys : List ℕ) (s : ℕ) → sum (xs ++ s ∷ ys) ≡ sum (xs ++ ys) + s
sum-insert [] ys s = omega arith
sum-insert (x ∷ xs) ys s = omega (arith, sum-insert xs ys s)

sum_powered-insert :
    (cfg : Config) (xs ys : List ℕ) (s : ℕ)
    → sum_powered cfg (xs ++ s ∷ ys) ≡ sum_powered cfg (xs ++ ys) + powered cfg s
sum_powered-insert cfg [] ys s = omega arith
sum_powered-insert cfg (x ∷ xs) ys s = omega (arith, sum_powered-insert cfg xs ys s)

pub sum_powered-le-sum : (cfg : Config) (l : List ℕ) → sum_powered cfg l ≤ sum l
sum_powered-le-sum cfg [] = omega arith
sum_powered-le-sum cfg (s ∷ l) = ground (arith, sum_powered-le-sum cfg l)

update_total_lem :
    (cfg : Config) (old new a b : ℕ) (t : TotalStake)
    → t.staked ≡ a + old
    → t.powered_stake ≡ b + powered cfg old
    → a + new ≤ u128_max
    → b ≤ a
    → update_total cfg old new t
      ≡ ok (record { staked = a + new; powered_stake = b + powered cfg new })
unfolding update_total
update_total_lem cfg old new a b t hs hp fits le = ground arith

-- Let the totals of a period be the sums over the stakes of its stakers: of all stakes, and of
-- those of at least `min_bond`. If one staker's stake changes and the new stakes together fit a
-- `Uint128`, `update_total` gives a result, and its totals are the sums over the new stakes.
pub update_total-Matches :
    (cfg : Config) (xs ys : List ℕ) (old new : ℕ) (t : TotalStake)
    → Matches cfg (xs ++ old ∷ ys) t
    → sum (xs ++ new ∷ ys) ≤ u128_max
    → (t' : TotalStake) × (update_total cfg old new t ≡ ok t') × Matches cfg (xs ++ new ∷ ys) t'
update_total-Matches cfg xs ys old new t m fits = (
  record {
    staked = sum (xs ++ ys) + new;
    powered_stake = sum_powered cfg (xs ++ ys) + powered cfg new;
  },
  update_total_lem cfg old new (sum (xs ++ ys)) (sum_powered cfg (xs ++ ys)) t
      (omega (arith, sum-insert xs ys old)) (omega (arith, sum_powered-insert cfg xs ys old))
      (omega (arith, sum-insert xs ys new)) (sum_powered-le-sum cfg (xs ++ ys)),
  record {
    staked = omega (arith, sum-insert xs ys new);
    powered_stake = omega (arith, sum_powered-insert cfg xs ys new);
  },
)

-- Let the totals of a period be the sums over the stakes of its stakers, where at least one stake
-- above zero is below `min_bond`, which is above zero, and the sum of all is at least `min_bond`. A
-- call of `update_total` that takes the sum of all stakes to zero panics.
pub update_total_batch_panics :
    (cfg : Config) (l : List ℕ) (t : TotalStake)
    → Matches cfg l t
    → sum_powered cfg l < sum l
    → 0 < cfg.min_bond
    → cfg.min_bond ≤ sum l
    → update_total cfg (sum l) 0 t ≡ panic
unfolding update_total
update_total_batch_panics cfg l t m below pos enough = ground arith
