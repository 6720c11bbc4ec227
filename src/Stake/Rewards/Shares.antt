-- ===== src/Stake/Rewards/Shares.antt =====
-- What a distribution owes: it never promises more than it has taken in, whatever is distributed
-- and whatever stakes change.
use native.Mathlib.Nat.{mod-lt, mod-add-div', mul-le-mul_left}
use whelp_contracts.Prelude.{ℕ, ◌+◌, ◌*◌, ◌/◌, ◌%◌, ◌^◌, ◌≤◌, ◌<◌, ◌≡◌, List, [], ◌∷◌, ap, arith}
use whelp_contracts.Outcome.{ok}
use whelp_contracts.Int.{pos_part, neg_part}
use whelp_contracts.Stake.State.{Distribution, WithdrawAdjustment}
use whelp_contracts.Stake.Rewards.{shares_scale, add_shares}

-- The points that are divided.
abbrev points : Distribution → ℕ → ℕ
points d amount = amount * shares_scale % 2 ^ 128 + d.shares_leftover

add_shares_fields :
    (d : Distribution) (amount total : ℕ) {d' : Distribution}
    → add_shares d amount total ≡ ok d'
    → (0 < total)
      × (d'.shares_per_point ≡ d.shares_per_point + points d amount / total)
      × (d'.shares_leftover ≡ points d amount % total % 2 ^ 64)
      × (d'.distributed_total ≡ d.distributed_total + amount)
      × (d'.withdrawable_total ≡ d.withdrawable_total + amount)
unfolding add_shares
add_shares_fields d amount total h = ground arith

quotient : (n m : ℕ) → 0 < m → (n / m * m + n % m ≡ n) × (n % m < m)
quotient n m h = (omega (arith, mod-add-div' n m), mod-lt n h)

-- If `add_shares` goes through with an amount below 2 ^ 96 and a total power of at most 2 ^ 64, no
-- share is lost: the shares per point times the total power, plus the leftover, go up by exactly
-- the amount times 2 ^ 32; the leftover is below the total power, and the distributed and the
-- withdrawable totals go up by the amount.
pub add_shares_conserves :
    (d : Distribution) (amount total : ℕ) {d' : Distribution}
    → amount < 2 ^ 96
    → total ≤ 2 ^ 64
    → add_shares d amount total ≡ ok d'
    → (d'.shares_per_point * total + d'.shares_leftover
        ≡ d.shares_per_point * total + d.shares_leftover + amount * shares_scale)
      × (d'.shares_leftover < total)
      × (d'.distributed_total ≡ d.distributed_total + amount)
      × (d'.withdrawable_total ≡ d.withdrawable_total + amount)
unfolding add_shares
add_shares_conserves d amount total {d'} small bounded h =
    let (positive, e, l, dt, w) = add_shares_fields d amount total h in
    let (whole, below) = quotient (points d amount) total positive in
    (omega (arith, ap (λ (t : ℕ). t * total) e, l, whole, below), omega (arith, l, below), dt, w)

-- The holders of a distribution: their powers and adjustments.
abbrev pub Holders : Type 0
Holders = List (ℕ × WithdrawAdjustment)

abbrev pub powers : Holders → ℕ
powers [] = 0
powers ((p, a) ∷ hs) = p + powers hs

-- The points of all holders, in the two parts of their corrections.
abbrev pub credits : ℕ → Holders → ℕ
credits spp [] = 0
credits spp ((p, a) ∷ hs) = spp * p + pos_part a.shares_correction + credits spp hs

abbrev pub debits : Holders → ℕ
debits [] = 0
debits ((p, a) ∷ hs) = neg_part a.shares_correction + debits hs

abbrev pub NonNegative : ℕ → Holders → Type 0
NonNegative spp [] = Unit
NonNegative spp ((p, a) ∷ hs) =
    (neg_part a.shares_correction ≤ spp * p + pos_part a.shares_correction) × NonNegative spp hs

-- The points of all holders and the leftover are covered by what was ever distributed, and nobody
-- has fewer than zero points.
pub record IsSolvent (d : Distribution) (hs : Holders) : Type 0 where
  pub covered :
      credits d.shares_per_point hs + d.shares_leftover
      ≤ shares_scale * d.distributed_total + debits hs
  pub nonnegative : NonNegative d.shares_per_point hs

credits-add :
    (spp more : ℕ) (hs : Holders) → credits (spp + more) hs ≡ credits spp hs + more * powers hs
credits-add spp more [] = omega arith
credits-add spp more ((p, a) ∷ hs) = omega (arith, credits-add spp more hs)

NonNegative-add : (spp more : ℕ) (hs : Holders) → NonNegative spp hs → NonNegative (spp + more) hs
NonNegative-add spp more [] n = tt
NonNegative-add spp more ((p, a) ∷ hs) n = (omega (arith, n.0), NonNegative-add spp more hs n.1)

-- If `add_shares` goes through on a solvent distribution, and the powers of the holders add up to
-- at most the total power that the amount is divided by, the distribution is solvent after it.
pub add_shares-IsSolvent :
    (d : Distribution) (hs : Holders) (amount total : ℕ) {d' : Distribution}
    → IsSolvent d hs
    → powers hs ≤ total
    → add_shares d amount total ≡ ok d'
    → IsSolvent d' hs
add_shares-IsSolvent d hs amount total {d'} solvent fits h =
    let (positive, e, l, dt, w) = add_shares_fields d amount total h in
    let (whole, below) = quotient (points d amount) total positive in
    let share = points d amount / total in
    record {
      covered =
          rw (e, credits-add d.shares_per_point share hs)
            (omega (arith, solvent.covered, l, dt, whole, mul-le-mul_left share fits));
      nonnegative = rw e (NonNegative-add d.shares_per_point share hs solvent.nonnegative);
    }
