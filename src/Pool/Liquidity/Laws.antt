-- ===== src/Pool/Liquidity/Laws.antt =====
-- contracts/pool/src/contract.rs: how many shares a deposit gets, and an integer square root that
-- meets the laws of `Roots`.
use native.Mathlib.Nat.{div-mul-le_self, mul-le-mul_right, lt-div-mul-add}
use whelp_contracts.Prelude.{
  ℕ, zero, suc, ◌+◌, ◌*◌, ◌/◌, ◌^◌, ◌≤◌, ◌<◌, ◌≡◌, Option, arith, if◌then◌else◌, leb, le→leb, false,
  ◌⊎◌, inl, inr,
}
use whelp_contracts.Outcome.{ok}
use whelp_contracts.Num.{Decimals, u256_max}
use whelp_contracts.Pool.Liquidity.{Roots, share_of_deposit, minimum_liquidity_amount}

part_below : (n d k : ℕ) → k ≤ n / d → k * d ≤ n
part_below n d k h = omega (arith, div-mul-le_self n d, mul-le-mul_right d h)

part_above : (n d k : ℕ) → 0 < d → k ≡ n / d → n < (k + 1) * d
part_above n d k pos e = rw e (omega (arith, lt-div-mul-add {a = n} {b = d} pos))

le-cases : (a b : ℕ) → (a ≤ b) ⊎ (b < a)
le-cases a b = ground arith

lt→leb : (a b : ℕ) → b < a → leb a b ≡ false
lt→leb a b h = ground arith

module _ (dec : Decimals) (roots : Roots) where
  pub share_of_deposit_first :
      (tolerance : Option ℕ) (d0 d1 p0 p1 : ℕ) {r : ℕ × ℕ}
      → share_of_deposit dec roots 0 tolerance d0 d1 p0 p1 ≡ ok r
      → (0 < r.0)
        × (r.1 ≡ minimum_liquidity_amount)
        × ((r.0 + r.1) * (r.0 + r.1) ≤ d0 * d1)
        × (d0 * d1 < (r.0 + r.1 + 1) * (r.0 + r.1 + 1))
  unfolding share_of_deposit
  share_of_deposit_first tolerance d0 d1 p0 p1 {r} h =
      let root = roots.isqrt (d0 * d1) in
      let steps : (0 < r.0) × (r.1 ≡ 1000) × (r.0 + r.1 ≡ root) × (d0 * d1 ≤ u256_max) =
        ground arith in
      let (pos, m, e, fits) = steps in
      (
        pos,
        m,
        rw e (roots.isqrt_le (d0 * d1) fits),
        rw e (omega (arith, roots.isqrt_gt (d0 * d1) fits)),
      )

  pub share_of_deposit_next :
      (total : ℕ) (tolerance : Option ℕ) (d0 d1 p0 p1 : ℕ) {r : ℕ × ℕ}
      → 0 < total
      → share_of_deposit dec roots total tolerance d0 d1 p0 p1 ≡ ok r
      → (r.1 ≡ 0)
        × (r.0 * p0 ≤ d0 * total)
        × (r.0 * p1 ≤ d1 * total)
        × ((d0 * total < (r.0 + 1) * p0) ⊎ (d1 * total < (r.0 + 1) * p1))
  unfolding share_of_deposit
  share_of_deposit_next total tolerance d0 d1 p0 p1 {r} pos h =
      let a = d0 * total / p0 in
      let b = d1 * total / p1 in
      let steps : (r.1 ≡ 0)
          × (0 < p0)
          × (0 < p1)
          × (((r.0 ≡ a) × (a ≤ b)) ⊎ ((r.0 ≡ b) × (b ≤ a))) =
        ground (arith, dec.multiply_ratio_lem d0 total p0, dec.multiply_ratio_lem d1 total p1) in
      let (z, pos0, pos1, least) = steps in
      elim least [
        | inl (e, le) ↦ (
          z,
          part_below (d0 * total) p0 (r.0) (omega (arith, e)),
          part_below (d1 * total) p1 (r.0) (omega (arith, e, le)),
          inl (part_above (d0 * total) p0 (r.0) pos0 e),
        )
        | inr (e, le) ↦ (
          z,
          part_below (d0 * total) p0 (r.0) (omega (arith, e, le)),
          part_below (d1 * total) p1 (r.0) (omega (arith, e)),
          inr (part_above (d1 * total) p1 (r.0) pos1 e),
        )
      ]

-- A digit by digit square root: the root of a quarter, doubled, is too small by at most one.
abbrev pub next_digit : ℕ → ℕ → ℕ
next_digit r n = if leb ((2 * r + 1) * (2 * r + 1)) n then 2 * r + 1 else 2 * r

abbrev pub square_root : ℕ → ℕ → ℕ
square_root zero n = 0
square_root (suc bits) n = next_digit (square_root bits (n / 4)) n

next_digit_bounds :
    (r n : ℕ)
    → r * r ≤ n / 4
    → n / 4 < suc r * suc r
    → (next_digit r n * next_digit r n ≤ n) × (n < suc (next_digit r n) * suc (next_digit r n))
next_digit_bounds r n low high = elim (le-cases ((2 * r + 1) * (2 * r + 1)) n) [
  | inl le ↦ rw (le→leb _ _ le) (le, omega (arith, high))
  | inr lt ↦ rw (lt→leb _ _ lt) (omega (arith, low), omega (arith, lt))
]

pub square_root_bounds :
    (bits n : ℕ)
    → n < 4 ^ bits
    → (square_root bits n * square_root bits n ≤ n)
      × (n < suc (square_root bits n) * suc (square_root bits n))
square_root_bounds zero n h = (omega arith, omega arith)
square_root_bounds (suc bits) n h =
    let (low, high) = square_root_bounds bits (n / 4) (omega (arith, h)) in
    next_digit_bounds (square_root bits (n / 4)) n low high

abbrev pub roots_of_squares : Roots
roots_of_squares = record {
  isqrt = square_root 128;
  isqrt_le = λ n h. (square_root_bounds 128 n (omega (arith, h))).0;
  isqrt_gt = λ n h. (square_root_bounds 128 n (omega (arith, h))).1;
}
