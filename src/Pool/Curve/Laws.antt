-- ===== src/Pool/Curve/Laws.antt =====
-- The constant product rule for `compute_swap`, and when it gives a result. `one` is 10 ^ 18: the
-- curve divides twice with 18 places, so its rounding shows in balances above that.
use native.Mathlib.Nat.{
  mul-le-mul, mul-le-mul_left, mul-le-mul_right, div-le_self, div-le_of_le-mul, lt-div-mul-add,
  le_of_mul-le-mul_right,
}
use whelp_contracts.Prelude.{
  ℕ, ◌+◌, ◌-◌, ◌*◌, ◌/◌, ◌≤◌, ◌<◌, ◌≡◌, zero, suc, arith, le→leb, pos→nonzero,
}
use whelp_contracts.Outcome.{ok}
use whelp_contracts.Num.{Decimals, one, u128_max, u256_max, decimal2decimal256}
use whelp_contracts.Pool.Curve.{SwapAmounts, compute_swap}

-- The part of the ask pool that a swap takes out, before the commission.
abbrev taken : ℕ → ℕ → ℕ → ℕ
taken n cp a = (a * one / 1 - cp * one / n) / one

scale : (n c q t : ℕ) → c < q * n + n → q ≤ t * one → c < n * t * one + n
scale n c q t h k = omega (arith, mul-le-mul_left n k)

taken-loss :
    (n cp a : ℕ) → 0 < n → cp * one / n ≤ a * one / 1 → cp * one < n * (a - taken n cp a) * one + n
taken-loss n cp a pos le =
    scale n (cp * one) (cp * one / n) (a - taken n cp a) (lt-div-mul-add pos) (omega arith)

module _ (dec : Decimals) where
  compute_swap_amounts :
      (o a x rate : ℕ) {r : SwapAmounts}
      → compute_swap dec o a x rate ≡ ok r
      → (dec.from_ratio (o * a) (o + x) ≤ dec.from_ratio a 1)
        × (r.return_amount + r.commission_amount
            ≡ dec.mul_floor 1 (dec.from_ratio a 1 - dec.from_ratio (o * a) (o + x)))
        × (0 < o)
  unfolding compute_swap
  compute_swap_amounts o a x rate h = ground arith

  -- The same with the laws of the arithmetic put in.
  swap_taken :
      (o a x rate : ℕ) {r : SwapAmounts}
      → compute_swap dec o a x rate ≡ ok r
      → (o * a * one / (o + x) ≤ a * one / 1)
        × (r.return_amount + r.commission_amount ≡ taken (o + x) (o * a) a)
        × (0 < o)
  swap_taken o a x rate h =
      let (le, e, pos) = compute_swap_amounts o a x rate h in
      omega (
        arith,
        le,
        e,
        pos,
        dec.from_ratio_lem (o * a) (o + x),
        dec.from_ratio_lem a 1,
        dec.mul_floor_lem 1 (dec.from_ratio a 1 - dec.from_ratio (o * a) (o + x)),
      )

  pub swap_loss :
      (o a x rate : ℕ) {r : SwapAmounts}
      → compute_swap dec o a x rate ≡ ok r
      → o * a * one < (o + x) * (a - (r.return_amount + r.commission_amount)) * one + (o + x)
  swap_loss o a x rate {r} h =
      let (le, e, pos) = swap_taken o a x rate h in
      rw e (taken-loss (o + x) (o * a) a (omega arith) le)

  pub swap_keeps_product :
      (o a x rate : ℕ) {r : SwapAmounts}
      → compute_swap dec o a x rate ≡ ok r
      → o + x ≤ one
      → o * a ≤ (o + x) * (a - (r.return_amount + r.commission_amount))
  swap_keeps_product o a x rate h small = omega (arith, swap_loss o a x rate h)

-- The spread is no negative number: what is taken is at most the amount at the old price.
taken_scaled :
    (o x a k q : ℕ)
    → o + x ≤ one
    → k * one + q ≤ a * one
    → o * a * one < q * (o + x) + (o + x)
    → k * (o + x) ≤ a * x
taken_scaled o x a k q small fits left = omega (arith, mul-le-mul_left (o + x) fits)

at_old_price :
    (o x a k p : ℕ) → o ≤ one → k * (o + x) ≤ a * x → a * one < p * o + o → 0 < o → k * one ≤ x * p
at_old_price o x a zero p small below price pos = omega arith
at_old_price o x a (suc k) p small below price pos =
    let dear : a * one ≤ p * o + o = omega arith in
    le_of_mul-le-mul_right {k = o} (omega (arith, mul-le-mul_left x dear, mul-le-mul_left x small))
      pos

-- The part that is taken is at most the amount at the old price.
taken-le_ideal :
    (o a x : ℕ)
    → 0 < o
    → o + x ≤ one
    → (o * a * one / (o + x) ≤ a * one) × (taken (o + x) (o * a) a * one ≤ x * (a * one / o))
taken-le_ideal o a x pos small =
    let left : o * a * one / (o + x) ≤ a * one = div-le_of_le-mul (o + x) (omega arith) in
    (
      left,
      at_old_price o x a (taken (o + x) (o * a) a) (a * one / o) (omega arith)
          (taken_scaled o x a (taken (o + x) (o * a) a) (o * a * one / (o + x)) small
            (omega (arith, left)) (lt-div-mul-add {a = o * a * one} {b = o + x} (omega arith)))
          (lt-div-mul-add pos) pos,
    )

-- With balances up to 10 ^ 18 and a fee of at most the whole, every swap gives a result.
module _ (dec : Decimals) where
  swapped : ℕ → ℕ → ℕ → ℕ
  swapped o a x = dec.mul_floor 1 (dec.from_ratio a 1 - dec.from_ratio (o * a) (o + x))

  ideal : ℕ → ℕ → ℕ → ℕ
  ideal o a x = dec.mul_floor x (dec.from_ratio a o)

  fee : ℕ → ℕ → ℕ → ℕ → ℕ
  unfolding swapped
  fee o a x rate = dec.mul_floor (swapped o a x) (decimal2decimal256 dec rate)

  compute_swap_result :
      (o a x rate : ℕ)
      → 0 < o
      → 0 < a
      → 0 < x
      → o * a ≤ u256_max
      → o + x ≤ u256_max
      → dec.from_ratio a 1 ≤ u256_max
      → dec.from_ratio (o * a) (o + x) ≤ dec.from_ratio a 1
      → dec.from_ratio a o ≤ u256_max
      → swapped o a x ≤ ideal o a x
      → ideal o a x ≤ u128_max
      → fee o a x rate ≤ swapped o a x
      → compute_swap dec o a x rate
        ≡ ok (record {
          return_amount = swapped o a x - fee o a x rate;
          spread_amount = ideal o a x - swapped o a x;
          commission_amount = fee o a x rate;
        })
  unfolding compute_swap swapped ideal fee
  compute_swap_result o a x rate po pa px h1 h2 h3 h4 h5 h6 h7 h8 = rw (
    pos→nonzero o po,
    pos→nonzero a pa,
    pos→nonzero x px,
    le→leb _ _ h1,
    le→leb _ _ h2,
    le→leb _ _ h3,
    pos→nonzero (o + x) (omega arith),
    le→leb (dec.from_ratio (o * a) (o + x)) u256_max (omega arith),
    le→leb _ _ h4,
    le→leb (swapped o a x) u256_max (omega arith),
    le→leb _ _ h5,
    le→leb (ideal o a x) u256_max (omega arith),
    le→leb _ _ h6,
    le→leb (fee o a x rate) u256_max (omega arith),
    le→leb _ _ h8,
    le→leb (swapped o a x - fee o a x rate) u128_max (omega arith),
    le→leb (ideal o a x - swapped o a x) u128_max (omega arith),
    le→leb (fee o a x rate) u128_max (omega arith),
  )

  swapped-eq : (o a x : ℕ) → swapped o a x ≡ taken (o + x) (o * a) a
  unfolding swapped
  swapped-eq o a x =
      rw (dec.mul_floor_lem, dec.from_ratio_lem a 1, dec.from_ratio_lem (o * a) (o + x))
        (omega arith)

  ideal-eq : (o a x : ℕ) → ideal o a x ≡ x * (a * one / o) / one
  unfolding ideal
  ideal-eq o a x = rw (dec.mul_floor_lem, dec.from_ratio_lem a o)

  fee-eq : (o a x rate : ℕ) → fee o a x rate ≡ swapped o a x * rate / one
  unfolding fee
  fee-eq o a x rate = rw (dec.mul_floor_lem (swapped o a x), dec.from_atomics_lem) (omega arith)

  -- `compute_swap` gives a result, with no error and no panic, if both pools and the offer are
  -- above zero, the offer pool with the offer and the ask pool are at most 10 ^ 18, and the
  -- commission rate is at most one.
  pub compute_swap_total :
      (o a x rate : ℕ)
      → 0 < o
      → 0 < a
      → 0 < x
      → o + x ≤ one
      → a ≤ one
      → rate ≤ one
      → (r : SwapAmounts) × (compute_swap dec o a x rate ≡ ok r)
  compute_swap_total o a x rate po pa px small asmall cheap =
      let (left, below) = taken-le_ideal o a x po small in
      let price = a * one / o in
      let product : o * a ≤ one * one =
        mul-le-mul {n₁ = o} {m₁ = a} {n₂ = one} {m₂ = one} (omega arith) asmall in
      let price_le : price ≤ a * one = div-le_self (a * one) o in
      let ideal_le : x * price ≤ one * price = mul-le-mul_right price (omega arith) in
      let fee_le : swapped o a x * rate ≤ swapped o a x * one =
        mul-le-mul_left (swapped o a x) cheap in
      (
        _,
        compute_swap_result o a x rate po pa px (omega (arith, product)) (omega arith)
            (omega (arith, dec.from_ratio_lem a 1))
            (omega (arith, left, dec.from_ratio_lem a 1, dec.from_ratio_lem (o * a) (o + x)))
            (omega (arith, dec.from_ratio_lem a o, price_le))
            (omega (arith, below, swapped-eq o a x, ideal-eq o a x))
            (omega (arith, ideal-eq o a x, ideal_le, price_le))
            (omega (arith, fee-eq o a x rate, fee_le)),
      )
