-- ===== src/StablePool/Curve.antt =====
-- contracts/pool_stable/src/math.rs: the invariant `compute_d` and the balance `calc_y`, both by
-- Newton's method with at most 32 steps.
use whelp_contracts.Prelude.{
  ℕ, zero, suc, Bool, ◌&&◌, Option, none, some, List, [], ◌∷◌, ltb, leb, ◌==◌, ◌+◌, ◌-◌, ◌*◌, ◌/◌,
  ◌%◌, ◌||◌, if◌then◌else◌, length,
}
use whelp_contracts.Outcome.{Outcome, ok, err, ◌>>=◌, ◌>>◌, fail_if}
use whelp_contracts.Num.{
  Decimals, one, u64_max, u128_max, u256_max, add, mul, sub, div, checked_fit, mul_decimal, ratio,
}
use whelp_contracts.Dex.Error.{
  StdError, overflow, zero_swap_amount, conversion_overflow, same_offer_and_ask, not_converging,
}
use whelp_contracts.Dex.Asset.{AssetInfoValidated, equal}
use whelp_contracts.StablePool.Amp.{Config, amp_precision}
use whelp_contracts.StablePool.Select.{DecimalAsset}
use whelp_contracts.StablePool.Decimals.{
  to_uint256_with_precision, from_integer, checked_multiply_ratio, with_precision,
}
pub mod Laws

abbrev pub iterations : ℕ
iterations = 32

unfoldable pub any_zero : List ℕ → Bool
any_zero [] = Bool.false
any_zero (x ∷ pools) = (x == 0) || any_zero pools

unfoldable pub sum_of : ℕ → List ℕ → Outcome StdError ℕ
sum_of acc [] = ok acc
sum_of acc (x ∷ pools) = do acc' ← add u256_max acc x; sum_of acc' pools

-- The two tests that end an iteration.
unfoldable pub close : ℕ → ℕ → ℕ → Bool
close tolerance prev next =
    if leb prev next then leb (next - prev) tolerance else leb (prev - next) tolerance

module _ (dec : Decimals) where
  -- The fold that computes `d_p`.
  unfoldable pub product_of : ℕ → ℕ → ℕ → List ℕ → Outcome StdError ℕ
  product_of n_coins d acc [] = ok acc
  product_of n_coins d acc (x ∷ pools) = do
    denominator ← checked_fit overflow u256_max (dec.mul_floor x n_coins)
    acc' ← checked_multiply_ratio dec acc d denominator
    product_of n_coins d acc' pools

  unfoldable pub step_d : ℕ → ℕ → ℕ → List ℕ → ℕ → Outcome StdError ℕ
  step_d ann n_coins ann_sum_x pools d = do
    d_p ← product_of n_coins d d pools
    a ← mul_decimal dec u256_max d_p n_coins
    b ← add u256_max ann_sum_x a
    numerator ← mul_decimal dec u256_max b d
    less ← sub ann one
    e ← mul_decimal dec u256_max less d
    more ← add u256_max n_coins one
    f ← mul_decimal dec u256_max more d_p
    denominator ← add u256_max e f
    ratio dec u256_max numerator denominator

  unfoldable pub newton_d : ℕ → ℕ → ℕ → List ℕ → ℕ → ℕ → ℕ → Outcome StdError ℕ
  newton_d ann n_coins ann_sum_x pools precision zero d = ok d
  newton_d ann n_coins ann_sum_x pools precision (suc k) d_prev = do
    d ← step_d ann n_coins ann_sum_x pools d_prev
    tolerance ← with_precision dec 1 precision
    let rest = newton_d ann n_coins ann_sum_x pools precision k d
    if close tolerance d_prev d then ok d else rest

  unfoldable pub compute_d : ℕ → List ℕ → ℕ → Outcome StdError ℕ
  compute_d amp pools greatest_precision = if any_zero pools then ok 0 else do
    sum_x ← sum_of 0 pools
    if sum_x == 0 then ok 0 else do
      let n = length pools % 256
      amp_n ← checked_fit overflow u64_max (amp * n)
      ann ← ratio dec u256_max amp_n amp_precision
      n_coins ← from_integer dec n
      ann_sum_x ← mul_decimal dec u256_max ann sum_x
      newton_d ann n_coins ann_sum_x pools greatest_precision iterations sum_x

-- The three rates, which leave the amount.
abbrev pub apply_rate : AssetInfoValidated → ℕ → Config → ℕ
apply_rate asset amount config = amount

abbrev pub apply_rate_decimal : AssetInfoValidated → ℕ → Config → ℕ
apply_rate_decimal asset amount config = amount

abbrev pub inverse_rate : AssetInfoValidated → ℕ → Config → ℕ
inverse_rate to y config = y

unfoldable pub amounts : Config → List DecimalAsset → List ℕ
amounts config [] = []
amounts config (p ∷ pools) = apply_rate_decimal p.info p.amount config ∷ amounts config pools

-- The amount of a pool in the sum: none for the pool that is asked for.
unfoldable pub pool_amount :
    AssetInfoValidated → AssetInfoValidated → ℕ → Config → DecimalAsset → Option ℕ
pool_amount from to new_amount config pool =
    if equal pool.info from
    then some new_amount
    else if equal pool.info to
    then none
    else some (apply_rate_decimal pool.info pool.amount config)

module _ (dec : Decimals) where
  -- One turn of the loop over the pools, on `sum` and `c`.
  unfoldable pub add_amount : ℕ → ℕ → ℕ → Option ℕ → ℕ × ℕ → Outcome StdError (ℕ × ℕ)
  add_amount precision n_coins d none (sum, c) = ok (sum, c)
  add_amount precision n_coins d (some amount) (sum, c) = do
    sum' ← add u256_max sum amount
    x ← to_uint256_with_precision amount precision
    denominator ← mul u256_max x n_coins
    c' ← checked_multiply_ratio dec c d denominator
    ok (sum', c')

  unfoldable pub add_amounts :
      ℕ → ℕ → ℕ → (DecimalAsset → Option ℕ) → List DecimalAsset → ℕ × ℕ → Outcome StdError (ℕ × ℕ)
  add_amounts precision n_coins d amount [] sums = ok sums
  add_amounts precision n_coins d amount (p ∷ pools) sums = do
    sums' ← add_amount precision n_coins d (amount p) sums
    add_amounts precision n_coins d amount pools sums'

  -- `b`, `c` and `d` of the equation that `calc_y` solves.
  unfoldable pub equation :
      DecimalAsset
      → AssetInfoValidated
      → ℕ
      → List DecimalAsset
      → ℕ
      → ℕ
      → Config
      → Outcome StdError (ℕ × ℕ × ℕ)
  equation from_asset to new_amount pools amp target_precision config = do
    fail_if (equal to from_asset.info) same_offer_and_ask
    fail_if (from_asset.amount == new_amount) zero_swap_amount
    let n_coins = length pools % 256
    amp_n ← checked_fit overflow u64_max (amp * n_coins)
    let ann = amp_n / amp_precision
    invariant ← compute_d dec amp (amounts config pools) target_precision
    d ← to_uint256_with_precision invariant target_precision
    (sum, product) ←
        add_amounts target_precision n_coins d (pool_amount from_asset.info to new_amount config)
          pools (0, d)
    numerator ← mul u256_max product d
    denominator ← mul u256_max ann n_coins
    c ← div numerator denominator
    total ← to_uint256_with_precision sum target_precision
    share ← div d ann
    b ← add u256_max total share
    ok (b, c, d)

unfoldable pub step_y : ℕ → ℕ → ℕ → ℕ → Outcome StdError ℕ
step_y b c d y = do
  square ← mul u256_max y y
  numerator ← add u256_max square c
  double ← add u256_max y y
  slope ← add u256_max double b
  denominator ← sub slope d
  div numerator denominator

unfoldable pub newton_y : ℕ → ℕ → ℕ → ℕ → ℕ → Outcome StdError ℕ
newton_y b c d zero y_prev = err not_converging
newton_y b c d (suc k) y_prev = do
  y ← step_y b c d y_prev
  let rest = newton_y b c d k y
  if close 1 y_prev y then checked_fit conversion_overflow u128_max y else rest

unfoldable pub calc_y :
    Decimals
    → DecimalAsset
    → AssetInfoValidated
    → ℕ
    → List DecimalAsset
    → ℕ
    → ℕ
    → Config
    → Outcome StdError ℕ
calc_y dec from_asset to new_amount pools amp target_precision config = do
  (b, c, d) ← equation dec from_asset to new_amount pools amp target_precision config
  y ← newton_y b c d iterations d
  ok (inverse_rate to y config)
