-- ===== src/StablePool/Precision.antt =====
-- contracts/pool_stable/src/utils.rs: `adjust_precision`.
use native.Mathlib.Nat.{mul-div_cancel}
use whelp_contracts.Prelude.{
  ℕ, zero, suc, ◌<◌, arith, ◌≡◌, ◌≤◌, ◌==◌, ltb, ◌-◌, ◌*◌, ◌/◌, ◌^◌, if◌then◌else◌,
}
use whelp_contracts.Outcome.{Outcome, ok, ◌>>=◌}
use whelp_contracts.Num.{u128_max, fit, checked_fit}
use whelp_contracts.Dex.Error.{StdError, overflow}

-- `10_u128.pow(n)`
unfoldable pub pow10 : ℕ → Outcome StdError ℕ
pow10 n = fit u128_max (10 ^ n)

unfoldable pub adjust_precision : ℕ → ℕ → ℕ → Outcome StdError ℕ
adjust_precision value current_precision new_precision =
    if current_precision == new_precision
    then ok value
    else if ltb current_precision new_precision
    then (do
      scale ← pow10 (new_precision - current_precision)
      checked_fit overflow u128_max (value * scale))
    else (do scale ← pow10 (current_precision - new_precision); ok (value / scale))

pow-pos : (n : ℕ) → 0 < 10 ^ n
pow-pos zero = omega arith
pow-pos (suc n) = omega (arith, pow-pos n)

scaled_back : (value n : ℕ) → value * 10 ^ n / 10 ^ n ≡ value
scaled_back value n = mul-div_cancel value (pow-pos n)

adjust_precision-adjust_precision :
    (value from to : ℕ) {adjusted : ℕ}
    → from ≤ to
    → adjust_precision value from to ≡ ok adjusted
    → adjust_precision adjusted to from ≡ ok value
unfolding adjust_precision pow10
adjust_precision-adjust_precision value from to {adjusted} le h =
    ground (arith, h, scaled_back value (to - from))
