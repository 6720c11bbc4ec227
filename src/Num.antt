-- ===== src/Num.antt =====
-- The numbers of the contracts. `Uint128`, `Uint256`, `u64` and the rest are native numbers with
-- their range checks written out: the release profile has `overflow-checks = true`
-- (Cargo.toml), so every operator panics where its result leaves the range. A `Decimal` is the
-- number of its atomics. The arithmetic of `cosmwasm_std::Decimal` is not code of this repository:
-- it is the parameter `Decimals`, with its documented rounding as laws.
use whelp_contracts.Prelude.{ℕ, ◌+◌, ◌-◌, ◌*◌, ◌/◌, ◌^◌, ◌≡◌, refl, leb, ◌==◌, if◌then◌else◌}
use whelp_contracts.Outcome.{Outcome, ok, err, panic}

abbrev pub u64_max : ℕ
u64_max = 2 ^ 64 - 1

abbrev pub u128_max : ℕ
u128_max = 2 ^ 128 - 1

abbrev pub u256_max : ℕ
u256_max = 2 ^ 256 - 1

-- `Decimal::one()` in atomics.
abbrev pub one : ℕ
one = 10 ^ 18

module _ {ℓ} {E : Type ℓ} where
  -- The result of an operator on a type whose largest value is `top`.
  abbrev pub fit : ℕ → ℕ → Outcome E ℕ
  fit top n = if leb n top then ok n else panic

  abbrev pub add : ℕ → ℕ → ℕ → Outcome E ℕ
  add top a b = fit top (a + b)

  abbrev pub mul : ℕ → ℕ → ℕ → Outcome E ℕ
  mul top a b = fit top (a * b)

  abbrev pub sub : ℕ → ℕ → Outcome E ℕ
  sub a b = if leb b a then ok (a - b) else panic

  abbrev pub div : ℕ → ℕ → Outcome E ℕ
  div a b = if b == 0 then panic else ok (a / b)

  -- `checked_sub`, `checked_add`, `checked_mul` and `try_into` with the error that `?` gives.
  abbrev pub checked_sub : E → ℕ → ℕ → Outcome E ℕ
  checked_sub e a b = if leb b a then ok (a - b) else err e

  abbrev pub checked_fit : E → ℕ → ℕ → Outcome E ℕ
  checked_fit e top n = if leb n top then ok n else err e

-- The fixed-point arithmetic of `cosmwasm_std`, before the range check of its result:
-- `multiply_ratio x n d` is `x.multiply_ratio(n, d)`, `mul_floor x r` is `x * r` for a decimal `r`,
-- `from_ratio n d` is `Decimal::from_ratio(n, d)`, and `from_atomics n p` is
-- `Decimal::from_atomics(n, p)`, and `inv r` is `r.inv()` for an `r` above zero. All round down. The
-- product of two decimals is `mul_floor` on their atomics, and their quotient `from_ratio`.
pub record Decimals : Type 0 where
  pub multiply_ratio : ℕ → ℕ → ℕ → ℕ
  pub mul_floor : ℕ → ℕ → ℕ
  pub from_ratio : ℕ → ℕ → ℕ
  pub from_atomics : ℕ → ℕ → ℕ
  pub inv : ℕ → ℕ
  pub multiply_ratio_lem : (x n d : ℕ) → multiply_ratio x n d ≡ x * n / d
  pub mul_floor_lem : (x r : ℕ) → mul_floor x r ≡ x * r / one
  pub from_ratio_lem : (n d : ℕ) → from_ratio n d ≡ n * one / d
  pub inv_lem : (r : ℕ) → inv r ≡ one * one / r
  pub from_atomics_lem :
      (n p : ℕ) → from_atomics n p ≡ (if leb p 18 then n * 10 ^ (18 - p) else n / 10 ^ (p - 18))

-- Arithmetic that meets the laws.
abbrev pub floors : Decimals
floors = record {
  multiply_ratio = λ x n d. x * n / d;
  mul_floor = λ x r. x * r / one;
  from_ratio = λ n d. n * one / d;
  from_atomics = λ n p. if leb p 18 then n * 10 ^ (18 - p) else n / 10 ^ (p - 18);
  inv = λ r. one * one / r;
  inv_lem = λ r. refl;
  multiply_ratio_lem = λ x n d. refl;
  mul_floor_lem = λ x r. refl;
  from_ratio_lem = λ n d. refl;
  from_atomics_lem = λ n p. refl;
}

-- The operators with their panics, on a type whose largest value is `top`.
module _ {ℓ} (dec : Decimals) {E : Type ℓ} where
  abbrev pub mul_decimal : ℕ → ℕ → ℕ → Outcome E ℕ
  mul_decimal top x r = fit top (dec.mul_floor x r)

  abbrev pub ratio : ℕ → ℕ → ℕ → Outcome E ℕ
  ratio top n d = if d == 0 then panic else fit top (dec.from_ratio n d)

  abbrev pub mul_ratio : ℕ → ℕ → ℕ → ℕ → Outcome E ℕ
  mul_ratio top x n d = if d == 0 then panic else fit top (dec.multiply_ratio x n d)

-- `decimal2decimal256`: the same value with the 18 places of a `Decimal`.
abbrev pub decimal2decimal256 : Decimals → ℕ → ℕ
decimal2decimal256 dec r = dec.from_atomics r 18
