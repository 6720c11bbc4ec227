-- ===== src/Int.antt =====
-- `i128` of the contracts: integers over the native numbers, the casts between `u128` and `i128`,
-- which keep the 128 bits, and the range checks of the operators.
use whelp_contracts.Prelude.{ℕ, suc, ◌+◌, ◌-◌, ◌*◌, ◌^◌, ◌<◌, ◌≡◌, arith, ltb, leb, if◌then◌else◌}
use whelp_contracts.Outcome.{Outcome, ok, panic}

-- `negsuc n` is -(n + 1).
pub data ℤ : Type 0 where
  pos : ℕ → ℤ
  negsuc : ℕ → ℤ

abbrev pub pos_part : ℤ → ℕ
pos_part (pos n) = n
pos_part (negsuc n) = 0

abbrev pub neg_part : ℤ → ℕ
neg_part (pos n) = 0
neg_part (negsuc n) = suc n

-- a - b, as an integer.
abbrev pub sub_ℕ : ℕ → ℕ → ℤ
sub_ℕ a b = if leb b a then pos (a - b) else negsuc (b - a - 1)

infixl 65 ◌+ℤ◌ ◌-ℤ◌
infixl 70 ◌*ℤ◌
unfoldable pub ◌+ℤ◌ : ℤ → ℤ → ℤ
a +ℤ b = sub_ℕ (pos_part a + pos_part b) (neg_part a + neg_part b)

unfoldable pub ◌-ℤ◌ : ℤ → ℤ → ℤ
a -ℤ b = sub_ℕ (pos_part a + neg_part b) (neg_part a + pos_part b)

unfoldable pub ◌*ℤ◌ : ℤ → ℤ → ℤ
a *ℤ b =
    sub_ℕ (pos_part a * pos_part b + neg_part a * neg_part b)
      (pos_part a * neg_part b + neg_part a * pos_part b)

pub +ℤ_parts :
    (a b : ℤ)
    → pos_part (a +ℤ b) + neg_part a + neg_part b ≡ neg_part (a +ℤ b) + pos_part a + pos_part b
unfolding ◌+ℤ◌
+ℤ_parts a b = ground arith

pub -ℤ_parts :
    (a b : ℤ)
    → pos_part (a -ℤ b) + neg_part a + pos_part b ≡ neg_part (a -ℤ b) + pos_part a + neg_part b
unfolding ◌-ℤ◌
-ℤ_parts a b = ground arith

-- A product with a number.
pub *ℤ_parts :
    (n : ℕ) (b : ℤ)
    → pos_part (pos n *ℤ b) + n * neg_part b ≡ neg_part (pos n *ℤ b) + n * pos_part b
unfolding ◌*ℤ◌
*ℤ_parts n b = ground arith

pub eq_of_parts : (a b : ℤ) → pos_part a + neg_part b ≡ pos_part b + neg_part a → a ≡ b
eq_of_parts a b h = ground arith

-- `n as i128`.
unfoldable pub as_i128 : ℕ → ℤ
as_i128 n = if ltb n (2 ^ 127) then pos n else negsuc (2 ^ 128 - 1 - n)

-- `z as u128`.
unfoldable pub as_u128 : ℤ → ℕ
as_u128 (pos n) = n
as_u128 (negsuc n) = 2 ^ 128 - 1 - n

-- The result of an operator on `i128`.
unfoldable pub fit_i128 {ℓ} : {E : Type ℓ} → ℤ → Outcome E ℤ
fit_i128 (pos n) = if ltb n (2 ^ 127) then ok (pos n) else panic
fit_i128 (negsuc n) = if ltb n (2 ^ 127) then ok (negsuc n) else panic

-- A cast to the other type and back keeps the value.
pub as_u128-as_i128 : (n : ℕ) → n < 2 ^ 128 → as_u128 (as_i128 n) ≡ n
unfolding as_u128 as_i128
as_u128-as_i128 n h = ground arith
