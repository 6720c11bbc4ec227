-- ===== src/Pool/Curve.antt =====
-- contracts/pool/src/contract.rs: the price curve of the constant product pool.
pub mod Laws
pub mod Offer
use whelp_contracts.Prelude.{
  ℕ, ◌-◌, Bool, true, false, Option, some, none, List, [], ◌∷◌, ltb, unwrap_or, ◌^◌, ◌*◌,
  if◌then◌else◌, ◌==◌, ◌+◌, ◌/◌,
}
use whelp_contracts.Outcome.{Outcome, ok, err, panic, ◌>>=◌, ◌>>◌, fail_if}
use whelp_contracts.Num.{
  Decimals, u128_max, u256_max, add, mul, sub, checked_fit, checked_sub, mul_ratio, one,
  mul_decimal, ratio, decimal2decimal256,
}
use whelp_contracts.Dex.Error.{
  StdError, overflow, ContractError, allowed_spread_assertion, max_slippage_assertion,
}
use whelp_contracts.Dex.Asset.{check_swap_parameters}
use whelp_contracts.Dex.Spread.{default_slippage, max_allowed_slippage}

pub record SwapAmounts : Type 0 where
  pub return_amount : ℕ
  pub spread_amount : ℕ
  pub commission_amount : ℕ

module _ (dec : Decimals) where
  unfoldable pub compute_swap : ℕ → ℕ → ℕ → ℕ → Outcome StdError SwapAmounts
  unfolding check_swap_parameters
  compute_swap offer_pool ask_pool offer_amount commission_rate = do
    check_swap_parameters (offer_pool ∷ ask_pool ∷ []) offer_amount
    cp ← mul u256_max offer_pool ask_pool
    total ← add u256_max offer_pool offer_amount
    ask_decimal ← ratio dec u256_max ask_pool 1
    left_decimal ← ratio dec u256_max cp total
    return_decimal ← sub ask_decimal left_decimal
    swapped ← mul_decimal dec u256_max 1 return_decimal
    price ← ratio dec u256_max ask_pool offer_pool
    ideal ← mul_decimal dec u256_max offer_amount price
    spread ← sub ideal swapped
    commission ← mul_decimal dec u256_max swapped (decimal2decimal256 dec commission_rate)
    returned ← sub swapped commission
    r ← checked_fit overflow u128_max returned
    s ← checked_fit overflow u128_max spread
    c ← checked_fit overflow u128_max commission
    ok (record { return_amount = r; spread_amount = s; commission_amount = c })

pub record OfferAmounts : Type 0 where
  pub offer_amount : ℕ
  pub spread_amount : ℕ
  pub commission_amount : ℕ

module _ (dec : Decimals) where
  -- `ask_amount * 1 / (1 - commission_rate)`: the amount before the commission is deducted.
  unfoldable pub before_commission : ℕ → ℕ → Outcome StdError ℕ
  before_commission ask_amount commission_rate = do
    one_minus_commission ← sub one (decimal2decimal256 dec commission_rate)
    inv_one_minus_commission ← ratio dec u256_max one one_minus_commission
    mul_decimal dec u256_max ask_amount inv_one_minus_commission

  -- `-` on ℕ in the spread is the `saturating_sub` of the source.
  unfoldable pub compute_offer_amount : ℕ → ℕ → ℕ → ℕ → Outcome StdError OfferAmounts
  compute_offer_amount offer_pool ask_pool ask_amount commission_rate = do
    check_swap_parameters (offer_pool ∷ ask_pool ∷ []) ask_amount
    cp ← mul u256_max offer_pool ask_pool
    before ← before_commission ask_amount commission_rate
    before128 ← checked_fit overflow u128_max before
    left ← checked_sub overflow ask_pool before128
    needed ← mul_ratio dec u256_max cp 1 left
    offer ← checked_sub overflow needed offer_pool
    offer_amount ← checked_fit overflow u128_max offer
    price ← ratio dec u128_max ask_pool offer_pool
    ideal ← mul_decimal dec u128_max offer_amount price
    commission ← mul_decimal dec u256_max before (decimal2decimal256 dec commission_rate)
    c ← checked_fit overflow u128_max commission
    ok (record {
      offer_amount = offer_amount;
      spread_amount = ideal - before128;
      commission_amount = c;
    })

  -- One of the two price checks: whether the price `a / b` of the deposits, less the tolerance,
  -- exceeds that of the pools.
  unfoldable pub exceeds : ℕ → ℕ → ℕ → ℕ → ℕ → Outcome ContractError Bool
  exceeds rest a b pool_a pool_b = do
    price ← ratio dec u256_max a b
    lowered ← mul_decimal dec u256_max price rest
    pool_price ← ratio dec u256_max pool_a pool_b
    ok (ltb pool_price lowered)

  -- `||` computes its second side only if the first is false.
  unfoldable pub assert_slippage_tolerance :
      Option ℕ → ℕ → ℕ → ℕ → ℕ → Outcome ContractError (Unit {0})
  assert_slippage_tolerance slippage_tolerance deposit_a deposit_b pool_a pool_b = do
    let tolerance = unwrap_or slippage_tolerance default_slippage
    fail_if (ltb max_allowed_slippage tolerance) allowed_spread_assertion
    rest ← sub one (decimal2decimal256 dec tolerance)
    first ← exceeds rest deposit_a deposit_b pool_a pool_b
    fail_if first max_slippage_assertion
    second ← exceeds rest deposit_b deposit_a pool_b pool_a
    fail_if second max_slippage_assertion
