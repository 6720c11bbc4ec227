-- ===== src/StablePool/Decimals.antt =====
-- packages/dex/src/asset.rs: `Decimal256Ext`, the decimals of the stable pool. A `Decimal256` is the
-- number of its atomics, with 18 places.
use whelp_contracts.Prelude.{ℕ, ◌/◌, ◌==◌, if◌then◌else◌}
use whelp_contracts.Outcome.{Outcome, ok, err, ◌>>=◌}
use whelp_contracts.Num.{Decimals, u128_max, u256_max, sub, checked_fit, ratio}
use whelp_contracts.Dex.Error.{StdError, range_exceeded, multiply_ratio, conversion_overflow}
use whelp_contracts.Dex.Asset.{AssetValidated}
use whelp_contracts.StablePool.Precision.{pow10}
use whelp_contracts.StablePool.Select.{DecimalAsset}

unfoldable pub to_uint256_with_precision : ℕ → ℕ → Outcome StdError ℕ
to_uint256_with_precision value precision = do
  places ← sub 18 precision
  scale ← pow10 places
  ok (value / scale)

unfoldable pub to_uint128_with_precision : ℕ → ℕ → Outcome StdError ℕ
to_uint128_with_precision value precision = do
  n ← to_uint256_with_precision value precision
  checked_fit conversion_overflow u128_max n

module _ (dec : Decimals) where
  unfoldable pub from_integer : ℕ → Outcome StdError ℕ
  from_integer i = ratio dec u256_max i 1

  unfoldable pub checked_multiply_ratio : ℕ → ℕ → ℕ → Outcome StdError ℕ
  checked_multiply_ratio x n d =
      if d == 0
      then err multiply_ratio
      else checked_fit multiply_ratio u256_max (dec.multiply_ratio x n d)

  unfoldable pub with_precision : ℕ → ℕ → Outcome StdError ℕ
  with_precision value precision =
      checked_fit range_exceeded u256_max (dec.from_atomics value precision)

  unfoldable pub to_decimal_asset : AssetValidated → ℕ → Outcome StdError DecimalAsset
  to_decimal_asset asset precision = do
    amount ← with_precision asset.amount precision
    ok (record { info = asset.info; amount = amount })
