-- ===== src/Dex/Oracle.antt =====
-- packages/dex/src/oracle.rs: the price oracle of a pool of two assets. Times of blocks are in
-- nanoseconds (`Timestamp`), times of checkpoints in seconds, both `u64`. A `Twap` is the atomics
-- of its `Decimal256`. The four items of the storage are the fields of `OracleStore`.
pub mod Buffer
pub mod Query
pub mod Shift
pub mod Range
pub mod Invariant
pub mod Store
use whelp_contracts.Prelude.{
  ℕ, ◌+◌, ◌-◌, ◌*◌, ◌/◌, ◌^◌, Option, none, some, List, [], ◌∷◌, ltb, ◌==◌, if◌then◌else◌, length,
  min,
}
use whelp_contracts.Outcome.{Outcome, ok, err, panic, ◌>>=◌, ok_or}
use whelp_contracts.Num.{Decimals, u64_max, u128_max, u256_max, add, mul, sub, div, fit}
use whelp_contracts.Dex.Error.{StdError, not_found, start_too_early}
use whelp_contracts.Dex.Asset.{AssetInfoValidated}

abbrev pub minute : ℕ
minute = 60

abbrev pub half_hour : ℕ
half_hour = 30 * minute

abbrev pub six_hours : ℕ
six_hours = 6 * 60 * minute

abbrev pub buffer_depth : ℕ
buffer_depth = 32

pub record Accumulator : Type 0 where
  pub snapshot : ℕ
  pub last_price : ℕ
  pub twap_a_per_b : ℕ
  pub twap_b_per_a : ℕ

pub record LastUpdates : Type 0 where
  pub accumulator : Accumulator
  pub minutes : ℕ
  pub half_hours : ℕ
  pub six_hours : ℕ

pub record Prices : Type 0 where
  pub twap_a_per_b : List ℕ
  pub twap_b_per_a : List ℕ

pub record OracleStore : Type 0 where
  pub last_updates : Option LastUpdates
  pub last_minutes_prices : Option Prices
  pub last_half_hour_prices : Option Prices
  pub last_six_hour_prices : Option Prices

-- `Timestamp::seconds`
abbrev pub seconds : ℕ → ℕ
seconds nanos = nanos / 10 ^ 9

abbrev pub diff_nanos : ℕ → ℕ → Outcome StdError ℕ
diff_nanos older later = sub later older

abbrev pub empty_prices : Prices
empty_prices = record { twap_a_per_b = []; twap_b_per_a = [] }

unfoldable pub new_accumulator : ℕ → ℕ → Accumulator
new_accumulator now price = record {
  snapshot = now;
  last_price = price;
  twap_a_per_b = 0;
  twap_b_per_a = 0;
}

module _ (dec : Decimals) where
  -- `inv().unwrap()`
  abbrev pub inverse : ℕ → Outcome StdError ℕ
  inverse price = if price == 0 then panic else ok (dec.inv price)

  unfoldable pub accumulate_nanos : ℕ → ℕ → ℕ → Outcome StdError ℕ
  accumulate_nanos twap last_price elapsed_nanos = do
    numerator ← mul u256_max last_price elapsed_nanos
    increment ← fit u256_max (dec.from_atomics numerator 27)
    add u256_max twap increment

  unfoldable pub accumulate_secs : ℕ → ℕ → ℕ → Outcome StdError ℕ
  accumulate_secs twap last_price elapsed_secs = do
    numerator ← mul u256_max last_price elapsed_secs
    increment ← fit u256_max (dec.from_atomics numerator 18)
    add u256_max twap increment

  unfoldable pub average_price : ℕ → ℕ → ℕ → Outcome StdError ℕ
  average_price twap earlier elapsed_nanos = do
    diff ← sub twap earlier
    atomics ← div diff elapsed_nanos
    n ← fit u128_max atomics
    fit u128_max (dec.from_atomics n 9)

  -- The two values of the accumulator at a time.
  unfoldable pub twaps_at : Accumulator → ℕ → Outcome StdError (ℕ × ℕ)
  twaps_at acc time = do
    elapsed ← diff_nanos acc.snapshot time
    a ← accumulate_nanos acc.twap_a_per_b acc.last_price elapsed
    inv ← inverse acc.last_price
    b ← accumulate_nanos acc.twap_b_per_a inv elapsed
    ok (a, b)

  unfoldable pub update_accumulator : Accumulator → ℕ → ℕ → Outcome StdError Accumulator
  update_accumulator acc now price =
      if ltb now acc.snapshot
      then panic
      else if now == acc.snapshot
      then ok (record acc { last_price = price })
      else (do
        (a, b) ← twaps_at acc now
        ok (record { snapshot = now; last_price = price; twap_a_per_b = a; twap_b_per_a = b }))
