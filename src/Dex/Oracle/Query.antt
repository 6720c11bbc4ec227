-- ===== src/Dex/Oracle/Query.antt =====
-- packages/dex/src/oracle.rs: the queries of the oracle. A negative `start_index - end_index` and
-- every other subtraction below zero panic, and `prices[i]` panics past the end of the buffer.
use whelp_contracts.Prelude.{ℕ, zero, suc, ◌^◌, Option, none, some, List, [], ◌∷◌}
use whelp_contracts.Outcome.{Outcome, ok, ◌>>=◌, ok_or, unwrap}
use whelp_contracts.Num.{Decimals, u64_max, add, mul, sub}
use whelp_contracts.Dex.Error.{StdError, not_found, start_too_early}
use whelp_contracts.Dex.Asset.{AssetInfo, AssetInfoValidated}
use whelp_contracts.Dex.Oracle.{
  Accumulator, LastUpdates, Prices, OracleStore, minute as minute_secs, half_hour as half_hour_secs,
  six_hours as six_hours_secs, average_price, twaps_at,
}
use whelp_contracts.Dex.Oracle.Buffer.{accumulate, calc_checkpoint}

pub data SamplePeriod : Type 0 where
  minute half_hour six_hour : SamplePeriod

pub record TwapResponse : Type 0 where
  pub a : AssetInfo
  pub b : AssetInfo
  pub a_per_b : ℕ
  pub b_per_a : ℕ

-- The conversion of a validated asset to what a caller sends.
unfoldable pub into_info : AssetInfoValidated → AssetInfo
into_info (AssetInfoValidated.cw20_token a) = AssetInfo.cw20_token a
into_info (AssetInfoValidated.smart_token d) = AssetInfo.smart_token d

-- `xs.get(i)`
unfoldable pub get {ℓ} : {A : Type ℓ} → ℕ → List A → Option A
get i [] = none
get zero (x ∷ xs) = some x
get (suc i) (x ∷ xs) = get i xs

-- The step, the time of the last update and the buffer of a period.
unfoldable pub period : OracleStore → LastUpdates → SamplePeriod → Outcome StdError (ℕ × ℕ × Prices)
period s u minute = do p ← ok_or s.last_minutes_prices not_found; ok (minute_secs, u.minutes, p)
period s u half_hour = do
  p ← ok_or s.last_half_hour_prices not_found
  ok (half_hour_secs, u.half_hours, p)
period s u six_hour = do
  p ← ok_or s.last_six_hour_prices not_found
  ok (six_hours_secs, u.six_hours, p)

module _ (dec : Decimals) where
  -- The buffer, with the checkpoints reached since the last update filled in.
  unfoldable pub interpolated : Accumulator → ℕ → ℕ → ℕ → Prices → Outcome StdError Prices
  interpolated acc now step last stored = do
    reached ← calc_checkpoint last now step
    elim reached [ none ↦ ok stored | some latest ↦ accumulate dec stored last latest acc step ]

  -- The end of the range: the time since its start, and the two values there.
  unfoldable pub range_end :
      Accumulator → ℕ → ℕ → ℕ → Prices → ℕ → Option ℕ → Outcome StdError (ℕ × ℕ × ℕ)
  range_end acc now step last prices start_index (some end_index) = do
    step_nanos ← mul u64_max step (10 ^ 9)
    steps ← sub start_index end_index
    elapsed ← mul u64_max step_nanos steps
    a ← unwrap (get end_index prices.twap_a_per_b)
    b ← unwrap (get end_index prices.twap_b_per_a)
    ok (elapsed, a, b)
  range_end acc now step last prices start_index none = do
    step_nanos ← mul u64_max step (10 ^ 9)
    before ← mul u64_max step_nanos start_index
    until ← add u64_max before now
    last_nanos ← mul u64_max last (10 ^ 9)
    elapsed ← sub until last_nanos
    (a, b) ← twaps_at dec acc now
    ok (elapsed, a, b)

  unfoldable pub query_oracle_range :
      OracleStore
      → ℕ
      → List AssetInfoValidated
      → SamplePeriod
      → ℕ
      → Option ℕ
      → Outcome StdError TwapResponse
  query_oracle_range s now asset_infos sample_period start_index end_index = do
    u ← ok_or s.last_updates not_found
    (step, last, stored) ← period s u sample_period
    prices ← interpolated u.accumulator now step last stored
    old_a ← ok_or (get start_index prices.twap_a_per_b) start_too_early
    old_b ← unwrap (get start_index prices.twap_b_per_a)
    (elapsed, new_a, new_b) ← range_end u.accumulator now step last prices start_index end_index
    a_per_b ← average_price dec new_a old_a elapsed
    b_per_a ← average_price dec new_b old_b elapsed
    a ← unwrap (get 0 asset_infos)
    b ← unwrap (get 1 asset_infos)
    ok (record { a = into_info a; b = into_info b; a_per_b = a_per_b; b_per_a = b_per_a })

unfoldable pub query_oracle_accumulator : OracleStore → Outcome StdError Accumulator
query_oracle_accumulator s = do u ← ok_or s.last_updates not_found; ok u.accumulator
