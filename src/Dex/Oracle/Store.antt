-- ===== src/Dex/Oracle/Store.antt =====
-- packages/dex/src/oracle.rs: the operations on the oracle's storage.
use whelp_contracts.Prelude.{ℕ, Option, none, some, ◌==◌, if◌then◌else◌}
use whelp_contracts.Outcome.{Outcome, ok, ◌>>=◌, ok_or}
use whelp_contracts.Num.{Decimals}
use whelp_contracts.Dex.Error.{StdError, not_found}
use whelp_contracts.Dex.Oracle.{
  Accumulator, Prices, OracleStore, new_accumulator, update_accumulator, empty_prices, minute,
  half_hour, six_hours, seconds,
}
use whelp_contracts.Dex.Oracle.Buffer.{accumulate, calc_checkpoint}

unfoldable pub initialize_oracle : ℕ → ℕ → OracleStore
unfolding new_accumulator
initialize_oracle now price = record {
  last_updates = some (record {
    accumulator = new_accumulator now price;
    minutes = seconds now;
    half_hours = seconds now;
    six_hours = seconds now;
  });
  last_minutes_prices = some empty_prices;
  last_half_hour_prices = some empty_prices;
  last_six_hour_prices = some empty_prices;
}

module _ (dec : Decimals) where
  -- One of the three blocks of `store_oracle_price`: the new time and buffer of one period.
  unfoldable pub update_period :
      Accumulator → ℕ → ℕ → ℕ → Option Prices → Outcome StdError (ℕ × Option Prices)
  update_period acc now step last stored = do
    reached ← calc_checkpoint last now step
    elim reached [
      | none ↦ ok (last, stored)
      | some latest ↦ do
        old ← ok_or stored not_found
        new ← accumulate dec old last latest acc step
        ok (latest, some new)
    ]

  unfoldable pub store_oracle_price : OracleStore → ℕ → ℕ → Outcome StdError OracleStore
  store_oracle_price s now price = do
    u ← ok_or s.last_updates not_found
    if now == u.accumulator.snapshot
        then ok (record s {
          last_updates =
              some (record u { accumulator = record u.accumulator { last_price = price } });
        })
        else (do
          (minutes, by_minute) ←
              update_period u.accumulator now minute u.minutes s.last_minutes_prices
          (half_hours, by_half_hour) ←
              update_period u.accumulator now half_hour u.half_hours s.last_half_hour_prices
          (six_hours', by_six_hour) ←
              update_period u.accumulator now six_hours u.six_hours s.last_six_hour_prices
          acc ← update_accumulator dec u.accumulator now price
          ok (record {
            last_updates = some (record {
              accumulator = acc;
              minutes = minutes;
              half_hours = half_hours;
              six_hours = six_hours';
            });
            last_minutes_prices = by_minute;
            last_half_hour_prices = by_half_hour;
            last_six_hour_prices = by_six_hour;
          }))
