-- ===== src/Dex/Oracle/Range.antt =====
-- packages/dex/src/oracle.rs: the time that `query_oracle_range` divides by.
use whelp_contracts.Prelude.{ℕ, ◌+◌, ◌-◌, ◌*◌, ◌^◌, ◌≤◌, ◌<◌, ◌≡◌, none, some, arith}
use whelp_contracts.Outcome.{ok}
use whelp_contracts.Num.{Decimals}
use whelp_contracts.Dex.Oracle.{Accumulator, Prices}
use whelp_contracts.Dex.Oracle.Buffer.{calc_checkpoint}
use whelp_contracts.Dex.Oracle.Invariant.{calc_checkpoint-IsCheckpoint}
use whelp_contracts.Dex.Oracle.Query.{range_end}

module _ (dec : Decimals) where
  elapsed_to_present :
      (acc : Accumulator) (now step last : ℕ) (prices : Prices) (start_index : ℕ) {r : ℕ × ℕ × ℕ}
      → range_end dec acc now step last prices start_index none ≡ ok r
      → r.0 + last * 10 ^ 9 ≡ step * 10 ^ 9 * start_index + now
  unfolding range_end
  elapsed_to_present acc now step last prices start_index h = ground arith

  pub range_end_excess :
      (acc : Accumulator) (now step last : ℕ) (prices : Prices) (start_index reached : ℕ)
      {r : ℕ × ℕ × ℕ}
      → 0 < step
      → calc_checkpoint last now step ≡ ok (some reached)
      → step * start_index ≤ reached
      → range_end dec acc now step last prices start_index none ≡ ok r
      → (r.0 ≡ now - (reached - step * start_index) * 10 ^ 9 + (reached - last) * 10 ^ 9)
        × (last < reached)
  range_end_excess acc now step last prices start_index reached pos c le h =
      let ((before, next), later, whole) =
        calc_checkpoint-IsCheckpoint last now step (some reached) pos c in
      let e = elapsed_to_present acc now step last prices start_index h in (omega arith, later)
