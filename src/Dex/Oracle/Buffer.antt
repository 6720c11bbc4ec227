-- ===== src/Dex/Oracle/Buffer.antt =====
-- packages/dex/src/oracle.rs: `Prices::accumulate`, which moves the stored snapshots of a buffer to
-- their new offset and fills in the new ones, and `calc_checkpoint`.
use whelp_contracts.Prelude.{
  ℕ, zero, suc, ◌+◌, ◌*◌, ◌^◌, Option, none, some, List, [], ◌∷◌, ltb, ◌==◌, if◌then◌else◌, length,
  min,
}
use whelp_contracts.Outcome.{Outcome, ok, panic, ◌>>=◌}
use whelp_contracts.Num.{Decimals, u64_max, add, mul, sub, div}
use whelp_contracts.Dex.Error.{StdError}
use whelp_contracts.Dex.Oracle.{Accumulator, Prices, buffer_depth, seconds, twaps_at}

-- `vec![0; n]`, which `resize` makes of an empty vector.
unfoldable pub zeros : ℕ → List ℕ
zeros zero = []
zeros (suc n) = 0 ∷ zeros n

-- `&old[0..n]`, and its panic past the end.
unfoldable pub prefix : ℕ → List ℕ → Outcome StdError (List ℕ)
prefix zero old = ok []
prefix (suc n) [] = panic
prefix (suc n) (x ∷ old) = do rest ← prefix n old; ok (x ∷ rest)

-- `copy_from_slice`: both sides must be of the same length.
unfoldable pub copy_from_slice : List ℕ → List ℕ → Outcome StdError (List ℕ)
copy_from_slice [] [] = ok []
copy_from_slice [] (x ∷ src) = panic
copy_from_slice (y ∷ dst) [] = panic
copy_from_slice (y ∷ dst) (x ∷ src) = do rest ← copy_from_slice dst src; ok (x ∷ rest)

-- `new[offset..].copy_from_slice(src)`
unfoldable pub copy_at : ℕ → List ℕ → List ℕ → Outcome StdError (List ℕ)
copy_at zero dst src = copy_from_slice dst src
copy_at (suc offset) [] src = panic
copy_at (suc offset) (y ∷ dst) src = do rest ← copy_at offset dst src; ok (y ∷ rest)

-- One of the two copies: `new[n..].copy_from_slice(&old[0..len - n])`, with `len` that of `new`.
unfoldable pub shift : ℕ → ℕ → List ℕ → Outcome StdError (List ℕ)
shift n len old = do kept ← sub len n; src ← prefix kept old; copy_at n (zeros len) src

module _ (dec : Decimals) where
  -- The values of the accumulator `k` steps after `start`.
  unfoldable pub checkpoint : Accumulator → ℕ → ℕ → ℕ → Outcome StdError (ℕ × ℕ)
  checkpoint acc step start k = do
    passed ← mul u64_max k step
    secs ← add u64_max start passed
    time ← mul u64_max secs (10 ^ 9)
    twaps_at dec acc time

  -- The loop over `i in 0..last_copied`; `k` is `last_copied - i`. It writes the indices in order,
  -- so it walks along both vectors, and an index past the end of one panics.
  unfoldable pub fill :
      Accumulator → ℕ → ℕ → ℕ → List ℕ → List ℕ → Outcome StdError (List ℕ × List ℕ)
  fill acc step start zero as' bs = ok (as', bs)
  fill acc step start (suc k) (x ∷ as') (y ∷ bs) = do
    (a, b) ← checkpoint acc step start (suc k)
    (as'', bs'') ← fill acc step start k as' bs
    ok (a ∷ as'', b ∷ bs'')
  fill acc step start (suc k) _ _ = panic

  -- With fewer than 32 new checkpoints, the entries that are still valid are copied.
  unfoldable pub copy_and_fill :
      Prices → Accumulator → ℕ → ℕ → ℕ → ℕ → Outcome StdError (List ℕ × List ℕ)
  copy_and_fill old acc step last_update n len = do
    as' ← shift n len old.twap_a_per_b
    bs ← shift n len old.twap_b_per_a
    fill acc step last_update n as' bs

  -- Otherwise none is valid.
  unfoldable pub fill_all : Accumulator → ℕ → ℕ → ℕ → Outcome StdError (List ℕ × List ℕ)
  fill_all acc step latest_checkpoint len = do
    oldest ← sub latest_checkpoint (step * buffer_depth)
    fill acc step oldest buffer_depth (zeros len) (zeros len)

  -- `Prices::accumulate`. The vectors of `new_prices` start out empty, so they are always resized.
  -- The number of new checkpoints is below 2 ^ 32 for the times of a chain, so `as usize` keeps it.
  unfoldable pub accumulate : Prices → ℕ → ℕ → Accumulator → ℕ → Outcome StdError Prices
  accumulate old last_update latest_checkpoint acc step = do
    passed ← sub latest_checkpoint last_update
    n ← div passed step
    let len = min buffer_depth (length old.twap_a_per_b + n)
    (as', bs) ←
        if ltb n buffer_depth
        then copy_and_fill old acc step last_update n len
        else fill_all acc step latest_checkpoint len
    ok (record { twap_a_per_b = as'; twap_b_per_a = bs })

unfoldable pub calc_checkpoint : ℕ → ℕ → ℕ → Outcome StdError (Option ℕ)
calc_checkpoint last_update now step = do
  passed ← sub (seconds now) last_update
  steps ← div passed step
  ok (if steps == 0 then none else some (last_update + steps * step))
