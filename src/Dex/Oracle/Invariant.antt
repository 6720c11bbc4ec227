-- ===== src/Dex/Oracle/Invariant.antt =====
-- packages/dex/src/oracle.rs: the invariant of the oracle's storage, over every sequence of prices.
use native.Mathlib.Nat.{div-mul-le_self, lt-div-mul-add, mul-div_left, mul-le-mul}
use whelp_contracts.Prelude.{
  ℕ, ◌+◌, ◌-◌, ◌*◌, ◌/◌, ◌≤◌, ◌<◌, ◌≡◌, refl, inl, inr, Option, none, some, List, [], ◌∷◌, length,
  arith, ap, sym, subst, ◌∙◌, ◌==◌, false, Bool-cases, Option-cases,
}
use whelp_contracts.Outcome.{Outcome, ok, >>=-eq-ok, ◌>>=◌, ok_or}
use whelp_contracts.Num.{Decimals}
use whelp_contracts.Dex.Error.{StdError, not_found}
use whelp_contracts.Dex.Oracle.{
  Accumulator, LastUpdates, Prices, OracleStore, new_accumulator, update_accumulator, seconds,
  minute, half_hour, six_hours, buffer_depth,
}
use whelp_contracts.Dex.Oracle.Buffer.{accumulate, calc_checkpoint}
use whelp_contracts.Dex.Oracle.Shift.{accumulate-Shifted}
use whelp_contracts.Dex.Oracle.Store.{initialize_oracle, update_period, store_oracle_price}

-- A stored buffer: two vectors of the same length, of at most 32 entries.
abbrev pub IsBuffer : Option Prices → Type 0
IsBuffer none = ⊥
IsBuffer (some p) =
    (length p.twap_a_per_b ≡ length p.twap_b_per_a) × (length p.twap_a_per_b ≤ buffer_depth)

-- The last checkpoint of a period is not in the future, and the next one is.
abbrev pub InTime : ℕ → ℕ → ℕ → Type 0
InTime step last now = (last ≤ seconds now) × (seconds now < last + step)

-- The storage after a price was stored at a time.
abbrev pub IsCurrent : ℕ → ℕ → OracleStore → Type 0
IsCurrent now price s =
    (u : LastUpdates) × (s.last_updates ≡ some u)
    × (u.accumulator.snapshot ≡ now)
    × (u.accumulator.last_price ≡ price)
    × InTime minute u.minutes now
    × InTime half_hour u.half_hours now
    × InTime six_hours u.six_hours now
    × IsBuffer s.last_minutes_prices
    × IsBuffer s.last_half_hour_prices
    × IsBuffer s.last_six_hour_prices

-- `calc_checkpoint` gives the last checkpoint that is not in the future, if it is a new one.
abbrev pub IsCheckpoint : ℕ → ℕ → ℕ → Option ℕ → Type 0
IsCheckpoint last now step none = InTime step last now
IsCheckpoint last now step (some c) =
    InTime step c now × (last < c) × ((c - last) / step * step ≡ c - last)

step_bounds : (d step : ℕ) → 0 < step → (d / step * step ≤ d) × (d < d / step * step + step)
step_bounds d step pos = (div-mul-le_self d step, lt-div-mul-add pos)

pos_mul : (a b : ℕ) → 0 < a → 0 < b → 0 < a * b
pos_mul a b h k = omega (arith, mul-le-mul h k)

-- If `calc_checkpoint` gives a result for a step above zero, then where it is none the last update
-- is the last checkpoint before now, and otherwise it is the last checkpoint before now, later than
-- the last update, and a whole number of steps after it.
pub calc_checkpoint-IsCheckpoint :
    (last now step : ℕ) (r : Option ℕ)
    → 0 < step
    → calc_checkpoint last now step ≡ ok r
    → IsCheckpoint last now step r
unfolding calc_checkpoint
calc_checkpoint-IsCheckpoint last now step none pos h =
    let d = seconds now - last in ground (arith, step_bounds d step pos)
calc_checkpoint-IsCheckpoint last now step (some c) pos h =
    let d = seconds now - last in
    let n = d / step in
    let whole : n * step / step ≡ n = mul-div_left n pos in
    let steps : (last ≤ seconds now) × (0 < n) × (c ≡ last + n * step) = ground arith in
    let (le, new, e) = steps in
    let (low, high) = step_bounds d step pos in
    let passed : c - last ≡ n * step = omega (arith, e) in
    (
      (omega (arith, e, low), omega (arith, e, high)),
      omega (arith, e, pos_mul n step new pos),
      rw passed (ap (λ k. k * step) whole),
    )

ok_injective : {a b : OracleStore} → ◌≡◌ {A = Outcome StdError OracleStore} (ok a) (ok b) → a ≡ b
ok_injective h = cc

module _ (dec : Decimals) where
  accumulate-IsBuffer :
      (old : Prices) (last latest : ℕ) (acc : Accumulator) (step : ℕ) (new : Prices)
      → accumulate dec old last latest acc step ≡ ok new
      → IsBuffer (some new)
  accumulate-IsBuffer old last latest acc step new h =
      elim (accumulate-Shifted dec old last latest acc step new h) [
        | inl (few, (la, lb, r, pa, pb)) ↦ (la ∙ sym lb, omega (arith, la))
        | inr (many, (la, lb, r)) ↦ (la ∙ sym lb, omega (arith, la))
      ]

  update_period_lem :
      (acc : Accumulator) (now step last : ℕ) (stored : Option Prices) (r : ℕ × Option Prices)
      → 0 < step
      → IsBuffer stored
      → update_period dec acc now step last stored ≡ ok r
      → InTime step (r.0) now × IsBuffer (r.1)
  unfolding update_period
  update_period_lem acc now step last stored r pos b h =
      let (reached, ec, h') = >>=-eq-ok (calc_checkpoint last now step) _ h in
      let c = calc_checkpoint-IsCheckpoint last now step reached pos ec in
      elim (Option-cases reached) [
        | inl e ↦
            let c' = subst (IsCheckpoint last now step) e c in
            let h'' : (r.0 ≡ last) × (r.1 ≡ stored) = ground (arith, h', e) in
            (rw (h''.0) c', rw (h''.1) b)
        | inr (latest, e) ↦
            let c' = subst (IsCheckpoint last now step) e c in
            let h2 = rw e at h' in
            let (old, eo, h3) = >>=-eq-ok (ok_or stored not_found) _ h2 in
            let (new, ea, h4) = >>=-eq-ok (accumulate dec old last latest acc step) _ h3 in
            let ends : (r.0 ≡ latest) × (r.1 ≡ some new) = ground (arith, h4) in
            (rw (ends.0) (c'.0), rw (ends.1) (accumulate-IsBuffer old last latest acc step new ea))
      ]

  update_accumulator_lem :
      (acc : Accumulator) (now price : ℕ) (acc' : Accumulator)
      → update_accumulator dec acc now price ≡ ok acc'
      → (acc'.snapshot ≡ now) × (acc'.last_price ≡ price)
  unfolding update_accumulator
  update_accumulator_lem acc now price acc' h = ground arith

  -- The part of `store_oracle_price` for a later block.
  later_steps :
      (s s' : OracleStore) (now price : ℕ) (u : LastUpdates)
      → s.last_updates ≡ some u
      → (now == u.accumulator.snapshot) ≡ false
      → store_oracle_price dec s now price ≡ ok s'
      → (a : ℕ × Option Prices) × (b : ℕ × Option Prices) × (c : ℕ × Option Prices)
        × (acc : Accumulator) × (update_period dec u.accumulator now minute u.minutes
              s.last_minutes_prices
            ≡ ok a)
        × (update_period dec u.accumulator now half_hour u.half_hours s.last_half_hour_prices
            ≡ ok b)
        × (update_period dec u.accumulator now six_hours u.six_hours s.last_six_hour_prices ≡ ok c)
        × (update_accumulator dec u.accumulator now price ≡ ok acc)
        × ((record {
          last_updates =
              some (record { accumulator = acc; minutes = a.0; half_hours = b.0; six_hours = c.0 });
          last_minutes_prices = a.1;
          last_half_hour_prices = b.1;
          last_six_hour_prices = c.1;
        })
            ≡ s')
  unfolding store_oracle_price
  later_steps s s' now price u e later h =
      let h1 = rw (e, later) at h in
      let (a, ea, h2) =
        >>=-eq-ok (update_period dec u.accumulator now minute u.minutes s.last_minutes_prices) _
          h1 in
      let (b, eb, h3) =
        >>=-eq-ok
          (update_period dec u.accumulator now half_hour u.half_hours s.last_half_hour_prices) _
          h2 in
      let (c, ec, h4) =
        >>=-eq-ok (update_period dec u.accumulator now six_hours u.six_hours s.last_six_hour_prices)
          _ h3 in
      let (acc, eacc, h5) = >>=-eq-ok (update_accumulator dec u.accumulator now price) _ h4 in
      (a, b, c, acc, ea, eb, ec, eacc, ok_injective h5)

  -- If the storage is that after a price at a time, and `store_oracle_price` succeeds with a price
  -- at another time, the storage is that after the new price: the accumulator holds the new time and
  -- price, each of the three last checkpoints is the last one that is not in the future, and each
  -- buffer is two vectors of the same length, of at most 32 entries.
  pub store_oracle_price-IsCurrent :
      (s s' : OracleStore) (before now old_price price : ℕ)
      → IsCurrent before old_price s
      → store_oracle_price dec s now price ≡ ok s'
      → IsCurrent now price s'
  unfolding store_oracle_price
  store_oracle_price-IsCurrent s s' before now old_price price
        (u, e, snap, last, tm, th, ts, bm, bh, bs) h =
      elim (Bool-cases (now == u.accumulator.snapshot)) [
        | inl same ↦
            let t : before ≡ now = ground (arith, same, snap) in
            let h1 = rw (e, same) at h in
            subst (IsCurrent now price) (ok_injective h1)
              (_, refl, snap ∙ t, refl, rw (sym t) tm, rw (sym t) th, rw (sym t) ts, bm, bh, bs)
        | inr later ↦
            let (a, b, c, acc, ea, eb, ec, eacc, es) = later_steps s s' now price u e later h in
            let (im, jm) =
              update_period_lem u.accumulator now minute u.minutes _ a (omega arith) bm ea in
            let (ih, jh) =
              update_period_lem u.accumulator now half_hour u.half_hours _ b (omega arith) bh eb in
            let (ix, jx) =
              update_period_lem u.accumulator now six_hours u.six_hours _ c (omega arith) bs ec in
            let (now', price') = update_accumulator_lem u.accumulator now price acc eacc in
            subst (IsCurrent now price) es (_, refl, now', price', im, ih, ix, jm, jh, jx)
      ]

-- The last entry of a sequence.
abbrev pub latest : ℕ × ℕ → List (ℕ × ℕ) → ℕ × ℕ
latest entry [] = entry
latest entry (e ∷ later) = latest e later

module _ (dec : Decimals) where
  -- A sequence of prices, each with its time in nanoseconds.
  unfoldable pub store_all : OracleStore → List (ℕ × ℕ) → Outcome StdError OracleStore
  store_all s [] = ok s
  store_all s ((now, price) ∷ later) = do
    s' ← store_oracle_price dec s now price
    store_all s' later

  history-IsCurrent :
      (s s' : OracleStore) (entry : ℕ × ℕ) (entries : List (ℕ × ℕ))
      → IsCurrent (entry.0) (entry.1) s
      → store_all s entries ≡ ok s'
      → IsCurrent ((latest entry entries).0) ((latest entry entries).1) s'
  unfolding store_all
  history-IsCurrent s s' entry [] c h = subst (IsCurrent (entry.0) (entry.1)) (ok_injective h) c
  history-IsCurrent s s' entry ((now, price) ∷ later) c h =
      let (mid, e, h') = >>=-eq-ok (store_oracle_price dec s now price) _ h in
      history-IsCurrent mid s' (now, price) later
        (store_oracle_price-IsCurrent dec s mid (entry.0) now (entry.1) price c e) h'

  -- If `initialize_oracle` and then any sequence of `store_oracle_price` succeed, the accumulator
  -- holds the time and the price of the last of these calls, each of the three last checkpoints is
  -- the last one of its period that is not in the future at that time, and each buffer is two
  -- vectors of the same length, of at most 32 entries.
  pub initialize_oracle-IsCurrent :
      (now price : ℕ) (entries : List (ℕ × ℕ)) (s : OracleStore)
      → store_all (initialize_oracle now price) entries ≡ ok s
      → IsCurrent ((latest (now, price) entries).0) ((latest (now, price) entries).1) s
  unfolding initialize_oracle new_accumulator
  initialize_oracle-IsCurrent now price entries s h =
      history-IsCurrent (initialize_oracle now price) s (now, price) entries
        (
          _,
          refl,
          refl,
          refl,
          (omega arith, omega arith),
          (omega arith, omega arith),
          (omega arith, omega arith),
          (refl, omega arith),
          (refl, omega arith),
          (refl, omega arith),
        )
        h
