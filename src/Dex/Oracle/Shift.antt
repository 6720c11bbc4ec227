-- ===== src/Dex/Oracle/Shift.antt =====
-- packages/dex/src/oracle.rs: what `Prices::accumulate` writes to a buffer, checkpoint by checkpoint.
use whelp_contracts.Prelude.{
  ℕ, zero, suc, ◌+◌, ◌-◌, ◌*◌, ◌/◌, ◌≤◌, ◌<◌, ◌≡◌, refl, ◌⊎◌, inl, inr, List, [], ◌∷◌, length, min,
  arith, ap, sym, subst, ◌∙◌,
}
use whelp_contracts.Outcome.{ok, >>=-eq-ok}
use whelp_contracts.Num.{Decimals, sub}
use whelp_contracts.Dex.Error.{StdError}
use whelp_contracts.Dex.Oracle.{Accumulator, Prices, buffer_depth}
use whelp_contracts.Dex.Oracle.Buffer.{
  zeros, prefix, copy_from_slice, copy_at, shift, checkpoint, fill, copy_and_fill, fill_all,
  accumulate,
}

abbrev pub drop : ℕ → List ℕ → List ℕ
drop zero xs = xs
drop (suc n) [] = []
drop (suc n) (x ∷ xs) = drop n xs

length-zeros : (n : ℕ) → length (zeros n) ≡ n
unfolding zeros
length-zeros zero = refl
length-zeros (suc n) = ap suc (length-zeros n)

copy_from_slice_lem :
    (dst src out : List ℕ)
    → copy_from_slice dst src ≡ ok out
    → (out ≡ src) × (length out ≡ length dst)
unfolding copy_from_slice
copy_from_slice_lem [] [] out h = ground arith
copy_from_slice_lem [] (x ∷ src) out h = ground arith
copy_from_slice_lem (y ∷ dst) [] out h = ground arith
copy_from_slice_lem (y ∷ dst) (x ∷ src) out h =
    let (rest, e, h') = >>=-eq-ok (copy_from_slice dst src) _ h in
    let (same, len) = copy_from_slice_lem dst src rest e in ground (arith, h', same, len)

copy_at_lem :
    (n : ℕ) (dst src out : List ℕ)
    → copy_at n dst src ≡ ok out
    → (drop n out ≡ src) × (length out ≡ length dst)
unfolding copy_at
copy_at_lem zero dst src out h = copy_from_slice_lem dst src out h
copy_at_lem (suc n) [] src out h = ground arith
copy_at_lem (suc n) (y ∷ dst) src out h =
    let (rest, e, h') = >>=-eq-ok (copy_at n dst src) _ h in
    let (same, len) = copy_at_lem n dst src rest e in ground (arith, h', same, len)

sub_lem : (a b c : ℕ) → sub {E = StdError} a b ≡ ok c → (b ≤ a) × (c ≡ a - b)
sub_lem a b c h = ground arith

shift_lem :
    (n len : ℕ) (old out : List ℕ)
    → shift n len old ≡ ok out
    → (n ≤ len) × (length out ≡ len) × (prefix (len - n) old ≡ ok (drop n out))
unfolding shift
shift_lem n len old out h =
    let (kept, ek, hk) = >>=-eq-ok (sub len n) _ h in
    let (src, es, hs) = >>=-eq-ok (prefix kept old) _ hk in
    let (same, long) = copy_at_lem n (zeros len) src out hs in
    let (le, e) = sub_lem len n kept ek in (le, long ∙ length-zeros len, rw (sym e, same) es)

module _ (dec : Decimals) (acc : Accumulator) (step start : ℕ) where
  -- The first `k` entries are the values of the accumulator `k`, `k - 1`, ... steps after `start`.
  abbrev pub Filled : ℕ → List ℕ → List ℕ → Type 0
  Filled zero as' bs = Unit
  Filled (suc k) (a ∷ as') (b ∷ bs) =
      (checkpoint dec acc step start (suc k) ≡ ok (a, b)) × Filled k as' bs
  Filled (suc k) _ _ = ⊥

  -- `fill` writes the first `k` entries and no other.
  abbrev pub Fills : ℕ → List ℕ → List ℕ → List ℕ × List ℕ → Type 0
  Fills k as' bs out =
      (length (out.0) ≡ length as')
      × (length (out.1) ≡ length bs)
      × Filled k (out.0) (out.1)
      × (drop k (out.0) ≡ drop k as')
      × (drop k (out.1) ≡ drop k bs)

  fill-Fills :
      (k : ℕ) (as' bs : List ℕ) (out : List ℕ × List ℕ)
      → fill dec acc step start k as' bs ≡ ok out
      → Fills k as' bs out
  unfolding fill
  fill-Fills zero as' bs out h = ground arith
  fill-Fills (suc k) [] bs out h = ground arith
  fill-Fills (suc k) (x ∷ as') [] out h = ground arith
  fill-Fills (suc k) (x ∷ as') (y ∷ bs) out h =
      let (c, ec, hc) = >>=-eq-ok (checkpoint dec acc step start (suc k)) _ h in
      let (rest, er, hr) = >>=-eq-ok (fill dec acc step start k as' bs) _ hc in
      let (la, lb, f, da, db) = fill-Fills k as' bs rest er in
      let e : (c.0 ∷ rest.0, c.1 ∷ rest.1) ≡ out = ground (arith, hr) in
      subst (Fills (suc k) (x ∷ as') (y ∷ bs)) e (ap suc la, ap suc lb, (ec, f), da, db)

-- What `Prices::accumulate` may give when fewer than 32 checkpoints are new: the new ones come first,
-- newest first, and the old entries follow as far as there is room for them.
abbrev pub Shifted : Decimals → Prices → ℕ → ℕ → Accumulator → ℕ → Prices → Type 0
Shifted dec old last n acc step new =
    let len = min buffer_depth (length old.twap_a_per_b + n) in
    (length new.twap_a_per_b ≡ len)
    × (length new.twap_b_per_a ≡ len)
    × Filled dec acc step last n new.twap_a_per_b new.twap_b_per_a
    × (prefix (len - n) old.twap_a_per_b ≡ ok (drop n new.twap_a_per_b))
    × (prefix (len - n) old.twap_b_per_a ≡ ok (drop n new.twap_b_per_a))

-- And when 32 or more are new: all entries are.
abbrev pub Refilled : Decimals → ℕ → Accumulator → ℕ → Prices → Type 0
Refilled dec latest acc step new =
    (length new.twap_a_per_b ≡ buffer_depth)
    × (length new.twap_b_per_a ≡ buffer_depth)
    × Filled dec acc step (latest - step * buffer_depth) buffer_depth new.twap_a_per_b
        new.twap_b_per_a

module _ (dec : Decimals) where
  shifted_steps :
      (old : Prices) (last n len : ℕ) (acc : Accumulator) (step : ℕ) (out : List ℕ × List ℕ)
      → copy_and_fill dec old acc step last n len ≡ ok out
      → (length (out.0) ≡ len)
        × (length (out.1) ≡ len)
        × Filled dec acc step last n (out.0) (out.1)
        × (prefix (len - n) old.twap_a_per_b ≡ ok (drop n (out.0)))
        × (prefix (len - n) old.twap_b_per_a ≡ ok (drop n (out.1)))
  unfolding copy_and_fill
  shifted_steps old last n len acc step out h =
      let (as', ea, ha) = >>=-eq-ok (shift n len old.twap_a_per_b) _ h in
      let (bs, eb, hb) = >>=-eq-ok (shift n len old.twap_b_per_a) _ ha in
      let (na, la, pa) = shift_lem n len old.twap_a_per_b as' ea in
      let (nb, lb, pb) = shift_lem n len old.twap_b_per_a bs eb in
      let (fa, fb, f, da, db) = fill-Fills dec acc step last n as' bs out hb in
      (fa ∙ la, fb ∙ lb, f, pa ∙ ap ok (sym da), pb ∙ ap ok (sym db))

  refilled_steps :
      (latest len : ℕ) (acc : Accumulator) (step : ℕ) (out : List ℕ × List ℕ)
      → fill_all dec acc step latest len ≡ ok out
      → (length (out.0) ≡ len)
        × (length (out.1) ≡ len)
        × Filled dec acc step (latest - step * buffer_depth) buffer_depth (out.0) (out.1)
  unfolding fill_all
  refilled_steps latest len acc step out h =
      let (oldest, eo, ho) = >>=-eq-ok (sub latest (step * buffer_depth)) _ h in
      let (fa, fb, f, da, db) =
        fill-Fills dec acc step oldest buffer_depth (zeros len) (zeros len) out ho in
      let (le, e) = sub_lem latest (step * buffer_depth) oldest eo in
      (
        fa ∙ length-zeros len,
        fb ∙ length-zeros len,
        subst (λ t. Filled dec acc step t buffer_depth (out.0) (out.1)) e f,
      )

  accumulate_cases :
      (old : Prices) (last latest : ℕ) (acc : Accumulator) (step : ℕ) (new : Prices)
      → accumulate dec old last latest acc step ≡ ok new
      → let n = (latest - last) / step in
        let len = min buffer_depth (length old.twap_a_per_b + n) in
        ((n < buffer_depth)
          × (copy_and_fill dec old acc step last n len ≡ ok (new.twap_a_per_b, new.twap_b_per_a)))
        ⊎ ((buffer_depth ≤ n)
            × (len ≡ buffer_depth)
            × (fill_all dec acc step latest len ≡ ok (new.twap_a_per_b, new.twap_b_per_a)))
  unfolding accumulate
  accumulate_cases old last latest acc step new h = ground arith

  -- If `Prices::accumulate` gives a result, then with fewer than 32 new checkpoints the new buffer
  -- starts with the values of the accumulator at the new checkpoints, newest first, and goes on
  -- with the old entries, cut at 32 entries in all; with 32 or more it holds the values of the
  -- accumulator at the last 32 checkpoints.
  pub accumulate-Shifted :
      (old : Prices) (last latest : ℕ) (acc : Accumulator) (step : ℕ) (new : Prices)
      → accumulate dec old last latest acc step ≡ ok new
      → (((latest - last) / step < buffer_depth)
          × Shifted dec old last ((latest - last) / step) acc step new)
        ⊎ ((buffer_depth ≤ (latest - last) / step) × Refilled dec latest acc step new)
  accumulate-Shifted old last latest acc step new h =
      let n = (latest - last) / step in
      let len = min buffer_depth (length old.twap_a_per_b + n) in
      elim (accumulate_cases old last latest acc step new h) [
        | inl (few, e) ↦ inl (few, shifted_steps old last n len acc step _ e)
        | inr (many, full, e) ↦
            let (la, lb, f) = refilled_steps latest len acc step _ e in
            inr (many, (la ∙ full, lb ∙ full, f))
      ]
