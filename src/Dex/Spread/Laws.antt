-- ===== src/Dex/Spread/Laws.antt =====
-- What the spread check guarantees, and that a withdrawal takes no more than its share.
use native.Mathlib.Nat.{
  lt-div-mul-add, div-mul-le_self, mul-le-mul_left, mul-le-mul_right, le_of_mul-le-mul_right,
}
use whelp_contracts.Prelude.{
  ℕ, ◌+◌, ◌-◌, ◌*◌, ◌/◌, ◌≤◌, ◌<◌, ◌≡◌, ◌⊎◌, inl, inr, Option, some, none, List, [], ◌∷◌, unwrap_or,
  arith,
}
use whelp_contracts.Outcome.{ok, Post, Post-ok}
use whelp_contracts.Num.{Decimals, one}
use whelp_contracts.Dex.Asset.{AssetValidated}
use whelp_contracts.Dex.Spread.{
  check_expected_return, assert_max_spread, share_of, get_share_in_assets, default_slippage,
  max_allowed_slippage,
}

ℕ-order : (a b : ℕ) → (a < b) ⊎ (b ≤ a)
ℕ-order a b = ground arith

-- A floor of `n * one / d` that is at most `m` bounds `n` itself.
floor_bound : (n d m : ℕ) → 0 < d → n * one / d ≤ m → n * one < m * d + d
floor_bound n d m pos h =
    omega (arith, lt-div-mul-add {a = n * one} {b = d} pos, mul-le-mul_right d h)

module _ (dec : Decimals) where
  expected_steps :
      (limit e r : ℕ)
      → check_expected_return dec limit e r ≡ ok tt
      → r < e
      → dec.from_ratio (e - r) e ≤ limit
  unfolding check_expected_return
  expected_steps limit e r h lt = ground arith

  expected_bound :
      (limit e r : ℕ)
      → check_expected_return dec limit e r ≡ ok tt
      → (e - r) * one ≤ (limit + 1) * e
  expected_bound limit e r h = elim (ℕ-order r e) [
    | inl lt ↦ omega (
      arith,
      floor_bound (e - r) e limit (omega arith)
          (omega (arith, expected_steps limit e r h lt, dec.from_ratio_lem (e - r) e)),
    )
    | inr ge ↦ omega arith
  ]

  belief_steps :
      (price : ℕ) (max_spread : Option ℕ) (offer ret spread : ℕ)
      → assert_max_spread dec (some price) max_spread offer ret spread ≡ ok tt
      → (unwrap_or max_spread default_slippage ≤ max_allowed_slippage)
        × (0 < price)
        × (check_expected_return dec
              (unwrap_or max_spread default_slippage)
              (dec.mul_floor offer (dec.inv price))
              ret
            ≡ ok tt)
  unfolding assert_max_spread
  belief_steps price max_spread offer ret spread h = ground arith

  spread_steps :
      (max_spread : Option ℕ) (offer ret spread : ℕ)
      → assert_max_spread dec none max_spread offer ret spread ≡ ok tt
      → (unwrap_or max_spread default_slippage ≤ max_allowed_slippage)
        × (0 < ret + spread)
        × (dec.from_ratio spread (ret + spread) ≤ unwrap_or max_spread default_slippage)
  unfolding assert_max_spread
  spread_steps max_spread offer ret spread h = ground arith

  pub assert_max_spread_belief :
      (price : ℕ) (max_spread : Option ℕ) (offer ret spread : ℕ)
      → assert_max_spread dec (some price) max_spread offer ret spread ≡ ok tt
      → (unwrap_or max_spread default_slippage ≤ max_allowed_slippage)
        × ((offer * (one * one / price) / one - ret) * one
            ≤ (unwrap_or max_spread default_slippage + 1) * (offer * (one * one / price) / one))
  assert_max_spread_belief price max_spread offer ret spread h =
      let limit = unwrap_or max_spread default_slippage in
      let (allowed, pos, checked) = belief_steps price max_spread offer ret spread h in
      let e = offer * (one * one / price) / one in
      let same : dec.mul_floor offer (dec.inv price) ≡ e = rw (dec.mul_floor_lem, dec.inv_lem) in
      let checked' : check_expected_return dec limit e ret ≡ ok tt = rw same at checked in
      (allowed, expected_bound limit e ret checked')

  assert_max_spread_default :
      (max_spread : Option ℕ) (offer ret spread : ℕ)
      → assert_max_spread dec none max_spread offer ret spread ≡ ok tt
      → (unwrap_or max_spread default_slippage ≤ max_allowed_slippage)
        × (spread * one < (unwrap_or max_spread default_slippage + 1) * (ret + spread))
  assert_max_spread_default max_spread offer ret spread h =
      let (allowed, pos, le) = spread_steps max_spread offer ret spread h in
      (
        allowed,
        omega (
          arith,
          floor_bound spread (ret + spread) (unwrap_or max_spread default_slippage) pos
              (omega (arith, le, dec.from_ratio_lem spread (ret + spread))),
        ),
      )

-- Asset by asset the same token, and no more of it than `amount / total_share` of the pool.
abbrev pub Fair : ℕ → ℕ → List AssetValidated → List AssetValidated → Type 0
Fair amount total_share [] [] = Unit
Fair amount total_share (p ∷ pools) (q ∷ shares) =
    (q.info ≡ p.info)
    × (q.amount * total_share ≤ p.amount * amount)
    × Fair amount total_share pools shares
Fair amount total_share _ _ = ⊥

part_of_share : (p amount total k : ℕ) → k * total ≤ amount * one → p * k / one * total ≤ p * amount
part_of_share p amount total k h =
    let q = p * k / one in
    le_of_mul-le-mul_right {m = q * total} {n = p * amount} {k = one}
      (omega (
        arith,
        mul-le-mul_right {m = q * one} {n = p * k} total (div-mul-le_self (p * k) one),
        mul-le-mul_left p h,
      ))
      (omega arith)

module _ (dec : Decimals) where
  share_of-Fair :
      (amount total k : ℕ) (pools : List AssetValidated)
      → k * total ≤ amount * one
      → Post (Fair amount total pools) (share_of dec k pools)
  unfolding share_of
  share_of-Fair amount total k [] h = tt
  share_of-Fair amount total k (p ∷ pools) h = ground (
    arith,
    share_of-Fair amount total k pools h,
    part_of_share p.amount amount total k h,
    dec.mul_floor_lem p.amount k,
  )

  shares-Fair :
      (pools : List AssetValidated) (amount total_share : ℕ)
      → 0 < total_share
      → Post (Fair amount total_share pools) (get_share_in_assets dec pools amount total_share)
  unfolding get_share_in_assets
  shares-Fair pools amount total_share pos = ground (
    arith,
    share_of-Fair amount total_share (dec.from_ratio amount total_share) pools,
    dec.from_ratio_lem amount total_share,
    div-mul-le_self (amount * one) total_share,
  )

  pub get_share_in_assets-Fair :
      (pools : List AssetValidated) (amount total_share : ℕ) {r : List AssetValidated}
      → 0 < total_share
      → get_share_in_assets dec pools amount total_share ≡ ok r
      → Fair amount total_share pools r
  get_share_in_assets-Fair pools amount total_share pos h =
      Post-ok (Fair amount total_share pools) (get_share_in_assets dec pools amount total_share)
        (shares-Fair pools amount total_share pos) h
