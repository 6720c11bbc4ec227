-- ===== src/Dex/Referral/Laws.antt =====
-- The referral commission: nothing is lost, and `add_referral` undoes `take_referral`.
use native.Mathlib.Nat.{
  lt-div-mul-add, div-mul-le_self, mul-le-mul_left, mul-le-mul_right, div-eq_of_lt-le,
}
use whelp_contracts.Prelude.{
  ℕ, ◌+◌, ◌-◌, ◌*◌, ◌/◌, ◌≤◌, ◌<◌, ◌≡◌, true, false, Option, unwrap_or, arith, ap, Bool-cases, inl,
  inr,
}
use whelp_contracts.Outcome.{ok}
use whelp_contracts.Num.{Decimals, one, u128_max}
use whelp_contracts.Dex.Asset.{AssetValidated}
use whelp_contracts.Dex.Referral.{is_waived, take_referral, commission_on_top, add_referral}

-- `c` is the floor of `t * one / m / one`.
floor_on_top : (t m c : ℕ) → 0 < m → c ≡ t * one / m / one → (c * m ≤ t) × (t < c * m + m)
floor_on_top t m c pos e =
    let d = t * one / m in
    let low : c * one * m ≤ d * m = mul-le-mul_right {m = c * one} {n = d} m (omega (arith, e)) in
    let high : (d + 1) * m ≤ (c * one + one) * m =
      mul-le-mul_right {m = d + 1} {n = c * one + one} m (omega (arith, e)) in
    (
      omega (arith, low, div-mul-le_self (t * one) m),
      omega (arith, high, lt-div-mul-add {a = t * one} {b = m} pos),
    )

-- The rate of the whole is what was put on top.
rate_of_whole :
    (a c m rate : ℕ)
    → m + rate ≡ one
    → c * m ≤ a * rate
    → a * rate < c * m + m
    → (a + c) * rate / one ≡ c
rate_of_whole a c m rate e low high =
    let split : c * (m + rate) ≡ c * one = ap (λ x. c * x) e in
    div-eq_of_lt-le one (omega (arith, split)) (omega (arith, split))

module _ (dec : Decimals) where
  pub take_referral_parts :
      (max : ℕ) (rate : Option ℕ) (offer : AssetValidated) {r : AssetValidated × ℕ}
      → take_referral dec max rate offer ≡ ok r
      → (r.0.info ≡ offer.info)
        × (r.0.amount + r.1 ≡ offer.amount)
        × (r.1 * one ≤ offer.amount * max)
  unfolding take_referral is_waived
  take_referral_parts max rate offer h = ground (
    arith,
    dec.mul_floor_lem offer.amount (unwrap_or rate max),
    div-mul-le_self (offer.amount * unwrap_or rate max) one,
    mul-le-mul_left {m = unwrap_or rate max} {n = max} offer.amount,
  )

  top_steps :
      (a rate : ℕ) {c : ℕ}
      → commission_on_top dec a rate ≡ ok c
      → (rate < one)
        × (c
            ≡ dec.mul_floor 1
                (dec.from_ratio (dec.mul_floor (dec.from_ratio a 1) rate) (one - rate)))
  unfolding commission_on_top
  top_steps a rate h = ground arith

  top_rate : (a rate : ℕ) {c : ℕ} → commission_on_top dec a rate ≡ ok c → (a + c) * rate / one ≡ c
  top_rate a rate {c} h =
      let (small, e) = top_steps a rate h in
      let whole : dec.from_ratio a 1 ≡ a * one = omega (arith, dec.from_ratio_lem a 1) in
      let t = dec.mul_floor (dec.from_ratio a 1) rate in
      let te : t ≡ a * rate =
        rw (dec.mul_floor_lem (dec.from_ratio a 1) rate, whole) (omega arith) in
      let e' : c ≡ a * rate * one / (one - rate) / one =
        rw (e, dec.mul_floor_lem 1, dec.from_ratio_lem t (one - rate), te) (omega arith) in
      let (low, high) = floor_on_top (a * rate) (one - rate) c (omega arith) e' in
      rate_of_whole a c (one - rate) rate (omega arith) low high

  add_steps :
      (max : ℕ) (rate : Option ℕ) (offer : AssetValidated) {r : AssetValidated × ℕ}
      → is_waived rate ≡ false
      → add_referral dec max true rate offer ≡ ok r
      → (unwrap_or rate max ≤ max)
        × (commission_on_top dec offer.amount (unwrap_or rate max) ≡ ok r.1)
        × (r.0.info ≡ offer.info)
        × (r.0.amount ≡ offer.amount + r.1)
        × (r.0.amount ≤ u128_max)
  unfolding add_referral
  add_steps max rate offer w h = ground arith

  take_steps :
      (max : ℕ) (rate : Option ℕ) (offer : AssetValidated)
      → is_waived rate ≡ false
      → unwrap_or rate max ≤ max
      → dec.mul_floor offer.amount (unwrap_or rate max) ≤ offer.amount
      → offer.amount ≤ u128_max
      → take_referral dec max rate offer
        ≡ ok (
          record offer { amount = offer.amount - dec.mul_floor offer.amount (unwrap_or rate max) },
          dec.mul_floor offer.amount (unwrap_or rate max),
        )
  unfolding take_referral
  take_steps max rate offer w le part fits = ground arith

  waived_steps :
      (max : ℕ) (rate : Option ℕ) (offer : AssetValidated) {r : AssetValidated × ℕ}
      → is_waived rate ≡ true
      → add_referral dec max true rate offer ≡ ok r
      → take_referral dec max rate (r.0) ≡ ok (offer, r.1)
  unfolding add_referral take_referral
  waived_steps max rate offer w h = ground arith

  charged :
      (max : ℕ) (rate : Option ℕ) (offer : AssetValidated) {r : AssetValidated × ℕ}
      → is_waived rate ≡ false
      → add_referral dec max true rate offer ≡ ok r
      → take_referral dec max rate (r.0) ≡ ok (offer, r.1)
  charged max rate offer {r} w h =
      let (le, top, info, amount, fits) = add_steps max rate offer w h in
      let part : dec.mul_floor (r.0.amount) (unwrap_or rate max) ≡ r.1 =
        rw (dec.mul_floor_lem, amount) (top_rate offer.amount (unwrap_or rate max) top) in
      let taken = take_steps max rate (r.0) w le (omega (arith, part, amount)) fits in
      ground (arith, taken, part, amount, info)

  pub take_referral-add_referral :
      (max : ℕ) (rate : Option ℕ) (offer : AssetValidated) {r : AssetValidated × ℕ}
      → add_referral dec max true rate offer ≡ ok r
      → take_referral dec max rate (r.0) ≡ ok (offer, r.1)
  take_referral-add_referral max rate offer h = elim (Bool-cases (is_waived rate)) [
    | inl w ↦ waived_steps max rate offer w h
    | inr w ↦ charged max rate offer w h
  ]
