-- ===== src/Pool/Curve/Offer.antt =====
-- The reverse quote of the constant product pool: `compute_offer_amount`.
use native.Mathlib.Nat.{lt-div-mul-add, div-mul-le_self}
use whelp_contracts.Prelude.{ℕ, ◌+◌, ◌-◌, ◌*◌, ◌/◌, ◌≤◌, ◌<◌, ◌≡◌, arith}
use whelp_contracts.Outcome.{ok}
use whelp_contracts.Num.{Decimals}
use whelp_contracts.Pool.Curve.{OfferAmounts, before_commission, compute_offer_amount}

module _ (dec : Decimals) where
  offer_steps :
      (o a x rate : ℕ) {r : OfferAmounts}
      → compute_offer_amount dec o a x rate ≡ ok r
      → (before : ℕ) × (before_commission dec x rate ≡ ok before)
        × (before < a)
        × (r.offer_amount + o ≡ dec.multiply_ratio (o * a) 1 (a - before))
  unfolding compute_offer_amount
  offer_steps o a x rate h = ground arith

  -- If `compute_offer_amount` gives a result, the ask amount with the commission on top is below
  -- the ask pool, and the offer is the largest number for which the offer pool with the offer,
  -- times the ask pool less the ask amount with the commission, is at most the old product of the
  -- pools.
  pub compute_offer_amount_tight :
      (o a x rate : ℕ) {r : OfferAmounts}
      → compute_offer_amount dec o a x rate ≡ ok r
      → (before : ℕ) × (before_commission dec x rate ≡ ok before)
        × (before < a)
        × ((o + r.offer_amount) * (a - before) ≤ o * a)
        × (o * a < (o + r.offer_amount + 1) * (a - before))
  compute_offer_amount_tight o a x rate {r} h =
      let (before, eb, below, e) = offer_steps o a x rate h in
      let q = o * a * 1 / (a - before) in
      let whole : o + r.offer_amount ≡ q =
        omega (arith, e, dec.multiply_ratio_lem (o * a) 1 (a - before)) in
      (
        before,
        eb,
        below,
        rw whole (omega (arith, div-mul-le_self (o * a * 1) (a - before))),
        rw whole (omega (arith, lt-div-mul-add {a = o * a * 1} {b = a - before} (omega arith))),
      )
