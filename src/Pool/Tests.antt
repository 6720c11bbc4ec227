-- ===== src/Pool/Tests.antt =====
-- Quotes of the constant product pool on concrete balances.
pub mod Handlers
use whelp_contracts.Prelude.{ℕ, ◌+◌, ◌-◌, ◌*◌, ◌^◌, ◌≤◌, ◌<◌, ◌≡◌, refl, arith}
use whelp_contracts.Outcome.{ok, value_or}
use whelp_contracts.Num.{floors}
use whelp_contracts.Dex.Asset.{check_swap_parameters}
use whelp_contracts.Pool.Curve.{
  SwapAmounts, OfferAmounts, compute_swap, before_commission, compute_offer_amount,
}
use whelp_contracts.Pool.Curve.Laws.{swap_keeps_product, compute_swap_total}
use whelp_contracts.Pool.Curve.Offer.{compute_offer_amount_tight}

-- A swap of 100 into balances of 1000 and 2000, with a fee of 1 %.
abbrev swapped : SwapAmounts
swapped =
    value_or (compute_swap floors 1000 2000 100 (10 ^ 16))
      (record { return_amount = 0; spread_amount = 0; commission_amount = 0 })

swaps : compute_swap floors 1000 2000 100 (10 ^ 16) ≡ ok swapped
unfolding compute_swap check_swap_parameters
swaps = refl

compute_swap_total_example :
    (r : SwapAmounts) × (compute_swap floors 1000 2000 100 (10 ^ 16) ≡ ok r)
compute_swap_total_example =
    compute_swap_total floors 1000 2000 100 (10 ^ 16) (omega arith) (omega arith) (omega arith)
      (omega arith) (omega arith) (omega arith)

-- What must be offered for 180 of the ask asset.
abbrev offered : OfferAmounts
offered =
    value_or (compute_offer_amount floors 1000 2000 180 (10 ^ 16))
      (record { offer_amount = 0; spread_amount = 0; commission_amount = 0 })

offers : compute_offer_amount floors 1000 2000 180 (10 ^ 16) ≡ ok offered
unfolding compute_offer_amount before_commission check_swap_parameters
offers = refl

compute_offer_amount_tight_example :
    (before : ℕ) × (before_commission floors 180 (10 ^ 16) ≡ ok before)
    × (before < 2000)
    × ((1000 + offered.offer_amount) * (2000 - before) ≤ 1000 * 2000)
    × (1000 * 2000 < (1000 + offered.offer_amount + 1) * (2000 - before))
compute_offer_amount_tight_example =
    compute_offer_amount_tight floors 1000 2000 180 (10 ^ 16) offers
