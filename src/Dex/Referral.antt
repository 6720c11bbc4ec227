-- ===== src/Dex/Referral.antt =====
-- packages/dex/src/pool/referral.rs: the part of an offer that goes to a referrer. `max` is the
-- `max_referral_commission` of the factory's configuration, which the source queries.
pub mod Laws
use whelp_contracts.Prelude.{
  ℕ, ◌+◌, ◌-◌, ◌*◌, ◌/◌, ◌^◌, String, Bool, true, false, not, ◌||◌, Option, none, some, List, [],
  ◌∷◌, ltb, ◌==◌, unwrap_or, if◌then◌else◌, ◌++◌,
}
use whelp_contracts.Outcome.{Outcome, ok, err, panic, ◌>>=◌, ◌>>◌, fail_if}
use whelp_contracts.Num.{Decimals, one, u128_max, u256_max, fit, add, sub, mul_decimal, ratio}
use whelp_contracts.Dex.Error.{ContractError, referral_commission_too_high}
use whelp_contracts.Dex.Asset.{AssetValidated, Msg, into_msg}

-- `referral_commission == Some(Decimal::zero())`.
unfoldable pub is_waived : Option ℕ → Bool
is_waived none = false
is_waived (some r) = r == 0

module _ (dec : Decimals) where
  -- The offer that is left, and the commission.
  unfoldable pub take_referral :
      ℕ → Option ℕ → AssetValidated → Outcome ContractError (AssetValidated × ℕ)
  take_referral max referral_commission offer =
      if is_waived referral_commission then ok (offer, 0) else do
        let rate = unwrap_or referral_commission max
        fail_if (ltb max rate) referral_commission_too_high
        commission_amount ← mul_decimal dec u128_max offer.amount rate
        left ← sub offer.amount commission_amount
        ok (record offer { amount = left }, commission_amount)

  unfoldable pub handle_referral :
      ℕ
      → Option String
      → Option ℕ
      → AssetValidated
      → List Msg
      → Outcome ContractError (AssetValidated × List Msg)
  handle_referral max none referral_commission offer messages = ok (offer, messages)
  handle_referral max (some referral_address) referral_commission offer messages = do
    r ← take_referral max referral_commission offer
    let commission : AssetValidated = record offer { amount = r.1 }
    ok (r.0, if r.1 == 0 then messages else messages ++ into_msg commission referral_address ∷ [])

  -- The commission that `add_referral` computes with 256 bits.
  unfoldable pub commission_on_top : ℕ → ℕ → Outcome ContractError ℕ
  commission_on_top amount rate = do
    a ← ratio dec u256_max amount 1
    product ← mul_decimal dec u256_max a rate
    rest ← sub one rate
    quotient ← ratio dec u256_max product rest
    n ← mul_decimal dec u256_max 1 quotient
    fit u128_max n

  unfoldable pub add_referral :
      ℕ → Bool → Option ℕ → AssetValidated → Outcome ContractError (AssetValidated × ℕ)
  add_referral max referral referral_commission offer =
      if not referral || is_waived referral_commission then ok (offer, 0) else do
        let rate = unwrap_or referral_commission max
        fail_if (ltb max rate) referral_commission_too_high
        commission_amount ← commission_on_top offer.amount rate
        total ← add u128_max offer.amount commission_amount
        ok (record offer { amount = total }, commission_amount)
