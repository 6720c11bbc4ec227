-- ===== src/Dex/Spread.antt =====
-- packages/dex/src/pool/utils.rs: the spread check of a swap, the shares of a withdrawal, and the
-- check that a token is one of the pool's; packages/dex/src/fee_config.rs: the fees of a pool.
pub mod Laws
use whelp_contracts.Prelude.{
  ℕ, ◌+◌, ◌-◌, ◌*◌, ◌/◌, ◌^◌, String, Bool, true, false, ◌&&◌, Option, none, some, List, [], ◌∷◌,
  ltb, leb, ◌==◌, str_eq, unwrap_or, if◌then◌else◌,
}
use whelp_contracts.Outcome.{Outcome, ok, err, panic, ◌>>=◌, ◌>>◌, fail_if}
use whelp_contracts.Num.{Decimals, one, u128_max, add, mul_decimal, ratio}
use whelp_contracts.Dex.Error.{
  ContractError, std, invalid_belief_price, allowed_spread_assertion, max_spread_assertion,
  unauthorized,
}
use whelp_contracts.Dex.Asset.{AssetInfoValidated, AssetValidated}

-- `DEFAULT_SLIPPAGE` (0.005) and `MAX_ALLOWED_SLIPPAGE` (0.5), in atomics.
abbrev pub default_slippage : ℕ
default_slippage = 5 * 10 ^ 15

abbrev pub max_allowed_slippage : ℕ
max_allowed_slippage = 5 * 10 ^ 17

unfoldable pub check_cw20_in_pool :
    List AssetInfoValidated → String → Outcome ContractError (Unit {0})
check_cw20_in_pool [] cw20_sender = err ContractError.unauthorized
check_cw20_in_pool (AssetInfoValidated.cw20_token a ∷ l) cw20_sender =
    let rest = check_cw20_in_pool l cw20_sender in if str_eq a cw20_sender then ok tt else rest
check_cw20_in_pool (AssetInfoValidated.smart_token d ∷ l) cw20_sender =
    check_cw20_in_pool l cw20_sender

module _ (dec : Decimals) where
  -- The test of the branch with a belief price. The order of its two conditions matters: the ratio
  -- is computed only below the expected return.
  unfoldable pub check_expected_return : ℕ → ℕ → ℕ → Outcome ContractError (Unit {0})
  check_expected_return max_spread expected_return return_amount =
      if ltb return_amount expected_return
      then (do
        r ← ratio dec u128_max (expected_return - return_amount) expected_return
        fail_if (ltb max_spread r) max_spread_assertion)
      else ok tt

  unfoldable pub assert_max_spread :
      Option ℕ → Option ℕ → ℕ → ℕ → ℕ → Outcome ContractError (Unit {0})
  assert_max_spread belief_price max_spread offer_amount return_amount spread_amount = do
    let limit = unwrap_or max_spread default_slippage
    fail_if (ltb max_allowed_slippage limit) allowed_spread_assertion
    elim belief_price [
      | some price ↦ do
        fail_if (price == 0) (std invalid_belief_price)
        expected_return ← mul_decimal dec u128_max offer_amount (dec.inv price)
        check_expected_return limit expected_return return_amount
      | none ↦ do
        whole ← add u128_max return_amount spread_amount
        r ← ratio dec u128_max spread_amount whole
        fail_if (ltb limit r) max_spread_assertion
    ]

  -- `map` of the pools by a ratio.
  unfoldable pub share_of : ℕ → List AssetValidated → Outcome ContractError (List AssetValidated)
  share_of share_ratio [] = ok []
  share_of share_ratio (p ∷ pools) = do
    n ← mul_decimal dec u128_max p.amount share_ratio
    rest ← share_of share_ratio pools
    ok (record p { amount = n } ∷ rest)

  unfoldable pub get_share_in_assets :
      List AssetValidated → ℕ → ℕ → Outcome ContractError (List AssetValidated)
  get_share_in_assets pools amount total_share = do
    share_ratio ← if total_share == 0 then ok 0 else ratio dec u128_max amount total_share
    share_of share_ratio pools

pub record FeeConfig : Type 0 where
  pub total_fee_bps : ℕ
  pub protocol_fee_bps : ℕ

unfoldable pub valid_fee_bps : FeeConfig → Bool
valid_fee_bps f = leb f.total_fee_bps 10000 && leb f.protocol_fee_bps 10000

module _ (dec : Decimals) where
  unfoldable pub total_fee_rate : FeeConfig → ℕ
  total_fee_rate f = dec.from_ratio f.total_fee_bps 10000

  unfoldable pub protocol_fee_rate : FeeConfig → ℕ
  protocol_fee_rate f = dec.from_ratio f.protocol_fee_bps 10000
