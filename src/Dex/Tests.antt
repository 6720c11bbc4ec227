-- ===== src/Dex/Tests.antt =====
-- Referrals, spread checks and shares on concrete amounts.
pub mod Oracles
use whelp_contracts.Prelude.{
  ℕ, ◌+◌, ◌-◌, ◌*◌, ◌/◌, ◌^◌, ◌≤◌, ◌<◌, ◌≡◌, true, some, none, [], ◌∷◌, refl, arith,
}
use whelp_contracts.Outcome.{ok}
use whelp_contracts.Num.{floors, one}
use whelp_contracts.Dex.Asset.{AssetInfoValidated, AssetValidated}
use whelp_contracts.Dex.Referral.{is_waived, take_referral, commission_on_top, add_referral}
use whelp_contracts.Dex.Referral.Laws.{take_referral_parts, take_referral-add_referral}
use whelp_contracts.Dex.Spread.{
  check_expected_return, assert_max_spread, share_of, get_share_in_assets, default_slippage,
  max_allowed_slippage,
}
use whelp_contracts.Dex.Spread.Laws.{assert_max_spread_belief, Fair, get_share_in_assets-Fair}

abbrev usd : ℕ → AssetValidated
usd n = record { info = AssetInfoValidated.smart_token "usd"; amount = n }

-- A referral of 3 % on 1000 of at most 5 %.
takes : take_referral floors (5 * 10 ^ 16) (some (3 * 10 ^ 16)) (usd 1000) ≡ ok (usd 970, 30)
unfolding take_referral is_waived
takes = refl

adds : add_referral floors (5 * 10 ^ 16) true none (usd 1000) ≡ ok (usd 1052, 52)
unfolding add_referral is_waived commission_on_top
adds = refl

-- 1000 at a believed price of 2, of which 499 came back.
believes : assert_max_spread floors (some (2 * 10 ^ 18)) none 1000 499 1 ≡ ok tt
unfolding assert_max_spread check_expected_return
believes = refl

spreads : assert_max_spread floors none (some (10 ^ 16)) 1000 499 4 ≡ ok tt
unfolding assert_max_spread
spreads = refl

shares : get_share_in_assets floors (usd 1000 ∷ usd 50 ∷ []) 1 3 ≡ ok (usd 333 ∷ usd 16 ∷ [])
unfolding get_share_in_assets share_of
shares = refl
