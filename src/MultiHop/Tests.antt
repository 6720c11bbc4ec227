-- ===== src/MultiHop/Tests.antt =====
-- Routes on concrete assets.
use whelp_contracts.Prelude.{String, ◌≡◌, refl, false, some, none, List, [], ◌∷◌, ◌^◌, ◌*◌}
use whelp_contracts.Outcome.{Outcome, ok, value_or}
use whelp_contracts.Num.{floors}
use whelp_contracts.Dex.Asset.{Api, AssetInfo, AssetInfoValidated, validate_info}
use whelp_contracts.MultiHop.{
  ContractError, SwapOperation, dex_swap, validated, text, outputs, insert, remove, contains,
  assert_operations, check_length,
}
use whelp_contracts.MultiHop.Laws.{Connected, assert_operations-Connected}
use whelp_contracts.MultiHop.Simulate.{
  Quotes, SimulateSwapOperationsResponse, start, times_ideal, record_quote, finish, simulate_one,
  simulate_all, simulate_swap_operations,
}

abbrev api : Api
api = record { addr_validate = λ a. some a; to_lowercase = λ a. a; take_chars = λ n a. a }

abbrev coin : String → AssetInfo
coin denom = AssetInfo.smart_token denom

abbrev route : List SwapOperation
route = dex_swap (coin "usd") (coin "eur") ∷ dex_swap (coin "eur") (coin "gbp") ∷ []

accepts : assert_operations api route ≡ ok tt
unfolding assert_operations validated validate_info text outputs insert remove contains
accepts = refl

assert_operations-Connected_example :
    (texts : List (String × String)) × (result : String) × (validated api route ≡ ok texts)
    × Connected texts result
assert_operations-Connected_example = assert_operations-Connected api route accepts

-- Each pool gives the same quote: 90 at a spread of 10.
abbrev quotes : Quotes
quotes = record {
  pool_of = λ factory offer ask. ok "pool";
  simulation = λ pool offer ask referral commission. ok (record {
    return_amount = 90;
    spread_amount = 10;
    commission_amount = 0;
    referral_amount = 0;
  });
  reverse_simulation = λ pool offer ask referral commission. ok (record {
    offer_amount = 200;
    spread_amount = 10;
    commission_amount = 0;
    referral_amount = 0;
  });
}

abbrev simulated : Outcome ContractError SimulateSwapOperationsResponse
simulated =
    simulate_swap_operations floors quotes api (some (record { dex_factory = "factory" })) 200 false
      none route

abbrev result : SimulateSwapOperationsResponse
result = value_or simulated (record {
  amount = 0;
  spread = 0;
  spread_amounts = [];
  commission_amounts = [];
  referral_amount = record { info = AssetInfoValidated.smart_token ""; amount = 0 };
})

-- Two spreads of a tenth are one of 19 percent.
simulates : result.spread ≡ 19 * 10 ^ 16
unfolding simulate_swap_operations check_length assert_operations validated validate_info text
    outputs insert remove contains simulate_all simulate_one times_ideal record_quote finish start
simulates = refl
