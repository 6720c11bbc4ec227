-- ===== src/Stake/Tests.antt =====
-- Concrete runs of the staking contract: a chain that accepts every address, two unbonding periods,
-- and one staker.
pub mod Bonds
pub mod Messages
pub mod Rewards
use whelp_contracts.Prelude.{
  ℕ, ◌+◌, ◌*◌, ◌^◌, String, Bool, true, false, Option, some, none, List, [], ◌∷◌, str_eq,
}
use whelp_contracts.Outcome.{Outcome, ok, value_or}
use whelp_contracts.Num.{floors}
use whelp_contracts.Dex.Asset.{AssetInfoValidated, Coin, Msg}
use whelp_contracts.Stake.Bonding.{BondingInfo}
use whelp_contracts.Stake.State.{State, Stakes, Distribution, at_addr}
use whelp_contracts.Stake.Chain.{Chain, Call}
use whelp_contracts.Stake.Bond.{Storage}

abbrev pub chain : Chain
chain = record {
  api = record { addr_validate = λ a. some a; to_lowercase = λ a. a; take_chars = λ n a. a };
  balance = λ a. ok 1000;
  Curve = ℕ;
  curve_constant = λ n. n;
  curve_saturating = λ from amount end. amount;
  curve_range = λ c. (0, c);
  curve_combine = λ a b. a + b;
  curve_value = λ c t. c;
  curve_decreasing = λ c. true;
  Claims = String → ℕ;
  claim_amounts = λ c a. c a ∷ [];
  create_claim = λ c a n t. at_addr a (c a + n) c;
  claim_tokens = λ c a now. (c a, at_addr a 0 c);
  clear_claims = λ c a. at_addr a 0 c;
  is_admin = λ admin a. elim admin [ none ↦ false | some b ↦ str_eq b a ];
  update_admin = λ admin sender new. some new;
}

abbrev pub flow : Distribution
flow = record {
  shares_per_point = 0;
  shares_leftover = 0;
  distributed_total = 0;
  withdrawable_total = 0;
  manager = "boss";
  reward_multipliers = (10, 10 ^ 18) ∷ (20, 2 * 10 ^ 18) ∷ [];
}

-- Alice has 100 tokens bonded for 10 seconds, and 5 in a claim.
abbrev pub store : Storage floors chain
store = record {
  config = record {
    lp_share_denom = "lp";
    instantiator = "boss";
    tokens_per_power = 1;
    min_bond = 1;
    unbonding_periods = 10 ∷ 20 ∷ [];
    max_distributions = 2;
    unbonder = some "boss";
  };
  admin = some "boss";
  token_info = record { staked = 100; unbonding = 5 };
  totals =
      (10, record { staked = 100; powered_stake = 100 })
      ∷ (20, record { staked = 0; powered_stake = 0 })
      ∷ [];
  stakes = at_addr "alice" ((10, record { stake = 100; locked_tokens = [] }) ∷ []) (λ a. []);
  distributions = (AssetInfoValidated.smart_token "usd", flow) ∷ [];
  adjustments = λ a b. none;
  delegated = λ a. none;
  unbond_all = false;
  curves = λ a. some 0;
  claims = at_addr "alice" 5 (λ a. 0);
}

abbrev pub call_of : String → Call
call_of sender = record {
  now = 10 ^ 12;
  contract = "stake";
  sender = sender;
  funds = record { denom = "lp"; amount = 40 } ∷ [];
}

abbrev pub nothing : Storage floors chain × List Msg
nothing = (store, [])
