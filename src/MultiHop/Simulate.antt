-- ===== src/MultiHop/Simulate.antt =====
-- contracts/multi-hop/src/contract.rs: the two simulations of a route. The answers of the factory and
-- of the pools are parameters.
use whelp_contracts.Prelude.{
  ℕ, Bool, true, false, Option, none, some, List, [], ◌∷◌, ◌++◌, if◌then◌else◌, length,
}
use whelp_contracts.Outcome.{Outcome, ok, ◌>>=◌, ◌>>◌, map_err, ok_or, unwrap}
use whelp_contracts.Num.{Decimals, one, u128_max, add, sub, mul_decimal, ratio}
use whelp_contracts.Dex.Error.{StdError, not_found}
use whelp_contracts.Dex.Asset.{Api, Asset, AssetInfo, AssetValidated, validate_info}
use Prim.Native.String.{String}
use whelp_contracts.Pool.Queries.{SimulationResponse, ReverseSimulationResponse}
use whelp_contracts.MultiHop.{
  ContractError, std, SwapOperation, dex_swap, Config, check_length, assert_operations,
}

-- The queries of other contracts: the pool of two assets, by the factory's address, and the two
-- simulations, by the pool's address, with the asset, the other asset and the referral.
pub record Quotes : Type 0 where
  pub pool_of : String → AssetInfo → AssetInfo → Outcome StdError String
  pub simulation :
      String → Asset → AssetInfo → Bool → Option ℕ → Outcome StdError SimulationResponse
  pub reverse_simulation :
      String → AssetInfo → Asset → Bool → Option ℕ → Outcome StdError ReverseSimulationResponse

pub record SimulateSwapOperationsResponse : Type 0 where
  pub amount : ℕ
  pub spread : ℕ
  pub spread_amounts : List AssetValidated
  pub commission_amounts : List AssetValidated
  pub referral_amount : AssetValidated

-- The variables of the two loops.
pub record Progress : Type 0 where
  pub amount : ℕ
  pub percent_of_ideal : ℕ
  pub spread_amounts : List AssetValidated
  pub commission_amounts : List AssetValidated
  pub referral_amount : Option AssetValidated

unfoldable pub start : ℕ → Progress
start amount = record {
  amount = amount;
  percent_of_ideal = one;
  spread_amounts = [];
  commission_amounts = [];
  referral_amount = none;
}

module _ (dec : Decimals) where
  -- `percent_of_ideal *= Decimal::from_ratio(got, got + spread)`
  unfoldable pub times_ideal : ℕ → ℕ → ℕ → ℕ → Outcome ContractError ℕ
  times_ideal percent amount commission spread = do
    got ← add u128_max amount commission
    whole ← add u128_max got spread
    part ← ratio dec u128_max got whole
    mul_decimal dec u128_max percent part

  -- The end of one turn of the loops, with the next amount.
  unfoldable pub record_quote :
      Api
      → Bool
      → AssetInfo
      → AssetInfo
      → ℕ
      → ℕ
      → ℕ
      → ℕ
      → ℕ
      → Progress
      → Outcome ContractError Progress
  record_quote api is_first offer ask next percent spread commission referral p = do
    ask' ← map_err std (validate_info api ask)
    let p' : Progress = record p {
      amount = next;
      percent_of_ideal = percent;
      spread_amounts = p.spread_amounts ++ record { info = ask'; amount = spread } ∷ [];
      commission_amounts = p.commission_amounts ++ record { info = ask'; amount = commission } ∷ [];
    }
    if is_first
        then (do
          offer' ← map_err std (validate_info api offer)
          ok (record p' { referral_amount = some (record { info = offer'; amount = referral }) }))
        else ok p'

  unfoldable pub finish : Progress → Outcome ContractError SimulateSwapOperationsResponse
  finish p = do
    spread ← sub one p.percent_of_ideal
    referral_amount ← unwrap p.referral_amount
    ok (record {
      amount = p.amount;
      spread = spread;
      spread_amounts = p.spread_amounts;
      commission_amounts = p.commission_amounts;
      referral_amount = referral_amount;
    })

module _ (dec : Decimals) (quotes : Quotes) (api : Api) where
  unfoldable pub simulate_one :
      Config → Bool → Bool → Option ℕ → SwapOperation → Progress → Outcome ContractError Progress
  simulate_one config is_first referral referral_commission (dex_swap offer ask) p = do
    pool ← map_err std (quotes.pool_of config.dex_factory offer ask)
    r ← map_err std (
        quotes.simulation pool (record { info = offer; amount = p.amount }) ask
          (if is_first then referral else false) (if is_first then referral_commission else none))
    percent ← times_ideal dec p.percent_of_ideal r.return_amount r.commission_amount r.spread_amount
    record_quote dec api is_first offer ask r.return_amount percent r.spread_amount
        r.commission_amount r.referral_amount p

  unfoldable pub simulate_all :
      Config
      → Bool
      → Bool
      → Option ℕ
      → List SwapOperation
      → Progress
      → Outcome ContractError Progress
  simulate_all config is_first referral referral_commission [] p = ok p
  simulate_all config is_first referral referral_commission (o ∷ operations) p = do
    p' ← simulate_one config is_first referral referral_commission o p
    simulate_all config false referral referral_commission operations p'

  unfoldable pub simulate_swap_operations :
      Option Config
      → ℕ
      → Bool
      → Option ℕ
      → List SwapOperation
      → Outcome ContractError SimulateSwapOperationsResponse
  simulate_swap_operations stored offer_amount referral referral_commission operations = do
    config ← map_err std (ok_or stored not_found)
    check_length (length operations)
    assert_operations api operations
    p ← simulate_all config true referral referral_commission operations (start offer_amount)
    finish dec p

  unfoldable pub reverse_one :
      Config → Bool → Bool → Option ℕ → SwapOperation → Progress → Outcome ContractError Progress
  reverse_one config is_first referral referral_commission (dex_swap offer ask) p = do
    pool ← map_err std (quotes.pool_of config.dex_factory offer ask)
    r ← map_err std (
        quotes.reverse_simulation pool offer (record { info = ask; amount = p.amount })
          (if is_first then referral else false) (if is_first then referral_commission else none))
    percent ← times_ideal dec p.percent_of_ideal p.amount r.commission_amount r.spread_amount
    record_quote dec api is_first offer ask r.offer_amount percent r.spread_amount
        r.commission_amount r.referral_amount p

  -- The loop runs from the last operation to the first.
  unfoldable pub reverse_all :
      Config
      → Bool
      → Bool
      → Option ℕ
      → List SwapOperation
      → Progress
      → Outcome ContractError Progress
  reverse_all config is_first referral referral_commission [] p = ok p
  reverse_all config is_first referral referral_commission (o ∷ operations) p = do
    p' ← reverse_all config false referral referral_commission operations p
    reverse_one config is_first referral referral_commission o p'

  unfoldable pub simulate_reverse_swap_operations :
      Option Config
      → ℕ
      → Bool
      → Option ℕ
      → List SwapOperation
      → Outcome ContractError SimulateSwapOperationsResponse
  simulate_reverse_swap_operations stored ask_amount referral referral_commission operations = do
    config ← map_err std (ok_or stored not_found)
    check_length (length operations)
    assert_operations api operations
    p ← reverse_all config true referral referral_commission operations (start ask_amount)
    finish dec p
