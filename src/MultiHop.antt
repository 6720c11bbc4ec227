-- ===== src/MultiHop.antt =====
-- contracts/multi-hop/src/contract.rs, msg.rs, state.rs and error.rs: swaps over several pools. The
-- factory's answer which pool has two assets is a parameter. The set of texts that
-- `assert_operations` keeps is a list without repetition.
use whelp_contracts.Prelude.{
  ℕ, String, Bool, true, false, not, ◌||◌, Option, none, some, List, [], ◌∷◌, ◌++◌, str_eq, ltb,
  ◌==◌, unwrap_or, if◌then◌else◌, length, ◌^◌, ◌-◌,
}
use whelp_contracts.Outcome.{Outcome, ok, err, panic, ◌>>=◌, ◌>>◌, fail_if, map_err, ok_or, unwrap}
use whelp_contracts.Num.{u128_max, checked_sub}
use whelp_contracts.Dex.Error.{StdError, overflow, not_found, invalid_operations}
use whelp_contracts.Dex.Asset.{
  Api, Asset, AssetInfo, AssetInfoValidated, Coin, validate_info, validate_address,
  addr_opt_validate,
}
use whelp_contracts.Dex.Oracle.Query.{into_info}
use whelp_contracts.Dex.Querier.{Querier, Call, query_balance}
pub mod Laws
pub mod Simulate
pub mod Tests

pub data ContractError : Type 0 where
  std : StdError → ContractError
  unauthorized must_provide_operations swap_limit_exceeded : ContractError
  assertion_minimum_receive : ℕ → ℕ → ContractError

pub data SwapOperation : Type 0 where
  dex_swap : AssetInfo → AssetInfo → SwapOperation

-- The one item of the storage.
pub record Config : Type 0 where
  pub dex_factory : String

abbrev pub max_swap_operations : ℕ
max_swap_operations = 50

-- `ExecuteSwapOperations`, without the operations.
pub record Route : Type 0 where
  pub minimum_receive : Option ℕ
  pub receiver : Option String
  pub max_spread : Option ℕ
  pub referral_address : Option String
  pub referral_commission : Option ℕ

-- The messages of the contract; `receive` has the sender of the tokens and the message, which is none
-- where its bytes cannot be parsed.
pub data ExecuteMsg : Type 0 where
  receive : String → Option (List SwapOperation × Route) → ExecuteMsg
  execute_swap_operations : List SwapOperation → Route → ExecuteMsg
  execute_swap_operation_msg :
      SwapOperation → Option String → Option ℕ → Bool → Option String → Option ℕ → ExecuteMsg
  assert_minimum_receive_msg : AssetInfo → ℕ → ℕ → String → ExecuteMsg

-- What the swap message to a pool, or to a token of it, says.
pub record PoolSwap : Type 0 where
  pub ask_asset_info : AssetInfo
  pub belief_price : Option ℕ
  pub max_spread : Option ℕ
  pub to : Option String
  pub referral_address : Option String
  pub referral_commission : Option ℕ

-- The messages that are sent: two to the contract itself, one to a pool with its coins, and one to
-- the token, for the pool.
pub data Message : Type 0 where
  swap_operation :
      SwapOperation → Option String → Option ℕ → Bool → Option String → Option ℕ → Message
  minimum_receive_assertion : AssetInfo → ℕ → ℕ → String → Message
  pool_swap : String → Coin → Asset → PoolSwap → Message
  cw20_send : String → String → ℕ → PoolSwap → Message

unfoldable pub target : SwapOperation → AssetInfo
target (dex_swap offer ask) = ask

-- `to_string` of a validated asset.
unfoldable pub text : AssetInfoValidated → String
text (AssetInfoValidated.cw20_token a) = a
text (AssetInfoValidated.smart_token d) = d

unfoldable pub contains : String → List String → Bool
contains x [] = false
contains x (y ∷ set) = str_eq y x || contains x set

unfoldable pub remove : String → List String → List String
remove x [] = []
remove x (y ∷ set) = let rest = remove x set in if str_eq y x then rest else y ∷ rest

unfoldable pub insert : String → List String → List String
insert x set = if contains x set then set else x ∷ set

-- The texts of the two assets of every operation.
unfoldable pub validated : Api → List SwapOperation → Outcome ContractError (List (String × String))
validated api [] = ok []
validated api (dex_swap offer ask ∷ operations) = do
  offer' ← map_err std (validate_info api offer)
  ask' ← map_err std (validate_info api ask)
  rest ← validated api operations
  ok ((text offer', text ask') ∷ rest)

-- The loop of `assert_operations`.
unfoldable pub outputs : List (String × String) → List String → List String
outputs [] set = set
outputs ((offer, ask) ∷ operations) set = outputs operations (insert ask (remove offer set))

unfoldable pub assert_operations : Api → List SwapOperation → Outcome ContractError (Unit {0})
assert_operations api operations = do
  texts ← validated api operations
  fail_if (not (length (outputs texts []) == 1)) (std invalid_operations)

unfoldable pub last : List SwapOperation → Outcome ContractError SwapOperation
last [] = panic
last (o ∷ []) = ok o
last (o ∷ p ∷ operations) = last (p ∷ operations)

-- The messages of `swap_operations`: `first` holds for the first one, and the last one has the
-- receiver.
unfoldable pub operation_messages : Bool → Bool → String → Route → List SwapOperation → List Message
operation_messages single first receiver route [] = []
operation_messages single first receiver route (o ∷ operations) =
    swap_operation o (if length operations == 0 then some receiver else none) route.max_spread
      single (if first then route.referral_address else none)
      (if first then route.referral_commission else none)
    ∷ operation_messages single false receiver route operations

-- `check` of the number of the operations, which three of the functions make.
unfoldable pub check_length : ℕ → Outcome ContractError (Unit {0})
check_length n = do
  fail_if (n == 0) must_provide_operations
  fail_if (ltb max_swap_operations n) swap_limit_exceeded

module _ (querier : Querier) (api : Api) where
  unfoldable pub swap_operations :
      String → List SwapOperation → Route → Outcome ContractError (List Message)
  swap_operations sender operations route = do
    check_length (length operations)
    assert_operations api operations
    given ← map_err std (addr_opt_validate api route.receiver)
    let receiver = unwrap_or given sender
    o ← last operations
    target_info ← map_err std (validate_info api (target o))
    let messages = operation_messages (length operations == 1) true receiver route operations
    elim route.minimum_receive [
      | none ↦ ok messages
      | some n ↦ do
        balance ← map_err std (query_balance querier target_info receiver)
        ok (messages ++ minimum_receive_assertion (into_info target_info) balance n receiver ∷ [])
    ]

  unfoldable pub assert_minimum_receive :
      AssetInfo → ℕ → ℕ → String → Outcome ContractError (Unit {0})
  assert_minimum_receive info prev_balance minimum_receive receiver = do
    info' ← map_err std (validate_info api info)
    balance ← map_err std (query_balance querier info' receiver)
    swap_amount ← checked_sub (std overflow) balance prev_balance
    fail_if (ltb swap_amount minimum_receive)
        (assertion_minimum_receive minimum_receive swap_amount)

-- A swap that is part of a longer route has `Decimal::MAX` as its believed price.
unfoldable pub asset_into_swap_msg :
    String
    → Asset
    → AssetInfo
    → Option ℕ
    → Option String
    → Bool
    → Option String
    → Option ℕ
    → Message
asset_into_swap_msg pair offer ask max_spread receiver single referral_address referral_commission =
    let swap : PoolSwap = record {
      ask_asset_info = ask;
      belief_price = if single then none else some u128_max;
      max_spread = max_spread;
      to = receiver;
      referral_address = referral_address;
      referral_commission = referral_commission;
    } in
    elim offer.info [
      | AssetInfo.smart_token denom ↦
          pool_swap pair (record { denom = denom; amount = offer.amount }) offer swap
      | AssetInfo.cw20_token token ↦ cw20_send token pair offer.amount swap
    ]

-- The balance of an asset as it was sent.
unfoldable pub balance_of : Querier → AssetInfo → String → Outcome StdError ℕ
balance_of querier (AssetInfo.smart_token denom) account = querier.bank_balance account denom
balance_of querier (AssetInfo.cw20_token token) account = querier.token_balance token account

-- `swap_operation`; `pool_of` is `query_pool_info`, of which only the address is used.
unfoldable pub execute_swap_operation :
    Querier
    → (String → AssetInfo → AssetInfo → Outcome StdError String)
    → Call
    → Option Config
    → SwapOperation
    → Option String
    → Option ℕ
    → Bool
    → Option String
    → Option ℕ
    → Outcome ContractError Message
execute_swap_operation querier pool_of call stored (dex_swap offer ask) receiver max_spread single
      referral_address referral_commission =
    do
      fail_if (not (str_eq call.contract call.sender)) unauthorized
      config ← map_err std (ok_or stored not_found)
      pair ← map_err std (pool_of config.dex_factory offer ask)
      amount ← map_err std (balance_of querier offer call.contract)
      ok (
          asset_into_swap_msg pair (record { info = offer; amount = amount }) ask max_spread
            receiver single referral_address referral_commission)

-- `instantiate`
unfoldable pub instantiate : Api → String → Outcome ContractError (Option Config)
instantiate api dex_factory = do
  factory ← map_err std (validate_address api dex_factory)
  ok (some (record { dex_factory = factory }))

-- `receive_cw20`; the message is none where its bytes cannot be parsed.
unfoldable pub receive_cw20 :
    Querier
    → Api
    → String
    → Option (List SwapOperation × Route)
    → Outcome ContractError (List Message)
receive_cw20 querier api sender msg = do
  sender' ← map_err std (validate_address api sender)
  (operations, route) ← map_err std (ok_or msg not_found)
  swap_operations querier api sender' operations route

-- The dispatch. The storage stays, and the result is the messages that are sent.
unfoldable pub execute :
    Querier
    → Api
    → (String → AssetInfo → AssetInfo → Outcome StdError String)
    → Call
    → Option Config
    → ExecuteMsg
    → Outcome ContractError (List Message)
execute querier api pool_of call stored (receive sender msg) = receive_cw20 querier api sender msg
execute querier api pool_of call stored (execute_swap_operations operations route) =
    swap_operations querier api call.sender operations route
execute querier api pool_of call stored
      (execute_swap_operation_msg o receiver max_spread single referral_address
        referral_commission) =
    do
      message ←
          execute_swap_operation querier pool_of call stored o receiver max_spread single
            referral_address referral_commission
      ok (message ∷ [])
execute querier api pool_of call stored
      (assert_minimum_receive_msg info prev_balance minimum_receive receiver) =
    do
      receiver' ← map_err std (validate_address api receiver)
      assert_minimum_receive querier api info prev_balance minimum_receive receiver'
      ok []
