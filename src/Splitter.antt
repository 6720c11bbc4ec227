-- ===== src/Splitter.antt =====
-- contracts/fee_splitter: contract.rs, state.rs and error.rs. Balances are those of `Querier`; the
-- storage is the one item `config`.
use whelp_contracts.Prelude.{
  ℕ, String, Option, none, some, List, [], ◌∷◌, ◌++◌, ◌==◌, not, if◌then◌else◌,
}
use whelp_contracts.Outcome.{
  Outcome, ok, err, panic, ◌>>=◌, ◌>>◌, fail_if, map_err, ok_or, traverse,
}
use whelp_contracts.Num.{Decimals, one, u128_max, add, mul_decimal}
use whelp_contracts.Dex.Error.{StdError, not_found}
use whelp_contracts.Dex.Asset.{Api, Coin, Msg, bank_send, cw20_transfer, validate_address}
use whelp_contracts.Dex.Querier.{Querier}
pub mod Laws
pub mod Tests

pub data ContractError : Type 0 where
  std : StdError → ContractError
  invalid_weights unauthorized : ContractError

-- Addresses and weights, the weights in atomics.
pub record Config : Type 0 where
  pub addresses : List (String × ℕ)

-- The fold of `+` from zero.
unfoldable pub sum_weights : ℕ → List (String × ℕ) → Outcome ContractError ℕ
sum_weights acc [] = ok acc
sum_weights acc ((address, weight) ∷ addresses) = do
  acc' ← add u128_max acc weight
  sum_weights acc' addresses

unfoldable pub instantiate : List (String × ℕ) → Outcome ContractError (Option Config)
instantiate addresses = do
  total ← sum_weights 0 addresses
  fail_if (not (total == one)) invalid_weights
  ok (some (record { addresses = addresses }))

-- `filter_map`: a coin of nothing is left out.
unfoldable pub push_coin : Coin → List Coin → List Coin
push_coin c coins = if c.amount == 0 then coins else c ∷ coins

module _ (dec : Decimals) where
  -- The coins of one address: its part of each balance, unless that is zero.
  unfoldable pub split : ℕ → List Coin → Outcome ContractError (List Coin)
  split weight [] = ok []
  split weight (c ∷ coins) = do
    amount ← mul_decimal dec u128_max c.amount weight
    rest ← split weight coins
    ok (push_coin (record c { amount = amount }) rest)

  -- A token whose balance cannot be queried, or is zero, is left out.
  unfoldable pub token_messages :
      Querier → String → String → ℕ → List String → Outcome ContractError (List Msg)
  token_messages querier contract address weight [] = ok []
  token_messages querier contract address weight (token ∷ tokens) =
      elim (querier.token_balance token contract) [
        | ok balance ↦
            if balance == 0 then token_messages querier contract address weight tokens else (do
              amount ← mul_decimal dec u128_max balance weight
              rest ← token_messages querier contract address weight tokens
              ok (cw20_transfer token address amount ∷ rest))
        | err e ↦ token_messages querier contract address weight tokens
        | panic ↦ panic
      ]

-- The message that sends the coins, if there are any.
unfoldable pub native_message : String → List Coin → List Msg
native_message address [] = []
native_message address (c ∷ coins) = bank_send address (c ∷ coins) ∷ []

module _ (querier : Querier) where
  unfoldable pub query_coins : String → List String → Outcome StdError (List Coin)
  query_coins contract [] = ok []
  query_coins contract (denom ∷ denoms) = do
    amount ← querier.bank_balance contract denom
    rest ← query_coins contract denoms
    ok (record { denom = denom; amount = amount } ∷ rest)

module _ (dec : Decimals) (querier : Querier) where
  -- The loop over the addresses.
  unfoldable pub payouts :
      String → List Coin → List String → List (String × ℕ) → Outcome ContractError (List Msg)
  payouts contract balances tokens [] = ok []
  payouts contract balances tokens ((address, weight) ∷ addresses) = do
    coins ← split dec weight balances
    messages ← token_messages dec querier contract address weight tokens
    rest ← payouts contract balances tokens addresses
    ok (native_message address coins ++ messages ++ rest)

  unfoldable pub execute_send_tokens :
      Api → String → Option Config → List String → List String → Outcome ContractError (List Msg)
  execute_send_tokens api contract stored native_denoms cw20_addresses = do
    config ← map_err std (ok_or stored not_found)
    balances ← map_err std (query_coins querier contract native_denoms)
    tokens ← map_err std (traverse (validate_address api) cw20_addresses)
    payouts contract balances tokens config.addresses

unfoldable pub query_config : Option Config → Outcome ContractError Config
query_config stored = map_err std (ok_or stored not_found)
