-- ===== src/Dex/Querier.antt =====
-- What a handler is called with and what it asks the chain for: packages/dex/src/querier.rs and
-- the balance queries of packages/dex/src/asset.rs. The answers of the bank, of the cw20 tokens
-- and of the factory are parameters.
use whelp_contracts.Prelude.{ℕ, String, Option, List, [], ◌∷◌}
use whelp_contracts.Outcome.{Outcome, ok, ◌>>=◌}
use whelp_contracts.Dex.Error.{StdError}
use whelp_contracts.Dex.Asset.{AssetInfoValidated, AssetValidated, Coin}

-- `env` and `info` of a call: the block time in nanoseconds, the contract, the sender and the coins
-- that were sent along.
pub record Call : Type 0 where
  pub now : ℕ
  pub contract : String
  pub sender : String
  pub funds : List Coin

-- The part of the factory's `ConfigResponse` that the pools read.
pub record FactoryConfig : Type 0 where
  pub owner : String
  pub fee_address : Option String
  pub max_referral_commission : ℕ

pub record Querier : Type 0 where
  -- `query_balance`: address, then denom.
  pub bank_balance : String → String → Outcome StdError ℕ
  -- `query_token_balance`: contract, then address.
  pub token_balance : String → String → Outcome StdError ℕ
  pub factory_config : String → Outcome StdError FactoryConfig
  pub token_symbol : String → Outcome StdError String

module _ (querier : Querier) where
  unfoldable pub query_balance : AssetInfoValidated → String → Outcome StdError ℕ
  query_balance (AssetInfoValidated.cw20_token contract) account =
      querier.token_balance contract account
  query_balance (AssetInfoValidated.smart_token denom) account = querier.bank_balance account denom

  unfoldable pub query_pools :
      List AssetInfoValidated → String → Outcome StdError (List AssetValidated)
  query_pools [] contract = ok []
  query_pools (i ∷ infos) contract = do
    amount ← query_balance i contract
    rest ← query_pools infos contract
    ok (record { info = i; amount = amount } ∷ rest)
