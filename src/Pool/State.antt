-- ===== src/Pool/State.antt =====
-- contracts/pool/src/state.rs, and the `PairInfo` of packages/dex/src/pool.rs: the storage of the
-- constant product pool. Every item is an option, since a read of a missing one is an error.
use whelp_contracts.Prelude.{ℕ, zero, suc, String, Bool, true, false, Option, List, [], ◌∷◌}
use whelp_contracts.Outcome.{Outcome, ok, err, panic, ◌>>=◌, ok_or, map_err}
use whelp_contracts.Dex.Error.{not_found, ContractError, std, contract_frozen}
use whelp_contracts.Dex.Asset.{AssetInfoValidated, AssetValidated}
use whelp_contracts.Dex.Spread.{FeeConfig}
use whelp_contracts.Dex.Oracle.{OracleStore}
use whelp_contracts.Dex.Querier.{Querier, query_pools}

pub data PoolType : Type 0 where
  xyk stable : PoolType
  custom : String → PoolType

pub record PairInfo : Type 0 where
  pub asset_infos : List AssetInfoValidated
  pub contract_addr : String
  pub liquidity_token : String
  pub staking_addr : String
  pub pool_type : PoolType
  pub verified : Bool
  pub fee_config : FeeConfig

pub record Config : Type 0 where
  pub pool_info : PairInfo
  pub factory_addr : String
  pub block_time_last : ℕ
  pub price0_cumulative_last : ℕ
  pub price1_cumulative_last : ℕ
  pub trading_starts : ℕ

pub record StakeConfig : Type 0 where
  pub staking_code_id : ℕ
  pub tokens_per_power : ℕ
  pub min_bond : ℕ
  pub unbonding_periods : List ℕ
  pub max_distributions : ℕ

pub record Storage : Type 0 where
  pub config : Option Config
  pub circuit_breaker : Option String
  pub frozen : Option Bool
  pub lp_share_amount : Option ℕ
  pub tmp_staking_config : Option StakeConfig
  pub oracle : OracleStore

unfoldable pub load_config : Storage → Outcome ContractError Config
load_config s = map_err std (ok_or s.config not_found)

unfoldable pub load_share : Storage → Outcome ContractError ℕ
load_share s = map_err std (ok_or s.lp_share_amount not_found)

unfoldable pub check_if_frozen : Storage → Outcome ContractError (Unit {0})
check_if_frozen s = map_err std (ok_or s.frozen not_found) >>= λ is_frozen. elim is_frozen [
  | true ↦ err contract_frozen
  | false ↦ ok tt
]

-- `pools[i]`, with the panic past the end.
unfoldable pub at : List AssetValidated → ℕ → Outcome ContractError AssetValidated
at [] i = panic
at (p ∷ pools) zero = ok p
at (p ∷ pools) (suc i) = at pools i

-- The balances of the pool, and the shares issued according to the storage.
unfoldable pub pool_info :
    Querier → Storage → Config → Outcome ContractError (List AssetValidated × ℕ)
pool_info querier s config = do
  pools ←
      map_err std (query_pools querier config.pool_info.asset_infos config.pool_info.contract_addr)
  total_share ← load_share s
  ok (pools, total_share)
