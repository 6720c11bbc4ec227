-- ===== src/StablePool/State.antt =====
-- contracts/pool_stable/src/state.rs: the storage, and the precisions of the assets, which are under
-- their texts. What the tokens answer on their decimals is a parameter.
use whelp_contracts.Prelude.{
  ℕ, String, Bool, true, false, Option, some, List, [], ◌∷◌, str_eq, max, if◌then◌else◌,
}
use whelp_contracts.Outcome.{Outcome, ok, err, ◌>>=◌, ok_or, map_err}
use whelp_contracts.Dex.Error.{StdError, not_found, ContractError, std, contract_frozen}
use whelp_contracts.Dex.Asset.{AssetInfoValidated}
use whelp_contracts.Dex.Oracle.{OracleStore}
use whelp_contracts.MultiHop.{text}
use whelp_contracts.Pool.State.{StakeConfig}
use whelp_contracts.StablePool.Amp.{Config}

pub record Storage : Type 0 where
  pub config : Option Config
  pub circuit_breaker : Option String
  pub frozen : Option Bool
  pub lp_share_amount : Option ℕ
  pub tmp_staking_config : Option StakeConfig
  pub precisions : String → Option ℕ
  pub oracle : OracleStore

unfoldable pub load_config : Storage → Outcome ContractError Config
load_config s = map_err std (ok_or s.config not_found)

unfoldable pub load_share : Storage → Outcome ContractError ℕ
load_share s = map_err std (ok_or s.lp_share_amount not_found)

unfoldable pub check_if_frozen : Storage → Outcome ContractError (Unit {0})
check_if_frozen s = map_err std (ok_or s.frozen not_found) >>= λ is_frozen. elim is_frozen [
  | true ↦ err contract_frozen
  | false ↦ ok tt
]

unfoldable pub get_precision : Storage → AssetInfoValidated → Outcome StdError ℕ
get_precision s info = ok_or (s.precisions (text info)) not_found

abbrev pub native_token_precision : ℕ
native_token_precision = 6

-- `AssetInfoValidated::decimals`, with the answer of a cw20 token as a parameter.
unfoldable pub decimals : (String → Outcome StdError ℕ) → AssetInfoValidated → Outcome StdError ℕ
decimals token_decimals (AssetInfoValidated.smart_token denom) = ok native_token_precision
decimals token_decimals (AssetInfoValidated.cw20_token contract) = token_decimals contract

unfoldable pub set_precision : String → ℕ → (String → Option ℕ) → String → Option ℕ
set_precision key precision precisions x = if str_eq key x then some precision else precisions x

-- The greatest precision, and the map of the precisions.
unfoldable pub store_precisions :
    (String → Outcome StdError ℕ)
    → List AssetInfoValidated
    → ℕ
    → (String → Option ℕ)
    → Outcome StdError (ℕ × (String → Option ℕ))
store_precisions token_decimals [] greatest precisions = ok (greatest, precisions)
store_precisions token_decimals (i ∷ infos) greatest precisions = do
  precision ← decimals token_decimals i
  store_precisions token_decimals infos (max greatest precision)
      (set_precision (text i) precision precisions)
