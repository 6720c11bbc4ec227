-- ===== src/Factory.antt =====
-- contracts/factory/src/state.rs and error.rs, with the messages of packages/dex/src/factory.rs: the
-- registry of pools. `PAIRS` and `PAIR_CONFIGS` are maps from texts; a key of `PAIRS` is the text whose
-- bytes it is. The items are options; what a pool answers is a parameter of the handlers.
use Prim.Native.String.{◌++◌ as append}
use whelp_contracts.Prelude.{
  ℕ, String, Bool, true, false, not, Option, none, some, List, [], ◌∷◌, ltb, str_eq, unwrap_or,
  if◌then◌else◌,
}
use whelp_contracts.Outcome.{Outcome, ok, ◌>>=◌, ◌>>◌, fail_if, map_err, ok_or, traverse}
use whelp_contracts.Dex.Error.{StdError, not_found}
use whelp_contracts.Dex.Asset.{
  Api, Asset, AssetInfo, AssetInfoValidated, Msg, all_unique, validate_info,
}
use whelp_contracts.Dex.Spread.{FeeConfig}
use whelp_contracts.Dex.Ownership.{OwnershipProposal}
use whelp_contracts.MultiHop.{text}
use whelp_contracts.Pool.State.{PoolType, xyk, stable, custom, StakeConfig}
use whelp_contracts.Pool.Contract.{InstantiateMsg as PoolInstantiateMsg}
use whelp_contracts.TextMap.{before}
pub mod Create
pub mod Deploy
pub mod Registry
pub mod Contract
pub mod Queries
pub mod Laws
pub mod Tests

pub data ContractError : Type 0 where
  std : StdError → ContractError
  invalid_trading_start unauthorized pool_was_created pool_was_registered : ContractError
  pool_config_duplicate pool_config_invalid_fee_bps pool_config_not_found : ContractError
  pool_config_disabled doubling_assets permissionless_requires_deposit : ContractError
  invalid_referral_commission : ℕ → ContractError
  deposit_required : ℕ → String → ContractError

-- `to_string` of a pool type.
unfoldable pub type_name : PoolType → String
type_name xyk = "xyk"
type_name stable = "stable"
type_name (custom pool_type) = append "custom-" pool_type

pub record PoolConfig : Type 0 where
  pub code_id : ℕ
  pub pool_type : PoolType
  pub fee_config : FeeConfig
  pub is_disabled : Bool

-- `DefaultStakeConfig` has the fields of `StakeConfig`.
pub record DefaultStakeConfig : Type 0 where
  pub staking_code_id : ℕ
  pub tokens_per_power : ℕ
  pub min_bond : ℕ
  pub unbonding_periods : List ℕ
  pub max_distributions : ℕ

-- `PartialStakeConfig`, and `PartialDefaultStakeConfig`, which has the same fields.
pub record PartialStakeConfig : Type 0 where
  pub staking_code_id : Option ℕ
  pub tokens_per_power : Option ℕ
  pub min_bond : Option ℕ
  pub unbonding_periods : Option (List ℕ)
  pub max_distributions : Option ℕ

-- `combine_with`, and `update`, which sets the same fields.
unfoldable pub combine_with : DefaultStakeConfig → PartialStakeConfig → DefaultStakeConfig
combine_with c partial = record {
  staking_code_id = unwrap_or partial.staking_code_id c.staking_code_id;
  tokens_per_power = unwrap_or partial.tokens_per_power c.tokens_per_power;
  min_bond = unwrap_or partial.min_bond c.min_bond;
  unbonding_periods = unwrap_or partial.unbonding_periods c.unbonding_periods;
  max_distributions = unwrap_or partial.max_distributions c.max_distributions;
}

unfoldable pub to_stake_config : DefaultStakeConfig → StakeConfig
to_stake_config c = record {
  staking_code_id = c.staking_code_id;
  tokens_per_power = c.tokens_per_power;
  min_bond = c.min_bond;
  unbonding_periods = c.unbonding_periods;
  max_distributions = c.max_distributions;
}

pub record DistributionFlow : Type 0 where
  pub asset : AssetInfo
  pub rewards : List (ℕ × ℕ)
  pub reward_duration : ℕ

pub record Config : Type 0 where
  pub owner : String
  pub fee_address : Option String
  pub max_referral_commission : ℕ
  pub default_stake_config : DefaultStakeConfig
  pub only_owner_can_create_pools : Bool
  pub pool_creation_fee : Asset
  pub trading_starts : Option ℕ

pub record TmpPoolInfo : Type 0 where
  pub pair_key : String
  pub asset_infos : List AssetInfoValidated
  pub distribution_flows : List DistributionFlow

pub record Storage : Type 0 where
  pub tmp_pair_info : Option TmpPoolInfo
  pub config : Option Config
  pub pairs : List (String × String)
  pub staking_addresses : String → Bool
  pub pair_configs : List (String × PoolConfig)
  pub ownership_proposal : Option OwnershipProposal
  pub pairs_to_migrate : Option (List String)
  pub route : String → String → Option (List String)

-- What the factory sends: the fees to a pool, a distribution flow to a staking contract (with the
-- manager, the asset and the rewards), a new pool (with its admin, the code and the text of the
-- parameters), and a payment.
pub data FactoryMsg : Type 0 where
  update_pool_fees : String → FeeConfig → FactoryMsg
  create_flow : String → String → AssetInfo → List (ℕ × ℕ) → FactoryMsg
  instantiate_pool : String → ℕ → Option String → PoolInstantiateMsg → FactoryMsg
  pay : Msg → FactoryMsg

unfoldable pub load_config : Storage → Outcome ContractError Config
load_config s = map_err std (ok_or s.config not_found)

-- `sorted` on the bytes of the texts.
unfoldable pub insert : String → List String → List String
insert a [] = a ∷ []
insert a (b ∷ texts) = let rest = insert a texts in if before b a then b ∷ rest else a ∷ b ∷ texts

unfoldable pub sorted : List String → List String
sorted [] = []
sorted (a ∷ texts) = insert a (sorted texts)

unfoldable pub flatten : List String → String
flatten [] = ""
flatten (a ∷ texts) = append a (flatten texts)

unfoldable pub texts : List AssetInfoValidated → List String
texts [] = []
texts (i ∷ infos) = text i ∷ texts infos

unfoldable pub pair_key : List AssetInfoValidated → String
pair_key infos = flatten (sorted (texts infos))

unfoldable pub check_asset_infos :
    Api → List AssetInfo → Outcome ContractError (List AssetInfoValidated)
check_asset_infos api infos = do
  fail_if (not (all_unique infos)) doubling_assets
  map_err std (traverse (validate_info api) infos)

-- The check that most handlers begin with.
unfoldable pub owned : Storage → String → Outcome ContractError Config
owned s sender = do
  config ← load_config s
  fail_if (not (str_eq sender config.owner)) unauthorized
  ok config
