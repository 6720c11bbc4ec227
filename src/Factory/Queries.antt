-- ===== src/Factory/Queries.antt =====
-- contracts/factory/src/contract.rs and the pages of state.rs: the queries.
use Prim.Native.String.{◌++◌ as append}
use whelp_contracts.Prelude.{
  ℕ, zero, suc, String, Bool, Option, none, some, List, [], ◌∷◌, unwrap_or, if◌then◌else◌,
}
use whelp_contracts.Outcome.{Outcome, ok, ◌>>=◌, ok_or, traverse}
use whelp_contracts.Dex.Error.{StdError, not_found}
use whelp_contracts.Dex.Asset.{Api, AssetInfo, AssetInfoValidated, validate_info, validate_address}
use whelp_contracts.Pool.State.{PoolType, PairInfo}
use whelp_contracts.TextMap.{before, lookup, values}
use whelp_contracts.Factory.{type_name, PoolConfig, Storage, pair_key}

pub record ConfigResponse : Type 0 where
  pub owner : String
  pub pool_configs : List PoolConfig
  pub fee_address : Option String
  pub max_referral_commission : ℕ
  pub only_owner_can_create_pools : Bool
  pub trading_starts : Option ℕ

pub record FeeInfoResponse : Type 0 where
  pub fee_address : Option String
  pub total_fee_bps : ℕ
  pub protocol_fee_bps : ℕ

abbrev pub default_limit : ℕ
default_limit = 10

abbrev pub take : ℕ → List String → List String
take zero addresses = []
take (suc n) [] = []
take (suc n) (a ∷ addresses) = a ∷ take n addresses

-- The addresses under the keys after `start`.
unfoldable pub after : String → List (String × String) → List String
after start [] = []
after start ((k, pair) ∷ pairs) =
    let rest = after start pairs in if before start k then pair ∷ rest else rest

-- The key with a byte 1 at its end.
unfoldable pub calc_range_start : List AssetInfoValidated → String
calc_range_start infos = append (pair_key infos) "\u{1}"

unfoldable pub read_pairs :
    Api → Storage → Option (List AssetInfo) → Option ℕ → Outcome StdError (List String)
read_pairs api s none limit = ok (take (unwrap_or limit default_limit) (values s.pairs))
read_pairs api s (some start_after) limit = do
  infos ← traverse (validate_info api) start_after
  ok (take (unwrap_or limit default_limit) (after (calc_range_start infos) s.pairs))

-- The types of the disabled configurations.
unfoldable pub disabled_types : List PoolConfig → List PoolType
disabled_types [] = []
disabled_types (c ∷ configs) =
    let rest = disabled_types configs in if c.is_disabled then c.pool_type ∷ rest else rest

unfoldable pub query_blacklisted_pool_types : Storage → List PoolType
query_blacklisted_pool_types s = disabled_types (values s.pair_configs)

unfoldable pub query_config : Storage → Outcome StdError ConfigResponse
query_config s = do
  config ← ok_or s.config not_found
  ok (record {
    owner = config.owner;
    pool_configs = values s.pair_configs;
    fee_address = config.fee_address;
    max_referral_commission = config.max_referral_commission;
    only_owner_can_create_pools = config.only_owner_can_create_pools;
    trading_starts = config.trading_starts;
  })

module _ (api : Api) (query_pair_info : String → Outcome StdError PairInfo) where
  unfoldable pub query_pair : Storage → List AssetInfo → Outcome StdError PairInfo
  query_pair s asset_infos = do
    infos ← traverse (validate_info api) asset_infos
    pair ← ok_or (lookup (pair_key infos) s.pairs) not_found
    query_pair_info pair

  unfoldable pub query_pairs :
      Storage → Option (List AssetInfo) → Option ℕ → Outcome StdError (List PairInfo)
  query_pairs s start_after limit = do
    addresses ← read_pairs api s start_after limit
    traverse query_pair_info addresses

unfoldable pub query_fee_info : Storage → PoolType → Outcome StdError FeeInfoResponse
query_fee_info s pool_type = do
  config ← ok_or s.config not_found
  c ← ok_or (lookup (type_name pool_type) s.pair_configs) not_found
  ok (record {
    fee_address = config.fee_address;
    total_fee_bps = c.fee_config.total_fee_bps;
    protocol_fee_bps = c.fee_config.protocol_fee_bps;
  })

unfoldable pub validate_staking_address : Api → Storage → String → Outcome StdError Bool
validate_staking_address api s address = do
  a ← validate_address api address
  ok (s.staking_addresses a)
