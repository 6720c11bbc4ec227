-- ===== src/Factory/Deploy.antt =====
-- contracts/factory/src/contract.rs and contracts/pool/src/contract.rs together: the pool that the
-- message of `execute_create_pair` creates.
use whelp_contracts.Prelude.{
  ℕ, String, ◌≡◌, refl, true, some, List, [], ◌∷◌, str_eq, arith, ap, ◌∙◌, Option, not, length,
  ◌==◌,
}
use Prim.Native.String.{◌++◌ as append}
use whelp_contracts.Outcome.{ok, >>=-eq-ok, map_err-eq-ok, map_err, fail_if-eq-ok}
use whelp_contracts.Dex.Error.{std}
use whelp_contracts.Dex.Asset.{Api, AssetInfoValidated, validate_address}
use whelp_contracts.Dex.Asset as Asset
use whelp_contracts.Dex.Spread.{valid_fee_bps}
use whelp_contracts.Dex.Querier.{Call, Querier}
use whelp_contracts.Pool.State.{xyk, Config as PoolState, Storage as PoolStorage}
use whelp_contracts.Pool.Contract.{
  InstantiateMsg as PoolMsg, SubMsg, instantiate as pool_instantiate, validate_fees,
  format_lp_token_name,
}
use whelp_contracts.Factory.{
  DistributionFlow, Config, Storage, instantiate_pool, load_config, combine_with, to_stake_config,
}
use whelp_contracts.Factory.Create.{NewPool, pool_msg, execute_create_pair}

-- The pool that is meant.
abbrev pub Meant : Call → Config → NewPool → PoolMsg → Type 0
Meant call config new m =
    (m.factory_addr ≡ call.contract)
    × (m.verified ≡ str_eq call.sender config.owner)
    × (m.staking_config
        ≡ to_stake_config (combine_with config.default_stake_config new.staking_config))

create-Meant :
    (api : Api) (call : Call) (s : Storage) (new : NewPool) (flows : List DistributionFlow)
    (admin : String) (code : ℕ) (params : Option String) (m : PoolMsg) {s' : Storage}
    {config : Config}
    → s.config ≡ some config
    → execute_create_pair api call s new flows ≡ ok (s', instantiate_pool admin code params m ∷ [])
    → Meant call config new m × (admin ≡ config.owner)
unfolding execute_create_pair pool_msg load_config
create-Meant api call s new flows admin code params m {s'} {config} e h =
    (ground (arith, e, h), ground (arith, e, h))

instantiate_parts :
    (api : Api) (querier : Querier) (call : Call) (m : PoolMsg) {p : PoolStorage × List SubMsg}
    → pool_instantiate api querier call m ≡ ok p
    → (config : PoolState) × (p.0.config ≡ some config)
      × (config.pool_info.verified ≡ m.verified)
      × (config.pool_info.fee_config ≡ m.fee_config)
      × (valid_fee_bps m.fee_config ≡ true)
      × (validate_address api m.factory_addr ≡ ok config.factory_addr)
      × (p.0.tmp_staking_config ≡ some m.staking_config)
unfolding pool_instantiate validate_fees
instantiate_parts api querier call m {p} h =
    let (infos, e, sized) = >>=-eq-ok (Asset.check_asset_infos api m.asset_infos) _ h in
    let (two, fees) = fail_if-eq-ok (not (length infos == 2)) _ _ sized in
    let (u, valid, addressed) = >>=-eq-ok (validate_fees m) _ fees in
    let (factory, f, named) =
      >>=-eq-ok (map_err std (validate_address api m.factory_addr)) _ addressed in
    let (name, n, done) =
      >>=-eq-ok (map_err std (format_lp_token_name api querier infos)) _ named in
    let config : PoolState = record {
      pool_info = record {
        contract_addr = call.contract;
        liquidity_token = append "u" (append name (append "-" call.contract));
        staking_addr = "";
        asset_infos = infos;
        pool_type = xyk;
        fee_config = m.fee_config;
        verified = m.verified;
      };
      factory_addr = factory;
      block_time_last = 0;
      price0_cumulative_last = 0;
      price1_cumulative_last = 0;
      trading_starts = m.trading_starts;
    } in
    (
      config,
      ground (arith, done),
      refl,
      refl,
      ground (arith, valid),
      map_err-eq-ok std (validate_address api m.factory_addr) f,
      ground (arith, done),
    )

module _ (api : Api) (querier : Querier) where
  -- If `execute_create_pair` is accepted and the pool's `instantiate` accepts the message that it
  -- sends, the admin of the pool is the owner of the factory, and the pool stores the address of
  -- the factory, is verified exactly if the owner created it, has fees of at most 10000 basis
  -- points, and keeps for its staking contract the configuration of the creator, with the defaults
  -- of the factory where the creator gave no value.
  pub execute_create_pair-instantiate :
      (call pool_call : Call) (s : Storage) (new : NewPool) (flows : List DistributionFlow)
      (admin : String) (code : ℕ) (params : Option String) (m : PoolMsg) {s' : Storage}
      {config : Config} {p : PoolStorage × List SubMsg}
      → s.config ≡ some config
      → execute_create_pair api call s new flows
        ≡ ok (s', instantiate_pool admin code params m ∷ [])
      → pool_instantiate api querier pool_call m ≡ ok p
      → (admin ≡ config.owner)
        × ((pool : PoolState) × (p.0.config ≡ some pool)
            × (validate_address api call.contract ≡ ok pool.factory_addr)
            × (pool.pool_info.verified ≡ str_eq call.sender config.owner)
            × (valid_fee_bps pool.pool_info.fee_config ≡ true)
            × (p.0.tmp_staking_config
                ≡ some (
                    to_stake_config (combine_with config.default_stake_config new.staking_config))))
  execute_create_pair-instantiate call pool_call s new flows admin code params m {s'} {config} {p} e
        create h =
      let ((address, verified, staking), owner) =
        create-Meant api call s new flows admin code params m e create in
      let (pool, stored, marked, fees, valid, factory, stake) =
        instantiate_parts api querier pool_call m h in
      (
        owner,
        (
          pool,
          stored,
          rw address at factory,
          marked ∙ verified,
          rw (← fees) at valid,
          stake ∙ ap some staking,
        ),
      )
