-- ===== src/Factory/Contract/Invariant.antt =====
-- contracts/factory/src/contract.rs: what holds of the storage after any run of the contract.
use whelp_contracts.Prelude.{
  ℕ, ◌≤◌, String, ◌≡◌, refl, true, not, Option, none, some, List, [], ◌∷◌, arith, Bool-cases, inl,
  inr, Option-cases,
}
use whelp_contracts.Outcome.{
  Outcome, ok, >>=-eq-ok, map_err, ok_or, traverse, Post, Post->>=, Post-fail_if,
}
use whelp_contracts.Num.{one}
use whelp_contracts.Dex.Error.{StdError, not_found}
use whelp_contracts.Dex.Asset.{Api, AssetInfo, validate_info}
use whelp_contracts.Dex.Spread.{FeeConfig, valid_fee_bps}
use whelp_contracts.Dex.Ownership.{OwnershipProposal, claim_ownership as run_claim}
use whelp_contracts.Dex.Querier.{Call, Querier}
use whelp_contracts.Pool.State.{PairInfo}
use whelp_contracts.TextMap.{save, values}
use whelp_contracts.TextMap.Laws.{Ascending, save-Ascending, remove-Ascending}
use whelp_contracts.Factory.{
  std, type_name, PoolConfig, DistributionFlow, Config, Storage, FactoryMsg, load_config, owned,
  pair_key,
}
use whelp_contracts.Factory.Create.{NewPool, execute_create_pair, instantiate_pair}
use whelp_contracts.Factory.Registry.{
  UpdateConfig, load_pair, new_fee_address, execute_update_config, execute_update_pair_config,
  execute_update_pair_fees, execute_mark_pairs_as_migrated, execute_create_distribution_flow,
  deregister_pool_and_staking, execute_withdraw_pool_creation_fees,
}
use whelp_contracts.Factory.Contract.{
  save_all, ReceiveMsg, receive_cw20_message, propose, drop_proposal, set_owner, claim,
}

-- Each configuration stands under the name of its type, with fees of at most 10000 basis points.
abbrev pub Valid : List (String × PoolConfig) → Type 0
Valid [] = Unit
Valid ((k, c) ∷ configs) =
    (k ≡ type_name c.pool_type) × (valid_fee_bps c.fee_config ≡ true) × Valid configs

pub save-Valid :
    (c : PoolConfig) (configs : List (String × PoolConfig))
    → valid_fee_bps c.fee_config ≡ true
    → Valid configs
    → Valid (save (type_name c.pool_type) c configs)
save-Valid c [] h v = (refl, h, tt)
save-Valid c ((k, d) ∷ configs) h v = ground (arith, save-Valid c configs h)

pub save_all-Valid :
    (configs : List PoolConfig) (saved : List (String × PoolConfig))
    → Valid saved
    → Ascending saved
    → Post (λ saved'. Valid saved' × Ascending saved') (save_all configs saved)
unfolding save_all
save_all-Valid [] saved v a = (v, a)
save_all-Valid (c ∷ configs) saved v a = elim (Bool-cases (valid_fee_bps c.fee_config)) [
  | inr n ↦ rw n tt
  | inl e ↦ rw e (
      save_all-Valid configs (save (type_name c.pool_type) c saved) (save-Valid c saved e v)
        (save-Ascending (type_name c.pool_type) c saved a))
]

-- The maximum of the referral commission is at most one.
abbrev pub Capped : Option Config → Type 0
Capped none = ⊥
Capped (some config) = config.max_referral_commission ≤ one

pub record IsRegistry (all : List (String × String)) (configs : List (String × PoolConfig))
    (config : Option Config) : Type 0 where
  pub pairs : Ascending all
  pub pair_configs : Ascending configs
  pub valid : Valid configs
  pub capped : Capped config

abbrev pub WellFormed : Storage → Type 0
WellFormed s = IsRegistry s.pairs s.pair_configs s.config

pub load_config-Capped :
    (s : Storage) {config : Config}
    → Capped s.config
    → load_config s ≡ ok config
    → config.max_referral_commission ≤ one
unfolding load_config
load_config-Capped s c h = ground arith

pub owned-Capped :
    (s : Storage) (sender : String) {config : Config}
    → Capped s.config
    → owned s sender ≡ ok config
    → config.max_referral_commission ≤ one
unfolding owned
owned-Capped s sender c h =
    let (config, e, h') = >>=-eq-ok (load_config s) _ h in
    let bound = load_config-Capped s c e in ground (arith, bound)

abbrev pub Good : Storage × List FactoryMsg → Type 0
Good r = WellFormed r.0

pub execute_update_config-Good :
    (api : Api) (call : Call) (s : Storage) (param : UpdateConfig)
    → WellFormed s
    → Post Good (execute_update_config api call s param)
unfolding execute_update_config
execute_update_config-Good api call s param w = Post->>= Good (owned s call.sender) _ λ config e.
    Post->>= Good (new_fee_address api param.fee_address config.fee_address) _ λ a e'. record {
      pairs = w.pairs;
      pair_configs = w.pair_configs;
      valid = w.valid;
      capped = owned-Capped s call.sender w.capped e;
    }

pub execute_update_pair_config-Good :
    (call : Call) (s : Storage) (c : PoolConfig)
    → WellFormed s
    → Post Good (execute_update_pair_config call s c)
unfolding execute_update_pair_config
execute_update_pair_config-Good call s c w = Post->>= Good (owned s call.sender) _ λ config e.
    Post-fail_if Good (not (valid_fee_bps c.fee_config)) _ _ λ v. record {
      pairs = w.pairs;
      pair_configs = save-Ascending (type_name c.pool_type) c s.pair_configs w.pair_configs;
      valid = save-Valid c s.pair_configs (ground (arith, v)) w.valid;
      capped = w.capped;
    }

pub execute_create_pair-Good :
    (api : Api) (call : Call) (s : Storage) (new : NewPool) (flows : List DistributionFlow)
    → WellFormed s
    → Post Good (execute_create_pair api call s new flows)
unfolding execute_create_pair
execute_create_pair-Good api call s new flows w = ground (arith, w)

pub execute_update_pair_fees-Good :
    (api : Api) (call : Call) (s : Storage) (infos : List AssetInfo) (fees : FeeConfig)
    → WellFormed s
    → Post Good (execute_update_pair_fees api call s infos fees)
unfolding execute_update_pair_fees
execute_update_pair_fees-Good api call s infos fees w = ground (arith, w)

pub execute_mark_pairs_as_migrated-Good :
    (api : Api) (call : Call) (s : Storage) (pairs : List String)
    → WellFormed s
    → Post Good (execute_mark_pairs_as_migrated api call s pairs)
unfolding execute_mark_pairs_as_migrated
execute_mark_pairs_as_migrated-Good api call s pairs w = ground (arith, w)

pub execute_withdraw_pool_creation_fees-Good :
    (api : Api) (querier : Querier) (call : Call) (s : Storage)
    → WellFormed s
    → Post Good (execute_withdraw_pool_creation_fees api querier call s)
unfolding execute_withdraw_pool_creation_fees
execute_withdraw_pool_creation_fees-Good api querier call s w = ground (arith, w)

pub propose-Good :
    (api : Api) (call : Call) (s : Storage) (owner : String) (expires_in : ℕ)
    → WellFormed s
    → Post Good (propose api call s owner expires_in)
unfolding propose
propose-Good api call s owner expires_in w = ground (arith, w)

pub drop_proposal-Good :
    (call : Call) (s : Storage) → WellFormed s → Post Good (drop_proposal call s)
unfolding drop_proposal
drop_proposal-Good call s w = ground (arith, w)

set_owner-WellFormed :
    (s : Storage) (new_owner : String) → WellFormed s → Post WellFormed (set_owner s new_owner)
unfolding set_owner
set_owner-WellFormed s new_owner w = elim (Option-cases s.config) [
  | inl e ↦ rw e tt
  | inr (config, e) ↦ rw e (record {
    pairs = w.pairs;
    pair_configs = w.pair_configs;
    valid = w.valid;
    capped = rw e at (w.capped);
  })
]

pub claim-Good : (call : Call) (s : Storage) → WellFormed s → Post Good (claim call s)
unfolding claim run_claim
claim-Good call s w =
    let s' : Storage = record s { pairs_to_migrate = some (values s.pairs) } in
    let owned : (p : OwnershipProposal) → Post WellFormed (set_owner s' p.owner) =
      λ p. set_owner-WellFormed s' p.owner w in
    grind (arith, owned)

module _ (api : Api) (query_pair_info : String → Outcome StdError PairInfo) where
  pub execute_create_distribution_flow-Good :
      (call : Call) (s : Storage) (infos : List AssetInfo) (asset : AssetInfo)
      (rewards : List (ℕ × ℕ))
      → WellFormed s
      → Post Good (execute_create_distribution_flow api query_pair_info call s infos asset rewards)
  unfolding execute_create_distribution_flow
  execute_create_distribution_flow-Good call s infos asset rewards w = ground (arith, w)

  pub deregister_pool_and_staking-Good :
      (call : Call) (s : Storage) (infos : List AssetInfo)
      → WellFormed s
      → Post Good (deregister_pool_and_staking api query_pair_info call s infos)
  unfolding deregister_pool_and_staking
  deregister_pool_and_staking-Good call s infos w =
      Post->>= Good (map_err std (traverse (validate_info api) infos)) _ λ is e.
        Post->>= Good (owned s call.sender) _ λ config e'.
          Post->>= Good (load_pair s is) _ λ pair e''.
            Post->>= Good (map_err std (query_pair_info pair)) _ λ info f. record {
              pairs = remove-Ascending (pair_key is) s.pairs w.pairs;
              pair_configs = w.pair_configs;
              valid = w.valid;
              capped = w.capped;
            }

  pub instantiate_pair-Good :
      (call : Call) (s : Storage) (address : String)
      → WellFormed s
      → Post Good (instantiate_pair api query_pair_info call s address)
  unfolding instantiate_pair
  instantiate_pair-Good call s address w =
      Post->>= Good (map_err std (ok_or s.tmp_pair_info not_found)) _ λ tmp e.
        let saved : (pair : String) → Ascending (save tmp.pair_key pair s.pairs) =
          λ pair. save-Ascending tmp.pair_key pair s.pairs w.pairs in
        grind (arith, w, saved)

  pub receive_cw20_message-Good :
      (call : Call) (s : Storage) (amount : ℕ) (msg : Option ReceiveMsg)
      → WellFormed s
      → Post Good (receive_cw20_message api call s amount msg)
  unfolding receive_cw20_message
  receive_cw20_message-Good call s amount msg w = Post->>= Good (load_config s) _ λ config e.
      let created : (m : ReceiveMsg)
          → Post Good (execute_create_pair api call s m.new m.distribution_flows) =
        λ m. execute_create_pair-Good api call s m.new m.distribution_flows w in
      grind (arith, created)
