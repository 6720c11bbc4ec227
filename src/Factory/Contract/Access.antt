-- ===== src/Factory/Contract/Access.antt =====
-- contracts/factory/src/contract.rs: who may call what.
use whelp_contracts.Prelude.{
  ◌/◌, ◌^◌, ◌≤◌, String, ◌≡◌, true, not, some, List, [], str_eq, arith, if◌then◌else◌, inl, inr,
  Option-cases,
}
use whelp_contracts.Outcome.{Outcome, ok, >>=-eq-ok, map_err, ok_or, traverse, fail_if-eq-ok}
use whelp_contracts.Dex.Error.{StdError, invalid_reply}
use whelp_contracts.Dex.Asset.{Api, Asset, AssetInfo, validate_info}
use whelp_contracts.Dex.Ownership.{
  OwnershipProposal, propose_new_owner as run_propose, drop_ownership_proposal as run_drop,
  claim_ownership as run_claim,
}
use whelp_contracts.Dex.Querier.{Call, Querier}
use whelp_contracts.Pool.State.{PairInfo}
use whelp_contracts.Factory.{
  std, DistributionFlow, Config, Storage, FactoryMsg, load_config, owned, check_asset_infos,
}
use whelp_contracts.Factory.Create.{NewPool, permissionless_fee_sent, execute_create_pair}
use whelp_contracts.Factory.Registry.{
  execute_update_config, execute_update_pair_config, execute_update_pair_fees,
  execute_mark_pairs_as_migrated, execute_create_distribution_flow, deregister_pool_and_staking,
}
use whelp_contracts.Factory.Contract.{
  ExecuteMsg, update_config, update_pool_fees_of, update_pool_config, create_pool,
  create_pool_and_flows, deregister, propose_new_owner, drop_ownership_proposal, claim_ownership,
  mark_as_migrated, create_distribution_flow, withdraw_pool_creation_fees, receive, same_asset,
  receive_cw20_message, propose, drop_proposal, claim, execute,
}

-- The sender is the owner.
abbrev pub IsOwner : Storage → Call → Type 0
IsOwner s call =
    (config : Config) × (s.config ≡ some config) × (str_eq call.sender config.owner ≡ true)

-- The sender may create a pool: the owner if only the owner may, and else who sent the fee.
abbrev pub Creates : Storage → Call → Type 0
Creates s call =
    (config : Config) × (s.config ≡ some config)
    × ((if config.only_owner_can_create_pools
          then str_eq call.sender config.owner
          else permissionless_fee_sent config.pool_creation_fee call.funds)
        ≡ true)

abbrev pub Granted : Storage → Call → ExecuteMsg → Type 0
Granted s call (create_pool new) = Creates s call
Granted s call (create_pool_and_flows new flows) = Creates s call
Granted s call claim_ownership =
    (p : OwnershipProposal) × (s.ownership_proposal ≡ some p)
    × (str_eq call.sender p.owner ≡ true)
    × (call.now / 10 ^ 9 ≤ p.ttl)
Granted s call withdraw_pool_creation_fees = Unit
Granted s call (receive sender amount msg) =
    Creates s call
    × ((config : Config) × (s.config ≡ some config)
        × (same_asset config.pool_creation_fee
              (record { info = AssetInfo.cw20_token call.sender; amount = amount })
            ≡ true))
Granted s call _ = IsOwner s call

load_config-some :
    (s : Storage) {config : Config} → load_config s ≡ ok config → s.config ≡ some config
unfolding load_config
load_config-some s h = ground arith

owned-IsOwner :
    (s : Storage) (call : Call) {config : Config} → owned s call.sender ≡ ok config → IsOwner s call
unfolding owned
owned-IsOwner s call h =
    let (config, e, h') = >>=-eq-ok (load_config s) _ h in
    (config, load_config-some s e, ground arith)

create-Creates :
    (api : Api) (call : Call) (s : Storage) (new : NewPool) (flows : List DistributionFlow)
    {r : Storage × List FactoryMsg}
    → execute_create_pair api call s new flows ≡ ok r
    → Creates s call
unfolding execute_create_pair
create-Creates api call s new flows h =
    let (infos, e, h') = >>=-eq-ok (check_asset_infos api new.asset_infos) _ h in
    let (config, e', h'') = >>=-eq-ok (load_config s) _ h' in
    (config, load_config-some s e', ground arith)

claim-Granted :
    (call : Call) (s : Storage) {r : Storage × List FactoryMsg}
    → claim call s ≡ ok r
    → Granted s call claim_ownership
unfolding claim run_claim
claim-Granted call s {r} h = elim (Option-cases s.ownership_proposal) [
  | inl e ↦ ground (arith, e)
  | inr (p, e) ↦ (p, e, ground (arith, e), ground (arith, e))
]

module _ (api : Api) (querier : Querier)
    (query_pair_info : String → Outcome StdError PairInfo) where
  -- If `execute` of the factory accepts a message, then: for creating a pool the sender is the
  -- owner, if only the owner may, and else has sent the fee in native coins, the owner too, also
  -- where the message comes from a cw20 token, which then is the token of the fee and sent its
  -- amount; for a claim the sender is the proposed owner and the proposal has not expired;
  -- withdrawing the fees is open to all; and for every other message the sender is the owner.
  pub execute-Granted :
      (call : Call) (s : Storage) (msg : ExecuteMsg) {r : Storage × List FactoryMsg}
      → execute api querier query_pair_info call s msg ≡ ok r
      → Granted s call msg
  unfolding execute execute_update_config execute_update_pair_config execute_update_pair_fees
      execute_mark_pairs_as_migrated execute_create_distribution_flow deregister_pool_and_staking
      receive_cw20_message propose drop_proposal run_propose run_drop
  execute-Granted call s (update_config param) h =
      let (config, e, h') = >>=-eq-ok (owned s call.sender) _ h in owned-IsOwner s call e
  execute-Granted call s (update_pool_fees_of infos fees) h =
      let (config, e, h') = >>=-eq-ok (owned s call.sender) _ h in owned-IsOwner s call e
  execute-Granted call s (update_pool_config c) h =
      let (config, e, h') = >>=-eq-ok (owned s call.sender) _ h in owned-IsOwner s call e
  execute-Granted call s (create_pool new) h = create-Creates api call s new [] h
  execute-Granted call s (create_pool_and_flows new flows) h = create-Creates api call s new flows h
  execute-Granted call s (deregister infos) h =
      let (is, e, rest) = >>=-eq-ok (map_err std (traverse (validate_info api) infos)) _ h in
      let (config, e', rest') = >>=-eq-ok (owned s call.sender) _ rest in owned-IsOwner s call e'
  execute-Granted call s (propose_new_owner owner expires_in) h =
      let (config, e, h') = >>=-eq-ok (load_config s) _ h in
      (config, load_config-some s e, ground arith)
  execute-Granted call s drop_ownership_proposal h =
      let (config, e, h') = >>=-eq-ok (load_config s) _ h in
      (config, load_config-some s e, ground arith)
  execute-Granted call s claim_ownership h = claim-Granted call s h
  execute-Granted call s (mark_as_migrated pools) h =
      let (config, e, h') = >>=-eq-ok (owned s call.sender) _ h in owned-IsOwner s call e
  execute-Granted call s (create_distribution_flow infos asset rewards) h =
      let (config, e, h') = >>=-eq-ok (owned s call.sender) _ h in owned-IsOwner s call e
  execute-Granted call s withdraw_pool_creation_fees h = tt
  execute-Granted call s (receive sender amount msg) h =
      let (config, e, rest) = >>=-eq-ok (load_config s) _ h in
      let deposit : Asset = record { info = AssetInfo.cw20_token call.sender; amount = amount } in
      let same = same_asset config.pool_creation_fee deposit in
      let (matches, rest') = fail_if-eq-ok (not same) _ _ rest in
      let (m, e', create) = >>=-eq-ok (map_err std (ok_or msg invalid_reply)) _ rest' in
      (
        create-Creates api call s m.new m.distribution_flows create,
        (config, load_config-some s e, ground (arith, matches)),
      )
