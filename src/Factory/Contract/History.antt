-- ===== src/Factory/Contract/History.antt =====
-- contracts/factory/src/contract.rs: the storage over the life of the contract, as the steps of its
-- messages, of the replies and of migrations.
use whelp_contracts.Prelude.{String, ◌≡◌, Option, List, [], arith}
use whelp_contracts.Outcome.{Outcome, ok, Post, Post-ok, Post->>=, map_err, ok_or}
use whelp_contracts.Dex.Error.{StdError, invalid_reply}
use whelp_contracts.Dex.Asset.{Api}
use whelp_contracts.Dex.Querier.{Call, Querier}
use whelp_contracts.Pool.State.{PairInfo}
use whelp_contracts.Factory.{std, Storage, FactoryMsg, load_config}
use whelp_contracts.Factory.Contract.{
  InstantiateMsg, instantiate, ExecuteMsg, update_config, update_pool_fees_of, update_pool_config,
  create_pool, create_pool_and_flows, deregister, propose_new_owner, drop_ownership_proposal,
  claim_ownership, mark_as_migrated, create_distribution_flow, withdraw_pool_creation_fees, receive,
  execute, reply, MigrateMsg, update, add_permissionless_pool_deposit, migrate,
}
use whelp_contracts.Factory.Contract.Invariant.{
  WellFormed, Good, save_all-Valid, load_config-Capped, execute_update_config-Good,
  execute_update_pair_config-Good, execute_create_pair-Good, execute_update_pair_fees-Good,
  execute_mark_pairs_as_migrated-Good, execute_withdraw_pool_creation_fees-Good, propose-Good,
  drop_proposal-Good, claim-Good, execute_create_distribution_flow-Good,
  deregister_pool_and_staking-Good, instantiate_pair-Good, receive_cw20_message-Good,
}

module _ (api : Api) (querier : Querier)
    (query_pair_info : String → Outcome StdError PairInfo) where
  -- The storages that messages, replies and migrations lead to. A step that fails changes nothing.
  pub data Reachable (start : Storage) : Storage → Type 0 where
    here : Reachable start start
    executed :
        {s : Storage} {r : Storage × List FactoryMsg} (call : Call) (msg : ExecuteMsg)
        → Reachable start s
        → execute api querier query_pair_info call s msg ≡ ok r
        → Reachable start (r.0)
    replied :
        {s : Storage} {r : Storage × List FactoryMsg} (call : Call) (parsed : Option String)
        → Reachable start s
        → reply api querier query_pair_info call s parsed ≡ ok r
        → Reachable start (r.0)
    migrated :
        {s s' : Storage} (msg : MigrateMsg)
        → Reachable start s
        → migrate s msg ≡ ok s'
        → Reachable start s'

  execute-Good :
      (call : Call) (s : Storage) (msg : ExecuteMsg)
      → WellFormed s
      → Post Good (execute api querier query_pair_info call s msg)
  unfolding execute
  execute-Good call s (update_config param) w = execute_update_config-Good api call s param w
  execute-Good call s (update_pool_fees_of infos fees) w =
      execute_update_pair_fees-Good api call s infos fees w
  execute-Good call s (update_pool_config c) w = execute_update_pair_config-Good call s c w
  execute-Good call s (create_pool new) w = execute_create_pair-Good api call s new [] w
  execute-Good call s (create_pool_and_flows new flows) w =
      execute_create_pair-Good api call s new flows w
  execute-Good call s (deregister infos) w =
      deregister_pool_and_staking-Good api query_pair_info call s infos w
  execute-Good call s (propose_new_owner owner expires_in) w =
      propose-Good api call s owner expires_in w
  execute-Good call s drop_ownership_proposal w = drop_proposal-Good call s w
  execute-Good call s claim_ownership w = claim-Good call s w
  execute-Good call s (mark_as_migrated pools) w =
      execute_mark_pairs_as_migrated-Good api call s pools w
  execute-Good call s (create_distribution_flow infos asset rewards) w =
      execute_create_distribution_flow-Good api query_pair_info call s infos asset rewards w
  execute-Good call s withdraw_pool_creation_fees w =
      execute_withdraw_pool_creation_fees-Good api querier call s w
  execute-Good call s (receive sender amount msg) w =
      receive_cw20_message-Good api query_pair_info call s amount msg w

  reply-Good :
      (call : Call) (s : Storage) (parsed : Option String)
      → WellFormed s
      → Post Good (reply api querier query_pair_info call s parsed)
  unfolding reply
  reply-Good call s parsed w =
      Post->>= Good (map_err std (ok_or parsed invalid_reply)) _
        λ address e. instantiate_pair-Good api query_pair_info call s address w

  migrate-WellFormed :
      (s : Storage) (msg : MigrateMsg) → WellFormed s → Post WellFormed (migrate s msg)
  unfolding migrate
  migrate-WellFormed s update w = w
  migrate-WellFormed s (add_permissionless_pool_deposit asset) w =
      Post->>= WellFormed (load_config s) _ λ config e. record {
        pairs = w.pairs;
        pair_configs = w.pair_configs;
        valid = w.valid;
        capped = load_config-Capped s w.capped e;
      }

  instantiate-WellFormed :
      (call : Call) (msg : InstantiateMsg) → Post WellFormed (instantiate api call msg)
  unfolding instantiate
  instantiate-WellFormed call msg =
      let saved = save_all-Valid msg.pool_configs [] tt tt in ground (arith, saved)

  kept : {start s : Storage} → WellFormed start → Reachable start s → WellFormed s
  kept w here = w
  kept w (executed {s} {r} call msg before h) =
      Post-ok Good (execute api querier query_pair_info call s msg)
        (execute-Good call s msg (kept w before)) h
  kept w (replied {s} {r} call parsed before h) =
      Post-ok Good (reply api querier query_pair_info call s parsed)
        (reply-Good call s parsed (kept w before)) h
  kept w (migrated {s} {s'} msg before h) =
      Post-ok WellFormed (migrate s msg) (migrate-WellFormed s msg (kept w before)) h

  -- Take a factory that `instantiate` created and any sequence of accepted messages, replies and
  -- migrations. At the end the pairs and the pair configurations are in ascending order of their
  -- keys, so no key stands twice, each configuration stands under the name of its pool type and has
  -- fees of at most 10000 basis points, and the maximum referral commission is at most one.
  pub Reachable-IsRegistry :
      (call : Call) (msg : InstantiateMsg) {start s : Storage}
      → instantiate api call msg ≡ ok start
      → Reachable start s
      → WellFormed s
  Reachable-IsRegistry call msg h r =
      kept (Post-ok WellFormed (instantiate api call msg) (instantiate-WellFormed call msg) h) r
