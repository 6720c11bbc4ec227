-- ===== src/Factory/Laws.antt =====
-- contracts/factory: a pool is registered once, whatever the order of its two assets, and can be
-- removed again; the way over a cw20 token never creates one.
use Prim.Native.Nat.{Ordering}
use Prim.Native.String.{compare}
use whelp_contracts.Prelude.{
  ℕ, String, ◌≡◌, refl, ◌∙◌, ap, ◌⊎◌, inl, inr, false, Option, none, some, List, [], ◌∷◌, str_eq,
  str_eq_refl, arith, subst,
}
use whelp_contracts.Outcome.{Outcome, ok, >>=-eq-ok, fail_if-eq-ok, map_err, ok_or, traverse}
use whelp_contracts.Dex.Error.{StdError, not_found}
use whelp_contracts.Dex.Asset.{Api, AssetInfo, AssetInfoValidated, validate_info, validate_address}
use whelp_contracts.Dex.Querier.{Call}
use whelp_contracts.MultiHop.{text}
use whelp_contracts.Pool.State.{PairInfo}
use whelp_contracts.TextMap.{lookup, has, save, remove}
use whelp_contracts.TextMap.Order.{swapped_text, path_by_compare}
use whelp_contracts.TextMap.Laws.{lookup-save, remove-save, has-lookup}
use whelp_contracts.Factory.{
  std, DistributionFlow, TmpPoolInfo, Config, Storage, FactoryMsg, load_config, insert, sorted,
  flatten, texts, pair_key, check_asset_infos, owned,
}
use whelp_contracts.Factory.Create.{
  NewPool, permissionless_fee_sent, execute_create_pair, instantiate_pair,
}
use whelp_contracts.Factory.Registry.{load_pair, deregister_pool_and_staking}
use whelp_contracts.Factory.Contract.{ReceiveMsg, receive_cw20_message}

sorted_pair : (a b : String) → sorted (a ∷ b ∷ []) ≡ sorted (b ∷ a ∷ [])
unfolding sorted insert
sorted_pair a b = order (compare a b) refl
  where
    order : (o : Ordering) → compare a b ≡ o → sorted (a ∷ b ∷ []) ≡ sorted (b ∷ a ∷ [])
    order Ordering.lt e = ground (arith, e, swapped_text a b)
    order Ordering.eq e =
        subst (λ x. sorted (a ∷ x ∷ []) ≡ sorted (x ∷ a ∷ [])) (path_by_compare a b e) refl
    order Ordering.gt e = ground (arith, e, swapped_text a b)

pair_key_pair : (i j : AssetInfoValidated) → pair_key (i ∷ j ∷ []) ≡ pair_key (j ∷ i ∷ [])
unfolding pair_key texts
pair_key_pair i j = ap flatten (sorted_pair (text i) (text j))

-- The two orders of two assets.
abbrev pub Two : AssetInfoValidated → AssetInfoValidated → List AssetInfoValidated → Type 0
Two i j infos = (infos ≡ i ∷ j ∷ []) ⊎ (infos ≡ j ∷ i ∷ [])

Two-pair_key :
    (i j : AssetInfoValidated) (infos : List AssetInfoValidated)
    → Two i j infos
    → pair_key infos ≡ pair_key (i ∷ j ∷ [])
Two-pair_key i j infos (inl e) = ap pair_key e
Two-pair_key i j infos (inr e) = ap pair_key e ∙ pair_key_pair j i

-- What a new pool's two steps do to the registry.
abbrev Registers : Storage → String → Storage → Type 0
Registers s key s' =
    (pair : String) × (lookup key s.pairs ≡ none)
    × (s'.pairs ≡ save key pair s.pairs)
    × (s'.pair_configs ≡ s.pair_configs)

create_steps :
    (api : Api) (call : Call) (s : Storage) (new : NewPool) (flows : List DistributionFlow)
    {r : Storage × List FactoryMsg}
    → execute_create_pair api call s new flows ≡ ok r
    → (infos : List AssetInfoValidated) × (check_asset_infos api new.asset_infos ≡ ok infos)
      × (has (pair_key infos) s.pairs ≡ false)
      × (r.0.pairs ≡ s.pairs)
      × (r.0.pair_configs ≡ s.pair_configs)
      × ((tmp : TmpPoolInfo) × (r.0.tmp_pair_info ≡ some tmp) × (tmp.pair_key ≡ pair_key infos))
unfolding execute_create_pair
create_steps api call s new flows {r} h =
    let (infos, e, loaded) = >>=-eq-ok (check_asset_infos api new.asset_infos) _ h in
    let (config, c, rest) = >>=-eq-ok (load_config s) _ loaded in
    let tmp : TmpPoolInfo = record {
      pair_key = pair_key infos;
      asset_infos = infos;
      distribution_flows = flows;
    } in
    (
      infos,
      e,
      ground (arith, rest),
      ground (arith, rest),
      ground (arith, rest),
      (tmp, ground (arith, rest), refl),
    )

instantiate_steps :
    (api : Api) (query_pair_info : String → Outcome StdError PairInfo) (call : Call) (s : Storage)
    (address : String) {tmp : TmpPoolInfo} {r : Storage × List FactoryMsg}
    → s.tmp_pair_info ≡ some tmp
    → instantiate_pair api query_pair_info call s address ≡ ok r
    → (pair : String) × (r.0.pairs ≡ save tmp.pair_key pair s.pairs)
      × (r.0.pair_configs ≡ s.pair_configs)
unfolding instantiate_pair
instantiate_steps api query_pair_info call s address {tmp} {r} e h =
    let (tmp', t, new) = >>=-eq-ok (map_err std (ok_or s.tmp_pair_info not_found)) _ h in
    let same : tmp' ≡ tmp = ground (arith, e, t) in
    let (fresh, valid) = fail_if-eq-ok (has tmp'.pair_key s.pairs) _ _ new in
    let (pair, v, asked) = >>=-eq-ok (map_err std (validate_address api address)) _ valid in
    let (info, i, done) = >>=-eq-ok (map_err std (query_pair_info pair)) _ asked in
    let saved : r.0.pairs ≡ save tmp'.pair_key pair s.pairs = ground (arith, done) in
    (
      pair,
      saved ∙ ap (λ (t : TmpPoolInfo). save t.pair_key pair s.pairs) same,
      ground (arith, done),
    )

-- Both steps of the creation of a pool of two assets.
created_steps :
    (api : Api) (query_pair_info : String → Outcome StdError PairInfo) (call call' : Call)
    (s : Storage) (new : NewPool) (flows : List DistributionFlow) (address : String)
    (i j : AssetInfoValidated) {infos : List AssetInfoValidated} {c r : Storage × List FactoryMsg}
    → check_asset_infos api new.asset_infos ≡ ok infos
    → Two i j infos
    → execute_create_pair api call s new flows ≡ ok c
    → instantiate_pair api query_pair_info call' (c.0) address ≡ ok r
    → Registers s (pair_key (i ∷ j ∷ [])) (r.0)
created_steps api query_pair_info call call' s new flows address i j {infos} {c} {r} e two create
      h =
    let (infos', e', fresh, pairs, configs, (tmp, t, key)) =
      create_steps api call s new flows create in
    let same : infos' ≡ infos = ground (arith, e, e') in
    let key' : pair_key infos' ≡ pair_key (i ∷ j ∷ []) =
      ap pair_key same ∙ Two-pair_key i j infos two in
    let (pair, saved, configs') = instantiate_steps api query_pair_info call' (c.0) address t h in
    (
      pair,
      subst (λ k. lookup k s.pairs ≡ none) key' (has-lookup (pair_key infos') s.pairs fresh),
      saved
          ∙ ap (λ k. save k pair c.0.pairs) (key ∙ key')
          ∙ ap (λ m. save (pair_key (i ∷ j ∷ [])) pair m) pairs,
      configs' ∙ configs,
    )

module _ (api : Api) (query_pair_info : String → Outcome StdError PairInfo) where
  -- If the creation of a pool of two assets is accepted and its reply is handled, then on that
  -- storage no creation of a pool of these two assets is accepted, in either order, from any
  -- sender, for any pool type.
  pub execute_create_pair-instantiate_pair :
      (call call' again : Call) (s : Storage) (new new' : NewPool)
      (flows flows' : List DistributionFlow) (address : String) (i j : AssetInfoValidated)
      {infos infos' : List AssetInfoValidated} {c r r' : Storage × List FactoryMsg}
      → check_asset_infos api new.asset_infos ≡ ok infos
      → Two i j infos
      → execute_create_pair api call s new flows ≡ ok c
      → instantiate_pair api query_pair_info call' (c.0) address ≡ ok r
      → check_asset_infos api new'.asset_infos ≡ ok infos'
      → Two i j infos'
      → ¬ (execute_create_pair api again (r.0) new' flows' ≡ ok r')
  execute_create_pair-instantiate_pair call call' again s new new' flows flows' address i j {infos}
        {infos'} {c} {r} {r'} e two create h e' two' create' =
      let (pair, fresh, saved, configs) =
        created_steps api query_pair_info call call' s new flows address i j e two create h in
      let (is, e'', fresh', pairs', configs', tmp') =
        create_steps api again (r.0) new' flows' create' in
      let same : is ≡ infos' = ground (arith, e', e'') in
      let key : pair_key is ≡ pair_key (i ∷ j ∷ []) =
        ap pair_key same ∙ Two-pair_key i j infos' two' in
      let none_left : lookup (pair_key (i ∷ j ∷ [])) r.0.pairs ≡ none =
        subst (λ k. lookup k r.0.pairs ≡ none) key (has-lookup (pair_key is) r.0.pairs fresh') in
      let found = lookup-save (pair_key (i ∷ j ∷ [])) (pair_key (i ∷ j ∷ [])) pair s.pairs in
      let missing : lookup (pair_key (i ∷ j ∷ [])) (save (pair_key (i ∷ j ∷ [])) pair s.pairs)
          ≡ none =
        subst (λ m. lookup (pair_key (i ∷ j ∷ [])) m ≡ none) saved none_left in
      ground (arith, found, missing, str_eq_refl (pair_key (i ∷ j ∷ [])))

  -- If the creation of a pool of two assets is accepted, its reply is handled, and the pool is then
  -- deregistered with its assets in either order, the pairs and the pair configurations are what
  -- they were before.
  pub deregister_pool_and_staking-instantiate_pair :
      (call call' later : Call) (s : Storage) (new : NewPool) (flows : List DistributionFlow)
      (address : String) (asset_infos : List AssetInfo) (i j : AssetInfoValidated)
      {infos infos' : List AssetInfoValidated} {c r d : Storage × List FactoryMsg}
      → check_asset_infos api new.asset_infos ≡ ok infos
      → Two i j infos
      → execute_create_pair api call s new flows ≡ ok c
      → instantiate_pair api query_pair_info call' (c.0) address ≡ ok r
      → traverse (validate_info api) asset_infos ≡ ok infos'
      → Two i j infos'
      → deregister_pool_and_staking api query_pair_info later (r.0) asset_infos ≡ ok d
      → (d.0.pairs ≡ s.pairs) × (d.0.pair_configs ≡ s.pair_configs)
  unfolding deregister_pool_and_staking
  deregister_pool_and_staking-instantiate_pair call call' later s new flows address asset_infos i j
        {infos} {infos'} {c} {r} {d} e two create h e' two' removed =
      let (pair, fresh, saved, configs) =
        created_steps api query_pair_info call call' s new flows address i j e two create h in
      let (is, e'', checked) =
        >>=-eq-ok (map_err std (traverse (validate_info api) asset_infos)) _ removed in
      let same : is ≡ infos' = ground (arith, e', e'') in
      let key : pair_key is ≡ pair_key (i ∷ j ∷ []) =
        ap pair_key same ∙ Two-pair_key i j infos' two' in
      let (config, o, loaded) = >>=-eq-ok (owned (r.0) later.sender) _ checked in
      let (p, l, asked) = >>=-eq-ok (load_pair (r.0) is) _ loaded in
      let (info, q, done) = >>=-eq-ok (map_err std (query_pair_info p)) _ asked in
      let left : d.0.pairs ≡ remove (pair_key is) r.0.pairs = ground (arith, done) in
      let kept : d.0.pair_configs ≡ r.0.pair_configs = ground (arith, done) in
      (
        left
            ∙ ap (λ k. remove k r.0.pairs) key
            ∙ ap (λ m. remove (pair_key (i ∷ j ∷ [])) m) saved
            ∙ remove-save (pair_key (i ∷ j ∷ [])) pair s.pairs fresh,
        kept ∙ configs,
      )

  -- A creation that comes from a cw20 token, which sends no native coins and is not the owner, is
  -- refused, whatever the fee and the message are.
  pub receive_cw20_message_refused :
      (call : Call) (s : Storage) (amount : ℕ) (msg : Option ReceiveMsg) {config : Config}
      {r : Storage × List FactoryMsg}
      → s.config ≡ some config
      → call.funds ≡ []
      → str_eq call.sender config.owner ≡ false
      → ¬ (receive_cw20_message api call s amount msg ≡ ok r)
  unfolding receive_cw20_message execute_create_pair load_config permissionless_fee_sent
  receive_cw20_message_refused call s amount msg {config} {r} e empty other h =
      ground (arith, e, empty, other, h)
