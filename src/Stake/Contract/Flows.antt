-- ===== src/Stake/Contract/Flows.antt =====
-- contracts/stake: the handlers of the distribution flows keep the configuration, the stakes and the
-- totals, and only a new flow changes the shape of the distributions.
use whelp_contracts.Prelude.{
  ℕ, ◌<◌, ◌≡◌, String, true, false, Option, List, [], ◌∷◌, ◌++◌, arith, refl, ◌∙◌, ap, length,
}
use whelp_contracts.Outcome.{Outcome, ok, Post, Post-ok, >>=-eq-ok, map_err, ensure}
use whelp_contracts.Num.{Decimals}
use whelp_contracts.Dex.Asset.{
  AssetInfo, AssetInfoValidated, Coin, Msg, validate_info, validate_address,
}
use whelp_contracts.Dex.Error.{StdError}
use whelp_contracts.Stake.Error.{ContractError, std}
use whelp_contracts.Stake.State.{Config, Stakes, Totals, Distribution, Distributions}
use whelp_contracts.Stake.Rewards.{distribute_one, add_shares}
use whelp_contracts.Stake.Chain.{Chain, Call}
use whelp_contracts.Stake.Bond.{Adjustments, Storage}
use whelp_contracts.Stake.Flows.{
  same_periods, has_asset, FundingInfo, execute_create_distribution_flow, update_reward_config,
  fund_all, execute_fund_distribution, execute_receive, distribute_all, execute_distribute_rewards,
  withdraw_one, withdraw_all, execute_withdraw_rewards, reserved_now,
}
use whelp_contracts.Stake.Contract.Frame.{Keeps, shape}

module _ (dec : Decimals) (chain : Chain) where
  -- All but the rewards: the frame and the stakes.
  abbrev pub Same : Storage dec chain → Storage dec chain → Type 0
  Same s s' = Keeps dec chain s s' × (s'.stakes ≡ s.stakes)

  update_reward_config-Same :
      (s : Storage dec chain) (asset : AssetInfoValidated) (amount : ℕ) (f : FundingInfo)
      → Post (λ s'. Same s s') (update_reward_config dec chain s asset amount f)
  unfolding update_reward_config
  update_reward_config-Same s asset amount f = ground arith

  Same-trans : (s s' s'' : Storage dec chain) → Same s s' → Same s' s'' → Same s s''
  Same-trans s s' s'' a b = ((b.0.0 ∙ a.0.0, b.0.1 ∙ a.0.1, b.0.2 ∙ a.0.2), b.1 ∙ a.1)

  fund_all-Same :
      (f : FundingInfo) (cs : List Coin) (s : Storage dec chain) {s' : Storage dec chain}
      → fund_all dec chain f cs s ≡ ok s'
      → Same s s'
  unfolding fund_all
  fund_all-Same f [] s h = ground arith
  fund_all-Same f (c ∷ cs) s {s'} h =
      let (asset, ea, h') =
        >>=-eq-ok (map_err std (validate_info chain.api (AssetInfo.smart_token c.denom))) _ h in
      let (mid, em, h'') = >>=-eq-ok (update_reward_config dec chain s asset c.amount f) _ h' in
      Same-trans s mid s'
        (Post-ok (λ t. Same s t) _ (update_reward_config-Same s asset c.amount f) em)
        (fund_all-Same f cs mid h'')

  fund_steps :
      (s : Storage dec chain) (call : Call) (f : FundingInfo) {r : Storage dec chain × List Msg}
      → execute_fund_distribution dec chain s call f ≡ ok r
      → fund_all dec chain f call.funds s ≡ ok r.0
  unfolding execute_fund_distribution
  fund_steps s call f h = ground arith

  pub execute_fund_distribution-Same :
      (s : Storage dec chain) (call : Call) (f : FundingInfo) {r : Storage dec chain × List Msg}
      → execute_fund_distribution dec chain s call f ≡ ok r
      → Same s (r.0)
  execute_fund_distribution-Same s call f h = fund_all-Same f call.funds s (fund_steps s call f h)

  pub execute_receive-Same :
      (s : Storage dec chain) (call : Call) (amount : ℕ) (f : FundingInfo)
      {r : Storage dec chain × List Msg}
      → execute_receive dec chain s call amount f ≡ ok r
      → Same s (r.0)
  unfolding execute_receive update_reward_config
  execute_receive-Same s call amount f h = ground arith

  multipliers-distribute_one :
      (cfg : Config) (totals : Totals) (balance : Outcome StdError ℕ)
      (reserved : Outcome ContractError ℕ) (d : Distribution)
      → Post
          (λ d'. d'.reward_multipliers ≡ d.reward_multipliers)
          (distribute_one dec cfg totals balance reserved d)
  unfolding distribute_one add_shares
  multipliers-distribute_one cfg totals balance reserved d = ground arith

  shape-distribute_all :
      (cfg : Config) (totals : Totals) (curves : AssetInfoValidated → Option chain.Curve) (now : ℕ)
      (ds : Distributions)
      → Post (λ ds'. shape ds' ≡ shape ds) (distribute_all dec chain cfg totals curves now ds)
  unfolding distribute_all
  shape-distribute_all cfg totals curves now [] = refl
  shape-distribute_all cfg totals curves now ((asset, d) ∷ ds) = ground (
    arith,
    shape-distribute_all cfg totals curves now ds,
    multipliers-distribute_one cfg totals (chain.balance asset)
        (reserved_now dec chain (curves asset) now) d,
  )

  pub execute_distribute_rewards-Same :
      (s : Storage dec chain) (call : Call) (sender : Option String)
      {r : Storage dec chain × List Msg}
      → execute_distribute_rewards dec chain s call sender ≡ ok r
      → Same s (r.0)
  unfolding execute_distribute_rewards
  execute_distribute_rewards-Same s call sender h =
      ground (arith, shape-distribute_all s.config s.totals s.curves call.now s.distributions)

  multipliers-withdraw_one :
      (cfg : Config) (stakes : Stakes) (owner receiver : String) (asset : AssetInfoValidated)
      (d : Distribution) (adjustments : Adjustments)
      → Post
          (λ r. r.0.reward_multipliers ≡ d.reward_multipliers)
          (withdraw_one dec chain cfg stakes owner receiver asset d adjustments)
  unfolding withdraw_one
  multipliers-withdraw_one cfg stakes owner receiver asset d adjustments = ground arith

  shape-withdraw_all :
      (cfg : Config) (stakes : Stakes) (owner receiver : String) (ds : Distributions)
      (adjustments : Adjustments) {r : Distributions × Adjustments × List Msg}
      → withdraw_all dec chain cfg stakes owner receiver ds adjustments ≡ ok r
      → shape (r.0) ≡ shape ds
  unfolding withdraw_all
  shape-withdraw_all cfg stakes owner receiver [] adjustments h = ground arith
  shape-withdraw_all cfg stakes owner receiver ((asset, d) ∷ ds) adjustments h =
      let (one, eo, h') =
        >>=-eq-ok (withdraw_one dec chain cfg stakes owner receiver asset d adjustments) _ h in
      let (rest, er, h'') =
        >>=-eq-ok (withdraw_all dec chain cfg stakes owner receiver ds one.1) _ h' in
      let first =
        Post-ok (λ r. r.0.reward_multipliers ≡ d.reward_multipliers) _
          (multipliers-withdraw_one cfg stakes owner receiver asset d adjustments) eo in
      let after = shape-withdraw_all cfg stakes owner receiver ds (one.1) er in
      ground (arith, h'', first, after)

  pub execute_withdraw_rewards-Same :
      (s : Storage dec chain) (call : Call) (owner receiver : Option String)
      {r : Storage dec chain × List Msg}
      → execute_withdraw_rewards dec chain s call owner receiver ≡ ok r
      → Same s (r.0)
  unfolding execute_withdraw_rewards
  execute_withdraw_rewards-Same s call owner receiver h = grind (arith, shape-withdraw_all s.config)

  -- The keys of the flows are the assets of their shape.
  pub shape-append : (ds es : Distributions) → shape (ds ++ es) ≡ shape ds ++ shape es
  shape-append [] es = refl
  shape-append ((a, d) ∷ ds) es = ap (λ t. (a, d.reward_multipliers) ∷ t) (shape-append ds es)

  abbrev fresh : String → List (ℕ × ℕ) → Distribution
  fresh manager rewards = record {
    shares_per_point = 0;
    shares_leftover = 0;
    distributed_total = 0;
    withdrawable_total = 0;
    manager = manager;
    reward_multipliers = rewards;
  }

  -- A new flow comes last, with the periods of the configuration, and there was room for it.
  pub execute_create_distribution_flow_steps :
      (s : Storage dec chain) (call : Call) (manager : String) (asset : AssetInfo)
      (rewards : List (ℕ × ℕ)) {r : Storage dec chain × List Msg}
      → execute_create_distribution_flow dec chain s call manager asset rewards ≡ ok r
      → (a : AssetInfoValidated) × (m : String) × (validate_info chain.api asset ≡ ok a)
        × (validate_address chain.api manager ≡ ok m)
        × (r.0.distributions ≡ s.distributions ++ (a, fresh m rewards) ∷ [])
        × (same_periods rewards s.config.unbonding_periods ≡ true)
        × (length s.distributions < s.config.max_distributions)
        × (has_asset a s.distributions ≡ false)
        × (r.0.config ≡ s.config)
        × (r.0.totals ≡ s.totals)
        × (r.0.stakes ≡ s.stakes)
  unfolding execute_create_distribution_flow
  execute_create_distribution_flow_steps s call manager asset rewards h =
      let (u, eu, h1) =
        >>=-eq-ok (ensure (chain.is_admin s.admin call.sender) ContractError.admin) _ h in
      let (a, ea, h2) = >>=-eq-ok (map_err std (validate_info chain.api asset)) _ h1 in
      let (m, em, h3) = >>=-eq-ok (map_err std (validate_address chain.api manager)) _ h2 in
      (
        a,
        m,
        ground (arith, ea),
        ground (arith, em),
        ground (arith, h3),
        ground (arith, h3),
        ground (arith, h3),
        ground (arith, h3),
        ground (arith, h3),
        ground (arith, h3),
        ground (arith, h3),
      )
