-- ===== src/Pool/Contract/Frame.antt =====
-- contracts/pool/src/contract.rs: what a message leaves of the storage as it was.
use whelp_contracts.Prelude.{
  ℕ, String, ◌≡◌, refl, Option, none, some, Bool, List, ◌∷◌, [], arith, ap, sym, ◌∙◌, Option-cases,
  inl, inr,
}
use whelp_contracts.Outcome.{ok, >>=-eq-ok}
use whelp_contracts.Num.{Decimals}
use whelp_contracts.Dex.Asset.{Api, Asset, AssetValidated, Msg}
use whelp_contracts.Dex.Querier.{Querier, Call, FactoryConfig}
use whelp_contracts.Pool.State.{PairInfo, Config, Storage, load_config}
use whelp_contracts.Pool.Swap.{SwapResult, swap, do_swap, save_oracle, save_prices, save_history}
use whelp_contracts.Pool.Liquidity.{
  Roots, provide_liquidity, prepare, swap_half, issue, deposit, save_deposit,
}
use whelp_contracts.Pool.Withdraw.{withdraw_liquidity}
use whelp_contracts.Pool.Contract.{update_fees, freeze}
use whelp_contracts.Pool.Contract.Execute.{ExecuteMsg, execute, receive_cw20, swap_native}

-- The part of the configuration that trading never changes.
abbrev pub Identity : Type 0
Identity = PairInfo × String × ℕ

abbrev pub identity : Config → Identity
identity c = (c.pool_info, c.factory_addr, c.trading_starts)

abbrev pub fixed : Option Config → Option Identity
fixed none = none
fixed (some c) = some (identity c)

-- What trading never changes of the storage, and the stored shares.
unfoldable pub kept : Storage → Option Identity × Option Bool × Option String
kept s = (fixed s.config, s.frozen, s.circuit_breaker)

unfoldable pub trace :
    Storage → Config → (Option Identity × Option Bool × Option String) × Option ℕ × Identity
trace s config = (kept s, s.lp_share_amount, identity config)

module _ (dec : Decimals) where
  save_oracle-trace :
      (now : ℕ) (s : Storage) (config : Config) (a b : ℕ) (s' : Storage)
      → save_oracle dec now s a b ≡ ok s'
      → (s'.config ≡ s.config) × (trace s' config ≡ trace s config)
  unfolding save_oracle trace kept
  save_oracle-trace now s config a b s' h = ground arith

  save_prices-trace :
      (now : ℕ) (s : Storage) (config : Config) (x y : ℕ) (r : Storage × Config)
      → fixed s.config ≡ some (identity config)
      → save_prices dec now s config x y ≡ ok r
      → trace (r.0) (r.1) ≡ trace s config
  unfolding save_prices trace kept
  save_prices-trace now s config x y r e h = ground arith

  save_history-trace :
      (now : ℕ) (s : Storage) (config : Config) (a b x y : ℕ) (r : Storage × Config)
      → fixed s.config ≡ some (identity config)
      → save_history dec now s config a b x y ≡ ok r
      → trace (r.0) (r.1) ≡ trace s config
  unfolding save_history
  save_history-trace now s config a b x y r e h =
      let (s', eo, h') = >>=-eq-ok (save_oracle dec now s a b) _ h in
      let (ec, et) = save_oracle-trace now s config a b s' eo in
      save_prices-trace now s' config x y r (rw ec e) h' ∙ et

  pub do_swap-trace :
      (now : ℕ) (s : Storage) (config : Config) (f : FactoryConfig) (pools : List AssetValidated)
      (offer : AssetValidated) (belief_price max_spread : Option ℕ)
      (r : SwapResult × Storage × Config)
      → fixed s.config ≡ some (identity config)
      → do_swap dec now s config f pools offer belief_price max_spread ≡ ok r
      → trace (r.1) (r.2) ≡ trace s config
  unfolding do_swap
  do_swap-trace now s config f pools offer belief_price max_spread r e h =
      grind (arith, save_history-trace now s config)

  pub save_deposit-trace :
      (now : ℕ) (s : Storage) (config : Config) (total a b x y : ℕ) (r : Storage × Config)
      → fixed s.config ≡ some (identity config)
      → save_deposit dec now s config total a b x y ≡ ok r
      → trace (r.0) (r.1) ≡ trace s config
  unfolding save_deposit save_prices trace kept
  save_deposit-trace now s config total a b x y r e h =
      ground (arith, save_history-trace now s config a b x y r e)

  save_deposit-kept :
      (now : ℕ) (s : Storage) (config : Config) (share : Option ℕ) (total a b x y : ℕ)
      (r : Storage × Config)
      → fixed s.config ≡ some (identity config)
      → save_deposit dec now (record s { lp_share_amount = share }) config total a b x y ≡ ok r
      → kept (r.0) ≡ kept s
  unfolding trace kept
  save_deposit-kept now s config share total a b x y r e h =
      ap (λ t. t.0)
        (save_deposit-trace now (record s { lp_share_amount = share }) config total a b x y r e h)

  save_history-kept :
      (now : ℕ) (s : Storage) (config : Config) (a b x y : ℕ) (r : Storage × Config)
      → s.config ≡ some config
      → save_history dec now s config a b x y ≡ ok r
      → kept (r.0) ≡ kept s
  unfolding trace kept
  save_history-kept now s config a b x y r e h =
      ap (λ t. t.0) (save_history-trace now s config a b x y r (ap fixed e) h)

share-kept : (s : Storage) (share : Option ℕ) → kept (record s { lp_share_amount = share }) ≡ kept s
unfolding kept
share-kept s share = refl

-- The part of the storage that a swap does not change.
unfoldable pub rest : Storage → (Option Identity × Option Bool × Option String) × Option ℕ
rest s = (kept s, s.lp_share_amount)

module _ (dec : Decimals) (querier : Querier) where
  do_swap-rest :
      (now : ℕ) (s : Storage) (config : Config) (f : FactoryConfig) (pools : List AssetValidated)
      (offer : AssetValidated) (belief_price max_spread : Option ℕ)
      (r : SwapResult × Storage × Config)
      → load_config s ≡ ok config
      → do_swap dec now s config f pools offer belief_price max_spread ≡ ok r
      → rest (r.1) ≡ rest s
  unfolding rest trace load_config
  do_swap-rest now s config f pools offer belief_price max_spread r e h =
      let same : fixed s.config ≡ some (identity config) = ground (arith, e) in
      ap (λ t. (t.0, t.1))
        (do_swap-trace dec now s config f pools offer belief_price max_spread r same h)

  swap-rest :
      (call : Call) (s : Storage) (sender : String) (offer : AssetValidated)
      (belief_price max_spread : Option ℕ) (to referral_address : Option String)
      (referral_commission : Option ℕ) (r : Storage × List Msg)
      → swap dec querier call s sender offer belief_price max_spread to referral_address
          referral_commission
        ≡ ok r
      → rest (r.0) ≡ rest s
  unfolding swap
  swap-rest call s sender offer belief_price max_spread to referral_address referral_commission r
        h =
      grind (arith, do_swap-rest call.now s)

  swap_half-trace :
      (call : Call) (s : Storage) (config : Config) (offer : AssetValidated) (index : ℕ)
      (pools : List AssetValidated) (messages : List Msg)
      (r : Storage × Config × List AssetValidated × List AssetValidated × List Msg)
      → fixed s.config ≡ some (identity config)
      → swap_half dec querier call s config offer index pools messages ≡ ok r
      → trace (r.0) (r.1) ≡ trace s config
  unfolding swap_half
  swap_half-trace call s config offer index pools messages r e h =
      grind (arith, do_swap-trace dec call.now s config)

  pub prepare-trace :
      (call : Call) (s : Storage) (config : Config) (assets : List AssetValidated) (is : List ℕ)
      (pools : List AssetValidated) (messages : List Msg)
      (r : Storage × Config × List AssetValidated × List AssetValidated × List Msg)
      → fixed s.config ≡ some (identity config)
      → prepare dec querier call s config assets is pools messages ≡ ok r
      → trace (r.0) (r.1) ≡ trace s config
  unfolding prepare
  prepare-trace call s config [] is pools messages r e h = ground arith
  prepare-trace call s config (a ∷ []) [] pools messages r e h = ground arith
  prepare-trace call s config (a ∷ []) (i ∷ is) pools messages r e h =
      swap_half-trace call s config a i pools messages r e h
  prepare-trace call s config (a ∷ b ∷ assets) is pools messages r e h = ground arith

module _ (dec : Decimals) (querier : Querier) (roots : Roots) (api : Api) where
  issue-kept :
      (call : Call) (s : Storage) (config : Config) (pools assets : List AssetValidated)
      (tolerance : Option ℕ) (receiver : Option String) (messages : List Msg)
      (r : Storage × List Msg)
      → fixed s.config ≡ some (identity config)
      → issue dec roots api call s config pools assets tolerance receiver messages ≡ ok r
      → kept (r.0) ≡ kept s
  unfolding issue
  issue-kept call s config pools assets tolerance receiver messages r e h =
      grind (arith, save_deposit-kept dec call.now)

  pub load_config-fixed :
      (s : Storage) (config : Config)
      → load_config s ≡ ok config
      → fixed s.config ≡ some (identity config)
  unfolding load_config
  load_config-fixed s config h = ground arith

  pub prepare-fixed :
      (call : Call) (s : Storage) (config : Config) (assets : List AssetValidated) (is : List ℕ)
      (pools : List AssetValidated) (messages : List Msg)
      (r : Storage × Config × List AssetValidated × List AssetValidated × List Msg)
      → load_config s ≡ ok config
      → prepare dec querier call s config assets is pools messages ≡ ok r
      → fixed r.0.config ≡ some (identity (r.1))
  unfolding trace kept
  prepare-fixed call s config assets is pools messages r c h =
      let e = load_config-fixed s config c in
      let t = prepare-trace dec querier call s config assets is pools messages r e h in
      ap (λ t. t.0.0) t ∙ e ∙ ap (λ t. some (t.2)) (sym t)

  prepare-kept :
      (call : Call) (s : Storage) (config : Config) (assets : List AssetValidated) (is : List ℕ)
      (pools : List AssetValidated) (messages : List Msg)
      (r : Storage × Config × List AssetValidated × List AssetValidated × List Msg)
      → load_config s ≡ ok config
      → prepare dec querier call s config assets is pools messages ≡ ok r
      → kept (r.0) ≡ kept s
  unfolding trace
  prepare-kept call s config assets is pools messages r c h =
      ap (λ t. t.0)
        (prepare-trace dec querier call s config assets is pools messages r
          (load_config-fixed s config c) h)

  deposit-kept :
      (call : Call) (s : Storage) (config : Config) (assets : List AssetValidated) (is : List ℕ)
      (pools : List AssetValidated) (messages : List Msg) (tolerance : Option ℕ)
      (receiver : Option String) (r : Storage × List Msg)
      → load_config s ≡ ok config
      → deposit dec querier roots api call s config assets is pools messages tolerance receiver
        ≡ ok r
      → kept (r.0) ≡ kept s
  unfolding deposit
  deposit-kept call s config assets is pools messages tolerance receiver r c h =
      let (p, e, h') = >>=-eq-ok (prepare dec querier call s config assets is pools messages) _ h in
      issue-kept call (p.0) (p.1) (p.2) (p.3) tolerance receiver (p.4) r
        (prepare-fixed call s config assets is pools messages p c e) h'
      ∙ prepare-kept call s config assets is pools messages p c e

  provide_liquidity-kept :
      (call : Call) (s : Storage) (sent : List Asset) (tolerance : Option ℕ)
      (receiver : Option String) (r : Storage × List Msg)
      → provide_liquidity dec querier roots api call s sent tolerance receiver ≡ ok r
      → kept (r.0) ≡ kept s
  unfolding provide_liquidity
  provide_liquidity-kept call s sent tolerance receiver r h = grind (arith, deposit-kept call s)

  withdraw_liquidity-kept :
      (call : Call) (s : Storage) (r : Storage × List Msg)
      → withdraw_liquidity dec querier call s ≡ ok r
      → kept (r.0) ≡ kept s
  unfolding withdraw_liquidity
  withdraw_liquidity-kept call s r h = grind (arith, save_history-kept dec call.now s, share-kept)

  -- The part of the storage that a message may change.
  abbrev pub Changes : Storage → ExecuteMsg → Storage → Type 0
  Changes s (ExecuteMsg.update_fees fee_config) s' =
      (config : Config) × (s.config ≡ some config)
      × (s' ≡ record s {
        config =
            some
              (record config { pool_info = record config.pool_info { fee_config = fee_config } });
      })
  Changes s (ExecuteMsg.freeze frozen) s' = s' ≡ record s { frozen = some frozen }
  Changes s (ExecuteMsg.provide_liquidity assets tolerance receiver) s' = kept s' ≡ kept s
  Changes s (ExecuteMsg.withdraw_liquidity assets) s' = kept s' ≡ kept s
  Changes s (ExecuteMsg.receive m) s' = rest s' ≡ rest s
  Changes s (ExecuteMsg.swap asset m) s' = rest s' ≡ rest s
  Changes s _ s' = ⊥

  -- If `execute` accepts a message, then a change of the fees changes nothing but the fees,
  -- freezing changes nothing but the flag, and deposits, withdrawals and swaps leave the pool's
  -- assets, addresses and fees, the start of trading, the flag and the circuit breaker as they
  -- were; swaps leave the stored shares too.
  pub execute-Changes :
      (call : Call) (s : Storage) (msg : ExecuteMsg) (r : Storage × List Msg)
      → execute dec querier api roots call s msg ≡ ok r
      → Changes s msg (r.0)
  unfolding execute receive_cw20 swap_native update_fees freeze load_config
  execute-Changes call s (ExecuteMsg.receive m) r h = grind (arith, swap-rest dec querier call s)
  execute-Changes call s (ExecuteMsg.provide_liquidity assets tolerance receiver) r h =
      provide_liquidity-kept call s assets tolerance receiver r h
  execute-Changes call s (ExecuteMsg.withdraw_liquidity assets) r h =
      withdraw_liquidity-kept call s r h
  execute-Changes call s (ExecuteMsg.swap asset m) r h = grind (arith, swap-rest dec querier call s)
  execute-Changes call s (ExecuteMsg.update_fees fee_config) r h = elim (Option-cases s.config) [
    | inl e ↦ ground (arith, e)
    | inr (config, e) ↦ (config, e, ground (arith, e))
  ]
  execute-Changes call s (ExecuteMsg.freeze frozen) r h = ground arith
  execute-Changes call s ExecuteMsg.update_config r h = ground arith
  execute-Changes call s ExecuteMsg.propose_new_owner r h = ground arith
  execute-Changes call s ExecuteMsg.drop_ownership_proposal r h = ground arith
  execute-Changes call s ExecuteMsg.claim_ownership r h = ground arith
