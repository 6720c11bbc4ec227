-- ===== src/Pool/Contract/Minted.antt =====
-- contracts/pool/src/contract.rs: the stored shares grow by what `provide_liquidity` mints.
use whelp_contracts.Prelude.{
  ℕ, String, ◌+◌, ◌≡◌, refl, Option, none, some, List, [], ◌∷◌, ◌++◌, arith, ap, ◌∙◌,
}
use whelp_contracts.Outcome.{ok, Post, >>=-eq-ok}
use whelp_contracts.Num.{Decimals}
use whelp_contracts.Dex.Asset.{
  Api, Asset, AssetInfoValidated, AssetValidated, Coin, Msg, bank_send, cw20_transfer,
  cw20_transfer_from, mint, burn, into_msg, receive,
}
use whelp_contracts.Dex.Querier.{Querier, Call, FactoryConfig}
use whelp_contracts.Pool.State.{Config, Storage, load_config, load_share}
use whelp_contracts.Pool.Swap.{SwapResult, do_swap, protocol_fee, optional}
use whelp_contracts.Pool.Liquidity.{
  Roots, provide_liquidity, receive_all, prepare, swap_half, issue, deposit, save_deposit,
  mint_minimum,
}
use whelp_contracts.Pool.Contract.Frame.{
  identity, fixed, trace, prepare-trace, save_deposit-trace, load_config-fixed, prepare-fixed,
}

-- The sum of what a list of messages mints.
abbrev pub minted : List Msg → ℕ
minted [] = 0
minted (mint c ∷ l) = c.amount + minted l
minted (bank_send a l' ∷ l) = minted l
minted (cw20_transfer a b n ∷ l) = minted l
minted (cw20_transfer_from a b c n ∷ l) = minted l
minted (burn c ∷ l) = minted l

pub minted-append : (l m : List Msg) → minted (l ++ m) ≡ minted l + minted m
minted-append [] m = omega arith
minted-append (mint c ∷ l) m = omega (arith, minted-append l m)
minted-append (bank_send a l' ∷ l) m = minted-append l m
minted-append (cw20_transfer a b n ∷ l) m = minted-append l m
minted-append (cw20_transfer_from a b c n ∷ l) m = minted-append l m
minted-append (burn c ∷ l) m = minted-append l m

receive-minted :
    (a : AssetValidated) (contract sender : String) (funds : List Coin)
    → Post (λ l. minted l ≡ 0) (receive a contract sender funds)
unfolding receive
receive-minted a contract sender funds = ground arith

receive_all-minted :
    (call : Call) (assets : List AssetValidated) (is : List ℕ) (pools : List AssetValidated)
    (messages : List Msg)
    → Post (λ r. minted (r.1) ≡ minted messages) (receive_all call assets is pools messages)
unfolding receive_all
receive_all-minted call [] is pools messages = refl
receive_all-minted call (a ∷ assets) [] pools messages = tt
receive_all-minted call (a ∷ assets) (i ∷ is) pools messages = grind (
  arith,
  receive-minted a call.contract call.sender call.funds,
  receive_all-minted call assets is,
  minted-append messages,
)

module _ (dec : Decimals) (querier : Querier) where
  protocol_fee-minted :
      (to : Option String) (i : AssetInfoValidated) (c rate : ℕ)
      → Post (λ r. minted (optional (r.1)) ≡ 0) (protocol_fee dec to i c rate)
  unfolding protocol_fee into_msg
  protocol_fee-minted none i c rate = refl
  protocol_fee-minted (some to) i c rate = ground arith

  do_swap-minted :
      (now : ℕ) (s : Storage) (config : Config) (f : FactoryConfig) (pools : List AssetValidated)
      (offer : AssetValidated) (belief_price max_spread : Option ℕ)
      (r : SwapResult × Storage × Config)
      → do_swap dec now s config f pools offer belief_price max_spread ≡ ok r
      → minted (optional r.0.protocol_fee_msg) ≡ 0
  unfolding do_swap
  do_swap-minted now s config f pools offer belief_price max_spread r h =
      grind (arith, protocol_fee-minted f.fee_address)

  swap_half-minted :
      (call : Call) (s : Storage) (config : Config) (offer : AssetValidated) (index : ℕ)
      (pools : List AssetValidated) (messages : List Msg)
      (r : Storage × Config × List AssetValidated × List AssetValidated × List Msg)
      → swap_half dec querier call s config offer index pools messages ≡ ok r
      → minted (r.4) ≡ minted messages
  unfolding swap_half
  swap_half-minted call s config offer index pools messages r h =
      grind (arith, do_swap-minted call.now s config, minted-append messages)

  prepare-minted :
      (call : Call) (s : Storage) (config : Config) (assets : List AssetValidated) (is : List ℕ)
      (pools : List AssetValidated) (messages : List Msg)
      (r : Storage × Config × List AssetValidated × List AssetValidated × List Msg)
      → prepare dec querier call s config assets is pools messages ≡ ok r
      → minted (r.4) ≡ minted messages
  unfolding prepare
  prepare-minted call s config [] is pools messages r h = ground arith
  prepare-minted call s config (a ∷ []) [] pools messages r h = ground arith
  prepare-minted call s config (a ∷ []) (i ∷ is) pools messages r h =
      swap_half-minted call s config a i pools messages r h
  prepare-minted call s config (a ∷ b ∷ assets) is pools messages r h = ground arith

mint_minimum-minted : (denom : String) (n : ℕ) → minted (mint_minimum denom n) ≡ n
unfolding mint_minimum
mint_minimum-minted denom n = ground arith

-- The messages of `issue`.
pub issue_messages-minted :
    (messages : List Msg) (denom to : String) (minimum share : ℕ)
    → minted (
        messages
        ++ mint_minimum denom minimum
        ++ mint (record { denom = denom; amount = share })
          ∷ bank_send to (record { denom = denom; amount = share } ∷ [])
          ∷ [])
      ≡ minted messages + minimum + share
issue_messages-minted messages denom to minimum share =
    grind (arith, minted-append, mint_minimum-minted denom minimum)

module _ (dec : Decimals) (querier : Querier) (roots : Roots) (api : Api) where
  save_deposit-share :
      (now : ℕ) (s : Storage) (config : Config) (share total a b x y : ℕ) (r : Storage × Config)
      → fixed s.config ≡ some (identity config)
      → save_deposit dec now (record s { lp_share_amount = some share }) config total a b x y ≡ ok r
      → r.0.lp_share_amount ≡ some share
  unfolding trace
  save_deposit-share now s config share total a b x y r e h =
      ap (λ t. t.1)
        (save_deposit-trace dec now (record s { lp_share_amount = some share }) config total a b x y
          r e h)

  issue-minted :
      (call : Call) (s : Storage) (config : Config) (pools assets : List AssetValidated)
      (tolerance : Option ℕ) (receiver : Option String) (messages : List Msg) (total : ℕ)
      (r : Storage × List Msg)
      → fixed s.config ≡ some (identity config)
      → load_share s ≡ ok total
      → minted messages ≡ 0
      → issue dec roots api call s config pools assets tolerance receiver messages ≡ ok r
      → r.0.lp_share_amount ≡ some (total + minted (r.1))
  unfolding issue
  issue-minted call s config pools assets tolerance receiver messages total r e l m h =
      grind (arith, save_deposit-share call.now s config, issue_messages-minted messages)

  prepare-share :
      (call : Call) (s : Storage) (config : Config) (assets : List AssetValidated) (is : List ℕ)
      (pools : List AssetValidated) (messages : List Msg)
      (r : Storage × Config × List AssetValidated × List AssetValidated × List Msg)
      → load_config s ≡ ok config
      → prepare dec querier call s config assets is pools messages ≡ ok r
      → r.0.lp_share_amount ≡ s.lp_share_amount
  unfolding trace
  prepare-share call s config assets is pools messages r c h =
      ap (λ t. t.1)
        (prepare-trace dec querier call s config assets is pools messages r
          (load_config-fixed dec querier roots api s config c) h)

  share-loaded :
      (s : Storage) (total : ℕ) → s.lp_share_amount ≡ some total → load_share s ≡ ok total
  unfolding load_share
  share-loaded s total e = ground (arith, e)

  deposit-minted :
      (call : Call) (s : Storage) (config : Config) (assets : List AssetValidated) (is : List ℕ)
      (pools : List AssetValidated) (messages : List Msg) (tolerance : Option ℕ)
      (receiver : Option String) (total : ℕ) (r : Storage × List Msg)
      → s.lp_share_amount ≡ some total
      → load_config s ≡ ok config
      → minted messages ≡ 0
      → deposit dec querier roots api call s config assets is pools messages tolerance receiver
        ≡ ok r
      → r.0.lp_share_amount ≡ some (total + minted (r.1))
  unfolding deposit
  deposit-minted call s config assets is pools messages tolerance receiver total r l c m h =
      let (p, e, h') = >>=-eq-ok (prepare dec querier call s config assets is pools messages) _ h in
      issue-minted call (p.0) (p.1) (p.2) (p.3) tolerance receiver (p.4) total r
        (prepare-fixed dec querier roots api call s config assets is pools messages p c e)
        (share-loaded (p.0) total (prepare-share call s config assets is pools messages p c e ∙ l))
        (prepare-minted dec querier call s config assets is pools messages p e ∙ m) h'

  -- If `provide_liquidity` succeeds, the stored shares grow by the sum of what its messages mint,
  -- the minimum liquidity of a first deposit included.
  pub provide_liquidity-minted :
      (call : Call) (s : Storage) (sent : List Asset) (tolerance : Option ℕ)
      (receiver : Option String) (total : ℕ) (r : Storage × List Msg)
      → s.lp_share_amount ≡ some total
      → provide_liquidity dec querier roots api call s sent tolerance receiver ≡ ok r
      → r.0.lp_share_amount ≡ some (total + minted (r.1))
  unfolding provide_liquidity
  provide_liquidity-minted call s sent tolerance receiver total r l h =
      grind (arith, deposit-minted call s, receive_all-minted call)
