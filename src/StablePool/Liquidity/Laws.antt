-- ===== src/StablePool/Liquidity/Laws.antt =====
-- contracts/pool_stable/src/contract.rs: the stored shares grow by what `provide_liquidity` mints.
use whelp_contracts.Prelude.{ℕ, String, ◌+◌, ◌≡◌, refl, Option, some, List, [], ◌∷◌, arith}
use whelp_contracts.Outcome.{ok, Post}
use whelp_contracts.Num.{Decimals}
use whelp_contracts.Dex.Asset.{Api, Asset, AssetValidated, Msg}
use whelp_contracts.Dex.Querier.{Querier, Call}
use whelp_contracts.Pool.Contract.Minted.{minted, minted-append, issue_messages-minted}
use whelp_contracts.StablePool.Amp.{Config}
use whelp_contracts.StablePool.Select.{DecimalAsset}
use whelp_contracts.StablePool.State.{Storage, load_share}
use whelp_contracts.StablePool.Swap.{save_prices}
use whelp_contracts.StablePool.Liquidity.{
  receive_one, receive_all, save_deposit, issue, provide_liquidity,
}

receive_one-minted :
    (call : Call) (deposit : AssetValidated × ℕ)
    → Post (λ r. minted (r.1) ≡ 0) (receive_one call deposit)
unfolding receive_one
receive_one-minted call deposit = ground arith

receive_all-minted :
    (call : Call) (deposits : List (AssetValidated × ℕ))
    → Post (λ r. minted (r.1) ≡ 0) (receive_all call deposits)
unfolding receive_all
receive_all-minted call [] = refl
receive_all-minted call ((deposit, pool) ∷ deposits) =
    grind (arith, receive_one-minted call, receive_all-minted call deposits, minted-append)

module _ (dec : Decimals) where
  save_prices-lp_share_amount :
      (now : ℕ) (s : Storage) (config : Config) (pools : List DecimalAsset)
      → Post (λ s'. s'.lp_share_amount ≡ s.lp_share_amount) (save_prices dec now s config pools)
  unfolding save_prices
  save_prices-lp_share_amount now s config pools = ground arith

  save_deposit-lp_share_amount :
      (now : ℕ) (s : Storage) (config : Config) (total : ℕ) (new old : List DecimalAsset)
      → Post
          (λ s'. s'.lp_share_amount ≡ s.lp_share_amount)
          (save_deposit dec now s config total new old)
  unfolding save_deposit
  save_deposit-lp_share_amount now s config total new old =
      grind (arith, save_prices-lp_share_amount now)

  issue-minted :
      (api : Api) (call : Call) (s : Storage) (config : Config) (deposits : List (DecimalAsset × ℕ))
      (receiver : Option String) (messages : List Msg) (total : ℕ)
      → s.lp_share_amount ≡ some total
      → minted messages ≡ 0
      → Post
          (λ r. r.0.lp_share_amount ≡ some (total + minted (r.1)))
          (issue dec api call s config deposits receiver messages)
  unfolding issue load_share
  issue-minted api call s config deposits receiver messages total e m =
      grind (arith, save_deposit-lp_share_amount call.now, issue_messages-minted messages)

  -- If `provide_liquidity` of the stable pool succeeds, the stored shares grow by the sum of what
  -- its messages mint, the minimum liquidity of a first deposit included.
  pub provide_liquidity-lp_share_amount :
      (querier : Querier) (api : Api) (call : Call) (s : Storage) (asset_list : List Asset)
      (receiver : Option String) (total : ℕ) {r : Storage × List Msg}
      → s.lp_share_amount ≡ some total
      → provide_liquidity dec querier api call s asset_list receiver ≡ ok r
      → r.0.lp_share_amount ≡ some (total + minted (r.1))
  unfolding provide_liquidity
  provide_liquidity-lp_share_amount querier api call s asset_list receiver total e h =
      grind (arith, receive_all-minted call, issue-minted api call s)
