-- ===== src/Pool/Withdraw.antt =====
-- contracts/pool/src/contract.rs: `withdraw_liquidity`.
use whelp_contracts.Prelude.{ℕ, not, List, [], ◌∷◌, str_eq, some}
use whelp_contracts.Outcome.{Outcome, ok, panic, ◌>>=◌, ◌>>◌, fail_if, unwrap}
use whelp_contracts.Num.{Decimals, sub}
use whelp_contracts.Dex.Error.{ContractError, unauthorized}
use whelp_contracts.Dex.Asset.{AssetValidated, Coin, Msg, into_msg, burn}
use whelp_contracts.Dex.Spread.{get_share_in_assets}
use whelp_contracts.Dex.Querier.{Querier, Call}
use whelp_contracts.Pool.State.{Config, Storage, load_share, at, pool_info}
use whelp_contracts.Pool.Swap.{save_history}
pub mod Laws

-- `info.funds[0]`
unfoldable pub first_coin : List Coin → Outcome ContractError Coin
first_coin [] = panic
first_coin (c ∷ funds) = ok c

-- The last statement of `withdraw_liquidity`: the parameter of the closure hides the amount that
-- was sent, so that the stored amount is subtracted from itself.
unfoldable pub shrink : ℕ → Outcome ContractError ℕ
shrink amount = sub amount amount

module _ (dec : Decimals) (querier : Querier) where
  unfoldable pub withdraw_liquidity : Call → Storage → Outcome ContractError (Storage × List Msg)
  withdraw_liquidity call s = do
    config ← unwrap s.config
    sent ← first_coin call.funds
    let denom = config.pool_info.liquidity_token
    fail_if (not (str_eq sent.denom denom)) ContractError.unauthorized
    (pools, total_share) ← pool_info querier s config
    refunds ← get_share_in_assets dec pools sent.amount total_share
    pool0 ← at pools 0
    refund0 ← at refunds 0
    new_pool0 ← sub pool0.amount refund0.amount
    pool1 ← at pools 1
    refund1 ← at refunds 1
    new_pool1 ← sub pool1.amount refund1.amount
    (s', config') ← save_history dec call.now s config new_pool0 new_pool1 pool0.amount pool1.amount
    stored ← load_share s'
    left ← shrink stored
    ok (
      record s' { lp_share_amount = some left },
      into_msg refund0 call.sender
          ∷ into_msg refund1 call.sender
          ∷ burn (record { denom = denom; amount = sent.amount })
          ∷ [],
    )
