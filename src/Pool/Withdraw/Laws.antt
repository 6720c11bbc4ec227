-- ===== src/Pool/Withdraw/Laws.antt =====
-- contracts/pool/src/contract.rs: what a withdrawal pays, and what it leaves of the stored shares.
use whelp_contracts.Prelude.{ℕ, ◌<◌, ◌≡◌, some, List, [], ◌∷◌, arith, str_eq, true}
use whelp_contracts.Outcome.{ok, value_or}
use whelp_contracts.Num.{Decimals}
use whelp_contracts.Dex.Asset.{AssetInfoValidated, AssetValidated, Coin, Msg, into_msg, burn}
use whelp_contracts.Dex.Spread.{get_share_in_assets}
use whelp_contracts.Dex.Spread.Laws.{Fair, get_share_in_assets-Fair}
use whelp_contracts.Dex.Querier.{Querier, Call}
use whelp_contracts.Pool.State.{Config, Storage, at, pool_info}
use whelp_contracts.Pool.Withdraw.{withdraw_liquidity, first_coin, shrink}

nothing : AssetValidated
nothing = record { info = AssetInfoValidated.smart_token ""; amount = 0 }

module _ (dec : Decimals) (querier : Querier) where
  withdraw_steps :
      (call : Call) (s : Storage) (config : Config) {r : Storage × List Msg}
      → s.config ≡ some config
      → withdraw_liquidity dec querier call s ≡ ok r
      → (sent : Coin) × (balances : List AssetValidated × ℕ) × (refunds : List AssetValidated)
        × (a : AssetValidated) × (b : AssetValidated) × (first_coin call.funds ≡ ok sent)
        × (str_eq sent.denom config.pool_info.liquidity_token ≡ true)
        × (pool_info querier s config ≡ ok balances)
        × (get_share_in_assets dec (balances.0) sent.amount (balances.1) ≡ ok refunds)
        × (at refunds 0 ≡ ok a)
        × (at refunds 1 ≡ ok b)
        × (r.1
            ≡ into_msg a call.sender
              ∷ into_msg b call.sender
              ∷ burn (record { denom = config.pool_info.liquidity_token; amount = sent.amount })
              ∷ [])
        × (r.0.lp_share_amount ≡ some 0)
  unfolding withdraw_liquidity shrink
  withdraw_steps call s config c h =
      let sent = value_or (first_coin call.funds) (record { denom = ""; amount = 0 }) in
      let balances = value_or (pool_info querier s config) ([], 0) in
      let refunds = value_or (get_share_in_assets dec (balances.0) sent.amount (balances.1)) [] in
      let a = value_or (at refunds 0) nothing in
      let b = value_or (at refunds 1) nothing in
      (
        sent,
        balances,
        refunds,
        a,
        b,
        ground arith,
        ground arith,
        ground arith,
        ground arith,
        ground arith,
        ground arith,
        ground arith,
        ground arith,
      )

-- The same assets, with amounts of zero.
Zeroed : List AssetValidated → List AssetValidated → Type 0
Zeroed [] [] = Unit
Zeroed (p ∷ pools) (a ∷ l) = (a ≡ record p { amount = 0 }) × Zeroed pools l
Zeroed _ _ = ⊥

-- What the messages of a withdrawal from the storage `s` are when no shares are stored: payments of
-- nothing of the pool's first and second asset, and the burning of the coins that were sent, which
-- are of the pool's LP token.
abbrev pub PaysNothing : Querier → Call → Storage → List Msg → Type 0
PaysNothing querier call s messages =
    (config : Config) × (pools : List AssetValidated) × (p : AssetValidated) × (q : AssetValidated)
    × (sent : Coin) × (s.config ≡ some config)
    × (pool_info querier s config ≡ ok (pools, 0))
    × (at pools 0 ≡ ok p)
    × (at pools 1 ≡ ok q)
    × (first_coin call.funds ≡ ok sent)
    × (str_eq sent.denom config.pool_info.liquidity_token ≡ true)
    × (messages
        ≡ into_msg (record p { amount = 0 }) call.sender
          ∷ into_msg (record q { amount = 0 }) call.sender
          ∷ burn (record { denom = config.pool_info.liquidity_token; amount = sent.amount })
          ∷ [])

module _ (dec : Decimals) (querier : Querier) where
  -- If a withdrawal succeeds while the stored shares are above zero, its messages are two payments
  -- to the sender and the burning of the coins that were sent, and the payments are the first two
  -- of a list of refunds that names the pool's assets in order, each with at most its part of the
  -- balance: the coins that were sent over the stored shares.
  pub withdraw_liquidity-Fair :
      (call : Call) (s : Storage) (config : Config) (pools : List AssetValidated) (total : ℕ)
      {r : Storage × List Msg}
      → s.config ≡ some config
      → pool_info querier s config ≡ ok (pools, total)
      → 0 < total
      → withdraw_liquidity dec querier call s ≡ ok r
      → (sent : Coin) × (refunds : List AssetValidated) × (a : AssetValidated)
        × (b : AssetValidated) × (first_coin call.funds ≡ ok sent)
        × Fair sent.amount total pools refunds
        × (at refunds 0 ≡ ok a)
        × (at refunds 1 ≡ ok b)
        × (r.1
            ≡ into_msg a call.sender
              ∷ into_msg b call.sender
              ∷ burn (record { denom = config.pool_info.liquidity_token; amount = sent.amount })
              ∷ [])
  withdraw_liquidity-Fair call s config pools total c e pos h =
      let (sent, balances, refunds, a, b, es, ed, ep, eg, ea, eb, em, el) =
        withdraw_steps dec querier call s config c h in
      let same : balances ≡ (pools, total) = grind (arith, e, ep) in
      let eg' : get_share_in_assets dec pools sent.amount total ≡ ok refunds = rw same at eg in
      (
        sent,
        refunds,
        a,
        b,
        es,
        get_share_in_assets-Fair dec pools sent.amount total pos eg',
        ea,
        eb,
        em,
      )
