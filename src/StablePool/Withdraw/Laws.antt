-- ===== src/StablePool/Withdraw/Laws.antt =====
-- contracts/pool_stable/src/contract.rs: what a withdrawal of given assets burns and pays.
use whelp_contracts.Prelude.{
  ℕ, ◌≡◌, ◌≤◌, ◌<◌, ◌-◌, ◌*◌, ◌%◌, ◌++◌, arith, List, [], ◌∷◌, some, length, ltb, not, str_eq, true,
  refl,
}
use whelp_contracts.Outcome.{
  ok, map_err, map_err-eq-ok, unwrap, Post, Post-ok, Post->>=, Post-of, Post-fail_if,
}
use whelp_contracts.Num.{Decimals}
use whelp_contracts.Dex.Error.{ContractError, std, too_many_assets}
use whelp_contracts.Dex.Asset.{Api, Asset, AssetValidated, Coin, Msg, into_msg, burn, check_assets}
use whelp_contracts.Dex.Oracle.{seconds}
use whelp_contracts.Dex.Querier.{Querier, Call, query_pools}
use whelp_contracts.Pool.State.{at}
use whelp_contracts.Pool.Withdraw.{first_coin, shrink}
use whelp_contracts.StablePool.Amp.{Config, compute_current_amp}
use whelp_contracts.StablePool.Select.{DecimalAsset}
use whelp_contracts.StablePool.Curve.{compute_d}
use whelp_contracts.StablePool.State.{Storage, load_share}
use whelp_contracts.StablePool.Liquidity.{omitted, in_decimals, old_balances, imbalance_fee, charge}
use whelp_contracts.StablePool.Withdraw.Given.{
  Asked, Untouched, Splits, IsFee, Charged, collect-Asked, in_decimals-Untouched,
  balances_without-Splits, imbalance_fee-IsFee, charge-Charged,
}
use whelp_contracts.StablePool.Withdraw.Shares.{shares_to_burn-Covers}
use whelp_contracts.StablePool.Withdraw.{
  collect, balances_without, shares_to_burn, imbalanced_withdraw, pool_info, refund,
  withdraw_liquidity,
}

module _ (dec : Decimals) where
  -- The shares `n` that are burned: their part of all shares is more than the part of the invariant
  -- that is lost, from the balances before to those after the withdrawal of `assets` and its fee.
  pub record IsBurn (querier : Querier) (call : Call) (s : Storage) (config : Config)
      (assets : List AssetValidated) (provided n : ℕ) : Type 0 where
    pub amp : ℕ
    pub pools : List AssetValidated
    pub given : List (DecimalAsset × ℕ)
    pub others : List (DecimalAsset × ℕ)
    pub old : List ℕ
    pub left : List ℕ
    pub charged : List ℕ
    pub fee : ℕ
    pub total_share : ℕ
    pub init_d : ℕ
    pub withdraw_d : ℕ
    pub after_fee_d : ℕ
    pub amplified : compute_current_amp config (seconds call.now) ≡ ok amp
    pub queried : query_pools querier config.pool_info.asset_infos call.contract ≡ ok pools
    pub asked : Asked dec s pools assets given
    pub untouched : Untouched dec s assets pools others
    pub taken : Splits (given ++ others) old left
    pub before : compute_d dec amp old config.greatest_precision ≡ ok init_d
    pub between : compute_d dec amp left config.greatest_precision ≡ ok withdraw_d
    pub rate : IsFee (length config.pool_info.asset_infos % 256) fee
    pub charges :
        Charged fee withdraw_d init_d (length config.pool_info.asset_infos % 256) old left charged
    pub after : compute_d dec amp charged config.greatest_precision ≡ ok after_fee_d
    pub stored : s.lp_share_amount ≡ some total_share
    pub covers : total_share * (init_d - after_fee_d) < n * init_d
    pub affordable : n ≤ provided

  stored_share :
      (s : Storage) {total : ℕ} → load_share s ≡ ok total → s.lp_share_amount ≡ some total
  unfolding load_share
  stored_share s h = ground (arith, h)

  module _ (querier : Querier) (call : Call) (s : Storage) (config : Config) where
    imbalanced_withdraw-IsBurn :
        (provided : ℕ) (assets : List AssetValidated)
        → Post
            (IsBurn querier call s config assets provided)
            (imbalanced_withdraw dec querier call s config provided assets)
    unfolding imbalanced_withdraw
    imbalanced_withdraw-IsBurn provided assets =
        let P = IsBurn querier call s config assets provided in
        let limit = length config.pool_info.asset_infos in
        let p = config.greatest_precision in
        Post-fail_if P (ltb limit (length assets)) (too_many_assets limit (length assets)) _ λ few.
          Post->>= P (map_err std (query_pools querier config.pool_info.asset_infos call.contract))
            _
            λ pools e0. Post->>= P (collect dec s pools assets) _ λ given e1.
              Post->>= P (map_err std (in_decimals dec s (omitted assets pools))) _ λ others e2.
                Post->>= P (map_err std (compute_current_amp config (seconds call.now))) _ λ amp e3.
                  let old = old_balances (given ++ others) in
                  Post->>= P (map_err std (compute_d dec amp old p)) _ λ init_d e4.
                    Post->>= P (balances_without (given ++ others)) _ λ new e5.
                      Post->>= P (map_err std (compute_d dec amp new p)) _ λ withdraw_d e6.
                        Post->>= P (imbalance_fee dec (limit % 256)) _ λ fee e7.
                          Post->>= P (charge dec fee withdraw_d init_d (limit % 256) old new) _
                            λ charged e8.
                              Post->>= P (map_err std (compute_d dec amp charged p)) _ λ after_d e9.
                                Post->>= P (load_share s) _ λ total e10.
                                  Post-of P (shares_to_burn dec total init_d after_d provided)
                                    λ n e11.
                                      let (lost, covers, affordable) =
                                        Post-ok _ _
                                          (shares_to_burn-Covers dec total init_d after_d provided)
                                          e11 in
                                      record {
                                        amp = amp;
                                        pools = pools;
                                        given = given;
                                        others = others;
                                        old = old;
                                        left = new;
                                        charged = charged;
                                        fee = fee;
                                        total_share = total;
                                        init_d = init_d;
                                        withdraw_d = withdraw_d;
                                        after_fee_d = after_d;
                                        amplified = map_err-eq-ok std _ e3;
                                        queried = map_err-eq-ok std _ e0;
                                        asked = collect-Asked dec s pools assets e1;
                                        untouched =
                                            in_decimals-Untouched dec s assets pools
                                              (map_err-eq-ok std _ e2);
                                        taken = balances_without-Splits (given ++ others) e5;
                                        before = map_err-eq-ok std _ e4;
                                        between = map_err-eq-ok std _ e6;
                                        rate = imbalance_fee-IsFee dec (limit % 256) fee e7;
                                        charges =
                                            charge-Charged dec fee withdraw_d init_d (limit % 256)
                                              old new e8;
                                        after = map_err-eq-ok std _ e9;
                                        stored = stored_share s e10;
                                        covers = covers;
                                        affordable = affordable;
                                      }

    -- The payments of the first two assets and the burning of `n` shares.
    abbrev pub pays : AssetValidated → AssetValidated → ℕ → List Msg
    pays a b n =
        into_msg a call.sender
        ∷ into_msg b call.sender
        ∷ burn (record { denom = config.pool_info.liquidity_token; amount = n })
        ∷ []

    refund-IsBurn :
        (amount : ℕ) (a : AssetValidated) (assets : List AssetValidated)
        → Post
            (λ r. (r.1 ≡ a ∷ assets) × IsBurn querier call s config (a ∷ assets) amount (r.0))
            (refund dec querier call s config amount (a ∷ assets))
    unfolding refund
    refund-IsBurn amount a assets =
        let P : ℕ × List AssetValidated → Type 0 =
          λ r. (r.1 ≡ a ∷ assets) × IsBurn querier call s config (a ∷ assets) amount (r.0) in
        Post->>= P (pool_info dec querier s config) _ λ info e.
          Post->>= P (imbalanced_withdraw dec querier call s config amount (a ∷ assets)) _ λ n e'. (
            refl,
            Post-ok (IsBurn querier call s config (a ∷ assets) amount) _
                (imbalanced_withdraw-IsBurn amount (a ∷ assets)) e',
          )

first_two :
    (refunds : List AssetValidated) (a : AssetValidated) (assets : List AssetValidated)
    {x y : AssetValidated}
    → refunds ≡ a ∷ assets
    → at refunds 0 ≡ ok x
    → at refunds 1 ≡ ok y
    → (x ≡ a) × ((rest : List AssetValidated) × (assets ≡ y ∷ rest))
unfolding at
first_two refunds a [] e f g = let h = rw e at g in cc
first_two refunds a (b ∷ rest) {x} {y} e f g =
    let f' : at (a ∷ b ∷ rest) 0 ≡ ok x = rw e at f in
    let g' : at (a ∷ b ∷ rest) 1 ≡ ok y = rw e at g in (cc, (rest, cc))

module _ (dec : Decimals) (querier : Querier) (api : Api) (call : Call) (s : Storage)
    (asset_list : List Asset) where
  module _ (a : AssetValidated) (assets : List AssetValidated) where
    -- What is said of a withdrawal of the assets `a ∷ assets`.
    abbrev pub Burns : Storage × List Msg → Type 0
    Burns r =
        (config : Config) × (s.config ≡ some config)
        × ((sent : Coin) × (first_coin call.funds ≡ ok sent)
            × (str_eq sent.denom config.pool_info.liquidity_token ≡ true)
            × ((b : AssetValidated) × (rest : List AssetValidated) × (assets ≡ b ∷ rest)
                × ((n : ℕ) × (r.1 ≡ pays dec querier call s config a b n)
                    × IsBurn dec querier call s config (a ∷ assets) sent.amount n)))

    withdraw_liquidity-Post :
        check_assets api asset_list ≡ ok (a ∷ assets)
        → Post Burns (withdraw_liquidity dec querier api call s asset_list)
    unfolding withdraw_liquidity
    withdraw_liquidity-Post e = rw e (
        Post->>= Burns (unwrap s.config) _ λ config c.
          Post->>= Burns (first_coin call.funds) _ λ sent f.
            Post-fail_if Burns (not (str_eq sent.denom config.pool_info.liquidity_token))
              ContractError.unauthorized _
              λ paid.
                Post->>= Burns (refund dec querier call s config sent.amount (a ∷ assets)) _
                  λ refunds g. Post->>= Burns (at (refunds.1) 0) _ λ x e0.
                    Post->>= Burns (at (refunds.1) 1) _ λ y e1.
                      Post->>= Burns (load_share s) _ λ stored e2.
                        Post->>= Burns (shrink stored) _ λ left e3.
                          let (same, burned) =
                            Post-ok
                              (λ (r : ℕ × List AssetValidated).
                                (r.1 ≡ a ∷ assets)
                                × IsBurn dec querier call s config (a ∷ assets) sent.amount (r.0))
                              _ (refund-IsBurn dec querier call s config sent.amount a assets) g in
                          let (first, (rest, others)) = first_two (refunds.1) a assets same e0 e1 in
                          (
                            config,
                            ground (arith, c),
                            (
                              sent,
                              f,
                              ground (arith, paid),
                              (y, rest, others, (refunds.0, rw first refl, burned)),
                            ),
                          ))

    -- If the stable pool accepts a withdrawal of given assets, there are at least two of them, its
    -- messages are the payments of the first two to the sender and the burning of shares, and
    -- nothing else. The burned shares are at most the coins of the LP token that were sent, and
    -- their part of the stored shares is more than the part of the invariant that is lost, from the
    -- balances before to those after the withdrawal and its fee: each balance is lowered by the
    -- amount that is asked of its asset, the others stay, and then each of the first n is lowered
    -- by the fee, three percent times n / (4 * (n - 1)) for n assets (modulo 256), on its distance
    -- from the balance before in proportion to the invariants.
    pub withdraw_liquidity-Burns :
        {r : Storage × List Msg}
        → check_assets api asset_list ≡ ok (a ∷ assets)
        → withdraw_liquidity dec querier api call s asset_list ≡ ok r
        → Burns r
    withdraw_liquidity-Burns e h = Post-ok Burns _ (withdraw_liquidity-Post e) h
