-- ===== src/Pool/Swap/Laws.antt =====
-- contracts/pool/src/contract.rs: what `do_swap` pays, and what `swap` sends.
use native.Mathlib.Nat.{mul-le-mul_left, div-le_of_le-mul}
use whelp_contracts.Prelude.{
  ℕ, ◌+◌, ◌-◌, ◌*◌, ◌/◌, ◌≤◌, ◌≡◌, ◌⊎◌, inl, inr, Option, none, some, [], ◌∷◌, String, arith, ap,
  subst, true,
}
use whelp_contracts.Outcome.{ok, Post, Post-ok, value_or}
use whelp_contracts.Num.{Decimals, one}
use whelp_contracts.Dex.Asset.{AssetInfoValidated, AssetValidated, Msg, equal}
use whelp_contracts.Dex.Spread.{FeeConfig, total_fee_rate, protocol_fee_rate}
use whelp_contracts.Dex.Querier.{FactoryConfig}
use whelp_contracts.Pool.Curve.{SwapAmounts, compute_swap}
use whelp_contracts.Pool.Curve.Laws.{swap_keeps_product}
use whelp_contracts.Pool.State.{Config, Storage, at}
use whelp_contracts.Pool.Swap.{
  SwapResult, do_swap, choose_pools, protocol_fee, calculate_protocol_fee,
}

-- A part of at most the whole.
part-le : (n bps : ℕ) → bps ≤ 10000 → n * (bps * one / 10000) / one ≤ n
part-le n bps h =
    let small : bps * one / 10000 ≤ one = omega (arith, h) in
    div-le_of_le-mul one (omega (arith, mul-le-mul_left n small))

module _ (dec : Decimals) where
  -- The protocol's fee is a part of the commission, and it is paid in the ask asset.
  protocol_fee-le :
      (to : Option String) (info : AssetInfoValidated) (c : ℕ) (f : FeeConfig)
      → f.protocol_fee_bps ≤ 10000
      → Post (λ r. r.0 ≤ c) (protocol_fee dec to info c (protocol_fee_rate dec f))
  unfolding protocol_fee calculate_protocol_fee protocol_fee_rate
  protocol_fee-le none info c f h = ground arith
  protocol_fee-le (some to) info c f h = ground (
    arith,
    part-le c f.protocol_fee_bps h,
    dec.from_ratio_lem f.protocol_fee_bps 10000,
    dec.mul_floor_lem c (dec.from_ratio f.protocol_fee_bps 10000),
  )

  do_swap_steps :
      (now : ℕ) (s : Storage) (config : Config) (f : FactoryConfig) (p0 p1 offer : AssetValidated)
      (belief_price max_spread : Option ℕ) {r : SwapResult × Storage × Config}
      → do_swap dec now s config f (p0 ∷ p1 ∷ []) offer belief_price max_spread ≡ ok r
      → (pools : AssetValidated × AssetValidated) × (a : SwapAmounts) × (fee : ℕ × Option Msg)
        × (choose_pools offer.info p0 p1 ≡ ok pools)
        × (compute_swap dec pools.0.amount pools.1.amount offer.amount
              (total_fee_rate dec config.pool_info.fee_config)
            ≡ ok a)
        × (protocol_fee dec f.fee_address pools.1.info a.commission_amount
              (protocol_fee_rate dec config.pool_info.fee_config)
            ≡ ok fee)
        × (r.0.return_asset ≡ (record { info = pools.1.info; amount = a.return_amount }))
        × (r.0.protocol_fee_amount ≡ fee.0)
        × (r.0.protocol_fee_msg ≡ fee.1)
  unfolding do_swap at
  do_swap_steps now s config f p0 p1 offer belief_price max_spread h =
      let c = config.pool_info.fee_config in
      let pools = value_or (choose_pools offer.info p0 p1) (p0, p1) in
      let a =
        value_or
          (compute_swap dec pools.0.amount pools.1.amount offer.amount (total_fee_rate dec c))
          (record { return_amount = 0; spread_amount = 0; commission_amount = 0 }) in
      let fee =
        value_or
          (protocol_fee dec f.fee_address pools.1.info a.commission_amount
            (protocol_fee_rate dec c))
          (0, none) in
      (
        pools,
        a,
        fee,
        ground arith,
        ground arith,
        ground arith,
        ground arith,
        ground arith,
        ground arith,
      )

choose_pools-cases :
    (i : AssetInfoValidated) (p0 p1 : AssetValidated) (pools : AssetValidated × AssetValidated)
    → choose_pools i p0 p1 ≡ ok pools
    → ((equal i p0.info ≡ true) × (pools ≡ (p0, p1)))
      ⊎ ((equal i p1.info ≡ true) × (pools ≡ (p1, p0)))
unfolding choose_pools
choose_pools-cases i p0 p1 pools h = ground arith

-- What a swap of `offer` into `offer_pool` for `ask_pool` gives: the offer is of the offer pool's
-- asset, the ask asset is returned, and the product of the pools does not go down when the offer is
-- added and the return and the fee are paid out.
abbrev pub IsSwap : AssetValidated → AssetValidated → AssetValidated → SwapResult → Type 0
IsSwap offer_pool ask_pool offer r =
    (equal offer.info offer_pool.info ≡ true)
    × (r.return_asset.info ≡ ask_pool.info)
    × (offer_pool.amount * ask_pool.amount
        ≤ (offer_pool.amount + offer.amount)
          * (ask_pool.amount - (r.return_asset.amount + r.protocol_fee_amount)))

keeps_more : (n a r c f k : ℕ) → k ≤ n * (a - (r + c)) → f ≤ c → k ≤ n * (a - (r + f))
keeps_more n a r c f k h le =
    let more : a - (r + c) ≤ a - (r + f) = omega (arith, le) in
    omega (arith, h, mul-le-mul_left n more)

module _ (dec : Decimals) where
  pools-IsSwap :
      (config : Config) (f : FactoryConfig) (o a offer : AssetValidated) (r : SwapResult)
      (amounts : SwapAmounts) (fee : ℕ × Option Msg)
      → config.pool_info.fee_config.protocol_fee_bps ≤ 10000
      → equal offer.info o.info ≡ true
      → o.amount + offer.amount ≤ one
      → compute_swap dec o.amount a.amount offer.amount
          (total_fee_rate dec config.pool_info.fee_config)
        ≡ ok amounts
      → protocol_fee dec f.fee_address a.info amounts.commission_amount
          (protocol_fee_rate dec config.pool_info.fee_config)
        ≡ ok fee
      → r.return_asset ≡ (record { info = a.info; amount = amounts.return_amount })
      → r.protocol_fee_amount ≡ fee.0
      → IsSwap o a offer r
  pools-IsSwap config f o a offer r amounts fee bps same small hs hf er ef =
      let c = config.pool_info.fee_config in
      let le =
        Post-ok (λ r. r.0 ≤ amounts.commission_amount) _
          (protocol_fee-le dec f.fee_address a.info amounts.commission_amount c bps) hf in
      let kept =
        swap_keeps_product dec o.amount a.amount offer.amount (total_fee_rate dec c) hs small in
      let more =
        keeps_more (o.amount + offer.amount) a.amount amounts.return_amount
          amounts.commission_amount (fee.0) (o.amount * a.amount) kept le in
      (same, ap (λ z. z.info) er, rw (er, ef) more)

  -- If `do_swap` gives a result, the protocol's part of the fee is at most the whole, and each
  -- balance with the offer is at most 10 ^ 18, then one of the two pools is of the offered asset
  -- and the other is the ask pool, the ask asset is returned, and the product of the balances does
  -- not go down when the offer is added and the return and the protocol fee are paid out.
  pub do_swap-IsSwap :
      (now : ℕ) (s : Storage) (config : Config) (f : FactoryConfig) (p0 p1 offer : AssetValidated)
      (belief_price max_spread : Option ℕ) {r : SwapResult × Storage × Config}
      → config.pool_info.fee_config.protocol_fee_bps ≤ 10000
      → p0.amount + offer.amount ≤ one
      → p1.amount + offer.amount ≤ one
      → do_swap dec now s config f (p0 ∷ p1 ∷ []) offer belief_price max_spread ≡ ok r
      → IsSwap p0 p1 offer (r.0) ⊎ IsSwap p1 p0 offer (r.0)
  do_swap-IsSwap now s config f p0 p1 offer belief_price max_spread {r} bps small0 small1 h =
      let (pools, a, fee, ep, hs, hf, er, ef, em) =
        do_swap_steps dec now s config f p0 p1 offer belief_price max_spread h in
      let swap : equal offer.info pools.0.info ≡ true
          → pools.0.amount + offer.amount ≤ one
          → IsSwap (pools.0) (pools.1) offer (r.0) =
        λ same small.
          pools-IsSwap config f (pools.0) (pools.1) offer (r.0) a fee bps same small hs hf er ef in
      elim (choose_pools-cases offer.info p0 p1 pools ep) [
        | inl (i, e) ↦
            inl (subst (λ q. IsSwap (q.0) (q.1) offer (r.0)) e (swap (rw e i) (rw e small0)))
        | inr (i, e) ↦
            inr (subst (λ q. IsSwap (q.0) (q.1) offer (r.0)) e (swap (rw e i) (rw e small1)))
      ]
