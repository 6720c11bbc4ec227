-- ===== src/StablePool/Quote/Laws.antt =====
-- contracts/pool_stable/src/utils.rs: what a swap returns.
use whelp_contracts.Prelude.{ℕ, ◌≡◌, ◌≤◌, ◌+◌, ◌-◌, arith, List, refl}
use whelp_contracts.Outcome.{ok, map_err-eq-ok, map_err, Post, Post-ok, Post->>=}
use whelp_contracts.Num.{Decimals, u256_max, add, sub}
use whelp_contracts.Dex.Error.{ContractError, std}
use whelp_contracts.StablePool.Amp.{Config, compute_current_amp}
use whelp_contracts.StablePool.Select.{DecimalAsset}
use whelp_contracts.StablePool.Decimals.{to_uint128_with_precision}
use whelp_contracts.StablePool.Curve.{equation, calc_y}
use whelp_contracts.StablePool.Curve.Laws.{IsRoot, calc_y-IsRoot}
use whelp_contracts.StablePool.State.{Storage, get_precision}
use whelp_contracts.StablePool.Quote.{SwapResult, compute_swap}

module _ (dec : Decimals) (s : Storage) (now : ℕ) (config : Config) where
  -- What is said of a swap: the ask pool that is left solves the equation.
  abbrev pub Solves :
      DecimalAsset → DecimalAsset → DecimalAsset → List DecimalAsset → SwapResult → Type 0
  Solves offer_asset offer_pool ask_pool pools r =
      (precision amp ask b c d : ℕ) × (get_precision s ask_pool.info ≡ ok precision)
      × (compute_current_amp config now ≡ ok amp)
      × (to_uint128_with_precision ask_pool.amount precision ≡ ok ask)
      × (equation dec offer_asset ask_pool.info (offer_pool.amount + offer_asset.amount) pools amp
            precision config
          ≡ ok (b, c, d))
      × (r.return_amount ≤ ask)
      × IsRoot b c d (ask - r.return_amount)

  module _ (offer_asset offer_pool ask_pool : DecimalAsset) (pools : List DecimalAsset) where
    solves :
        (precision amp ask y left offered : ℕ) (r : SwapResult)
        → map_err std (get_precision s ask_pool.info) ≡ ok precision
        → add {E = ContractError} u256_max offer_pool.amount offer_asset.amount ≡ ok offered
        → map_err std (compute_current_amp config now) ≡ ok amp
        → map_err std (calc_y dec offer_asset ask_pool.info offered pools amp precision config)
          ≡ ok y
        → map_err std (to_uint128_with_precision ask_pool.amount precision) ≡ ok ask
        → sub {E = ContractError} ask y ≡ ok left
        → r.return_amount ≡ left
        → Solves offer_asset offer_pool ask_pool pools r
    solves precision amp ask y left offered r e0 e1 e2 e3 e4 e5 returned =
        let (b, c, d, eq, root) =
          calc_y-IsRoot dec offer_asset ask_pool.info offered pools amp precision config
            (map_err-eq-ok std _ e3) in
        let sum : offered ≡ offer_pool.amount + offer_asset.amount = ground (arith, e1) in
        let (le, rest) : (r.return_amount ≤ ask) × (ask - r.return_amount ≡ y) =
          ground (arith, e5, returned) in
        (
          precision,
          amp,
          ask,
          b,
          c,
          d,
          map_err-eq-ok std _ e0,
          map_err-eq-ok std _ e2,
          map_err-eq-ok std _ e4,
          rw sum at eq,
          le,
          rw rest root,
        )

    compute_swap-Solves :
        Post
          (Solves offer_asset offer_pool ask_pool pools)
          (compute_swap dec s now config offer_asset offer_pool ask_pool pools)
    unfolding compute_swap
    compute_swap-Solves =
        let P = Solves offer_asset offer_pool ask_pool pools in
        Post->>= P (map_err std (get_precision s ask_pool.info)) _ λ precision e0.
          Post->>= P (add u256_max offer_pool.amount offer_asset.amount) _ λ offered e1.
            Post->>= P (map_err std (compute_current_amp config now)) _ λ amp e2.
              Post->>= P
                (map_err std
                  (calc_y dec offer_asset ask_pool.info offered pools amp precision config))
                _
                λ y e3.
                  Post->>= P (map_err std (to_uint128_with_precision ask_pool.amount precision)) _
                    λ ask e4. Post->>= P (sub ask y) _ λ left e5.
                      Post->>= P
                        (map_err std (to_uint128_with_precision offer_asset.amount precision)) _
                        λ amount e6.
                          solves precision amp ask y left offered
                            (record { return_amount = left; spread_amount = amount - left }) e0 e1
                            e2 e3 e4 e5 refl

    -- If `compute_swap` of the stable pool gives a result, the return is at most the ask pool, and
    -- the rest y of the ask pool, in base units, solves the equation y * y + b * y = c + d * y of
    -- `calc_y` to within one unit: its left side is at most one more than its right side, and at y
    -- + 1 it is above it. `equation` gives b, c and d from the pools, with the offer in the offer
    -- pool, and the current amplification.
    pub compute_swap-IsRoot :
        {r : SwapResult}
        → compute_swap dec s now config offer_asset offer_pool ask_pool pools ≡ ok r
        → Solves offer_asset offer_pool ask_pool pools r
    compute_swap-IsRoot h =
        Post-ok (Solves offer_asset offer_pool ask_pool pools) _ compute_swap-Solves h
