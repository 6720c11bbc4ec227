-- ===== src/StablePool/Quote/Search.antt =====
-- contracts/pool_stable/src/utils.rs: the trade that the search for a price finds.
use native.Mathlib.Nat.{pow-suc, mul-le-mul_left, div-le_of_le-mul}
use whelp_contracts.Prelude.{
  ℕ, zero, suc, ◌≡◌, ◌≤◌, ◌<◌, ◌+◌, ◌-◌, ◌*◌, ◌/◌, ◌^◌, ◌∙◌, ap, arith, List, Option, none, some,
  inl, inr, Bool-cases, if◌then◌else◌, ltb, leb,
}
use whelp_contracts.Outcome.{ok, map_err, Post, Post-ok, Post-of, Post->>=}
use whelp_contracts.Num.{Decimals, one, u128_max, u256_max, fit, add, mul_decimal, ratio}
use whelp_contracts.Dex.Error.{ContractError, std}
use whelp_contracts.Dex.Asset.{AssetInfoValidated}
use whelp_contracts.StablePool.Amp.{Config}
use whelp_contracts.StablePool.Precision.{pow10}
use whelp_contracts.StablePool.Select.{DecimalAsset}
use whelp_contracts.StablePool.State.{Storage, get_precision}
use whelp_contracts.StablePool.Quote.{
  calc_spot_price, pools_after_swap, recurse_bisect_spot_price, find_spot_price,
}

module _ (dec : Decimals) where
  -- Between the two bounds, if these are in order.
  abbrev Between : ℕ → ℕ → ℕ → Type 0
  Between low high n = (low ≤ n) × (n ≤ high)

  half-Between :
      (low high sum half : ℕ)
      → low ≤ high
      → add {E = ContractError} u256_max low high ≡ ok sum
      → ratio dec {E = ContractError} u256_max sum (2 * one) ≡ ok half
      → Between low high half
  half-Between low high sum half le e e' =
      ground (arith, le, e, e', dec.from_ratio_lem sum (2 * one))

  module _ (s : Storage) (now : ℕ) (config : Config) (offer ask : AssetInfoValidated)
      (pools : List DecimalAsset) (target_price : ℕ) where
    recurse_bisect_spot_price-Between :
        (iterations low high : ℕ)
        → low ≤ high
        → Post (Between low high) (
            recurse_bisect_spot_price dec s now config offer ask pools target_price iterations low
              high)
    unfolding recurse_bisect_spot_price
    recurse_bisect_spot_price-Between zero low high le =
        Post->>= (Between low high) (add u256_max low high) _ λ sum e.
          Post-of (Between low high) (ratio dec u256_max sum (2 * one))
            λ half e'. half-Between low high sum half le e e'
    recurse_bisect_spot_price-Between (suc iterations) low high le =
        Post->>= (Between low high) (add u256_max low high) _ λ sum e.
          Post->>= (Between low high) (ratio dec u256_max sum (2 * one)) _ λ half e'.
            Post->>= (Between low high) (pools_after_swap offer ask pools half) _ λ mid_pools f.
              Post->>= (Between low high) (calc_spot_price dec s now config offer ask mid_pools) _
                λ mid_price g.
                  let (above, below) = half-Between low high sum half le e e' in
                  let lower = recurse_bisect_spot_price-Between iterations low half above in
                  let upper = recurse_bisect_spot_price-Between iterations half high below in
                  elim (Bool-cases (ltb target_price mid_price)) [
                    | inl up ↦ rw up (ground (arith, le, above, below, upper))
                    | inr down ↦ rw down (ground (arith, le, above, below, lower))
                  ]

powers : (m n : ℕ) → 10 ^ m * 10 ^ n ≡ 10 ^ (n + m)
powers zero n =
    let same : 10 ^ (n + 0) ≡ 10 ^ n = ap (λ k. 10 ^ k) {x = n + 0} {y = n} (omega arith) in
    omega (arith, same)
powers (suc m) n =
    let same : 10 ^ (n + suc m) ≡ 10 ^ suc (n + m) =
      ap (λ k. 10 ^ k) {x = n + suc m} {y = suc (n + m)} (omega arith) in
    let left : 10 ^ suc m * 10 ^ n ≡ 10 ^ m * 10 * 10 ^ n = ap (λ k. k * 10 ^ n) (pow-suc 10 m) in
    let right : 10 ^ suc (n + m) ≡ 10 ^ (n + m) * 10 = pow-suc 10 (n + m) in
    omega (arith, same, left, right, powers m n)

-- An amount of at most `max_trade` in whole units is one of at most `max_trade` in base units.
in_base_units :
    (max_trade trade p q : ℕ)
    → p + q ≡ 18
    → trade ≤ max_trade * 10 ^ q
    → 10 ^ p * trade / one ≤ max_trade
in_base_units max_trade trade p q whole le =
    let scaled : 10 ^ p * trade ≤ 10 ^ p * (max_trade * 10 ^ q) = mul-le-mul_left (10 ^ p) le in
    let product : 10 ^ p * 10 ^ q ≡ one =
      powers p q ∙ ap (λ n. 10 ^ n) {x = q + p} {y = 18} (omega (arith, whole)) in
    let product' : max_trade * (10 ^ p * 10 ^ q) ≡ max_trade * one =
      ap (λ n. max_trade * n) product in
    div-le_of_le-mul one (omega (arith, scaled, product'))

module _ (dec : Decimals) (s : Storage) (now : ℕ) (config : Config) where
  module _ (offer ask : AssetInfoValidated) (pools : List DecimalAsset)
      (target_price max_trade iterations : ℕ) where
    -- What is said of a trade that is found.
    abbrev Found : Option ℕ → Type 0
    Found none = Unit
    Found (some n) =
        (n ≤ max_trade)
        × ((current : ℕ) × (calc_spot_price dec s now config offer ask pools ≡ ok current)
            × (target_price < current))

    chosen-le :
        (all_in trade : ℕ)
        → Post
            (λ n. n ≤ trade)
            (if ltb all_in target_price
              then recurse_bisect_spot_price dec s now config offer ask pools target_price
                  iterations 0 trade
              else ok trade)
    chosen-le all_in trade =
        let bisected =
          recurse_bisect_spot_price-Between dec s now config offer ask pools target_price iterations
            0 trade (omega arith) in
        let bound =
          Post-of (λ n. n ≤ trade)
            (recurse_bisect_spot_price dec s now config offer ask pools target_price iterations 0
              trade)
            λ n e. (Post-ok (Between dec 0 trade) _ bisected e).1 in
        elim (Bool-cases (ltb all_in target_price)) [
          | inl below ↦ rw below bound
          | inr above ↦ rw above (omega arith)
        ]

    find_spot_price-Found :
        (precision : ℕ)
        → get_precision s offer ≡ ok precision
        → precision ≤ 18
        → Post Found
            (find_spot_price dec s now config offer ask pools target_price max_trade iterations)
    unfolding find_spot_price pow10
    find_spot_price-Found precision known small = rw known (
        Post->>= Found (fit u256_max (dec.from_atomics max_trade precision)) _ λ trade e1.
          Post->>= Found (calc_spot_price dec s now config offer ask pools) _ λ current e2.
            elim (Bool-cases (leb current target_price)) [
              | inl low ↦ rw low tt
              | inr high ↦ rw high (
                  Post->>= Found (pools_after_swap offer ask pools trade) _ λ max_pools e3.
                    Post->>= Found (calc_spot_price dec s now config offer ask max_pools) _
                      λ all_in e4.
                        Post->>= Found
                          (if ltb all_in target_price
                            then recurse_bisect_spot_price dec s now config offer ask pools
                                target_price iterations 0 trade
                            else ok trade)
                          _
                          λ found e5.
                            let within = Post-ok (λ n. n ≤ trade) _ (chosen-le all_in trade) e5 in
                            let whole : trade ≡ max_trade * 10 ^ (18 - precision) =
                              ground (arith, e1, dec.from_atomics_lem max_trade precision, small) in
                            let bound =
                              in_base_units max_trade found precision (18 - precision)
                                (omega (arith, small)) (omega (arith, within, whole)) in
                            Post->>= Found (map_err std (pow10 precision)) _ λ scale e6.
                              Post->>= Found (mul_decimal dec u256_max scale found) _ λ amount e7.
                                Post->>= Found (fit u128_max amount) _ λ n e8.
                                  let same : n ≡ 10 ^ precision * found / one =
                                    ground (arith, e6, e7, e8, dec.mul_floor_lem scale found) in
                                  (rw same bound, (current, e2, ground (arith, high))))
            ])

  pub find_spot_price-le :
      (offer ask : AssetInfoValidated) (pools : List DecimalAsset)
      (target_price max_trade iterations precision : ℕ) {n : ℕ}
      → get_precision s offer ≡ ok precision
      → precision ≤ 18
      → find_spot_price dec s now config offer ask pools target_price max_trade iterations
        ≡ ok (some n)
      → (n ≤ max_trade)
        × ((current : ℕ) × (calc_spot_price dec s now config offer ask pools ≡ ok current)
            × (target_price < current))
  find_spot_price-le offer ask pools target_price max_trade iterations precision known small h =
      Post-ok (Found offer ask pools target_price max_trade iterations) _
        (find_spot_price-Found offer ask pools target_price max_trade iterations precision known
          small)
        h
