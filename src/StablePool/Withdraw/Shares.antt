-- ===== src/StablePool/Withdraw/Shares.antt =====
-- contracts/pool_stable/src/contract.rs: the shares that `imbalanced_withdraw` burns.
use native.Mathlib.Nat.{lt-div-mul-add}
use whelp_contracts.Prelude.{ℕ, ◌≡◌, ◌≤◌, ◌<◌, ◌+◌, ◌-◌, ◌*◌, ◌/◌, arith}
use whelp_contracts.Outcome.{map_err, Post, Post->>=}
use whelp_contracts.Num.{Decimals, u256_max, checked_sub, checked_fit}
use whelp_contracts.Dex.Error.{overflow, std}
use whelp_contracts.StablePool.Decimals.{checked_multiply_ratio}
use whelp_contracts.StablePool.Withdraw.{shares_to_burn}

module _ (dec : Decimals) where
  pub shares_to_burn-Covers :
      (total init_d after_d provided : ℕ)
      → Post
          (λ n. (after_d ≤ init_d) × (total * (init_d - after_d) < n * init_d) × (n ≤ provided))
          (shares_to_burn dec total init_d after_d provided)
  unfolding shares_to_burn checked_multiply_ratio
  shares_to_burn-Covers total init_d after_d provided =
      let P : ℕ → Type 0 =
        λ n. (after_d ≤ init_d) × (total * (init_d - after_d) < n * init_d) × (n ≤ provided) in
      Post->>= P (checked_sub (std overflow) init_d after_d) _ λ lost e.
        Post->>= P (map_err std (checked_multiply_ratio dec total lost init_d)) _ λ part e'.
          let (pos, quotient) : (0 < init_d) × (part ≡ total * lost / init_d) =
            ground (arith, e', dec.multiply_ratio_lem total lost init_d) in
          let below : total * lost < part * init_d + init_d =
            rw quotient (lt-div-mul-add {a = total * lost} {b = init_d} pos) in
          Post->>= P (checked_fit (std overflow) u256_max (part + 1)) _ λ raised e''.
            let (le, same, next) : (after_d ≤ init_d)
                × (lost ≡ init_d - after_d)
                × (raised ≡ part + 1) =
              ground (arith, e, e'') in
            let covers : total * (init_d - after_d) < raised * init_d =
              rw (← same, next) (omega (arith, below)) in
            ground (arith, le, covers)
