-- ===== src/StablePool/Curve/Laws.antt =====
-- contracts/pool_stable/src/math.rs: what `calc_y` solves.
use native.Mathlib.Nat.{div-mul-le_self, lt-div-mul-add}
use whelp_contracts.Prelude.{
  ℕ, zero, suc, ◌≡◌, ◌≤◌, ◌<◌, ◌+◌, ◌-◌, ◌*◌, ◌/◌, ◌⊎◌, ap, arith, List, inl, inr, Bool-cases, true,
}
use whelp_contracts.Outcome.{ok, >>=-eq-ok, Post, Post-ok, Post->>=}
use whelp_contracts.Num.{Decimals}
use whelp_contracts.Dex.Asset.{AssetInfoValidated}
use whelp_contracts.StablePool.Amp.{Config}
use whelp_contracts.StablePool.Select.{DecimalAsset}
use whelp_contracts.StablePool.Curve.{close, equation, step_y, newton_y, iterations, calc_y}

-- The solution of `y * y + b * y = c + d * y` to within one unit.
abbrev pub IsRoot : ℕ → ℕ → ℕ → ℕ → Type 0
IsRoot b c d y =
    (y * y + b * y ≤ c + d * y + 1) × (c + d * (y + 1) < (y + 1) * (y + 1) + b * (y + 1))

step_y-bounds :
    (b c d y : ℕ) {y' : ℕ}
    → step_y b c d y ≡ ok y'
    → (q : ℕ) × (q + d ≡ y + y + b) × (y' * q ≤ y * y + c) × (y * y + c < y' * q + q)
unfolding step_y
step_y-bounds b c d y {y'} h =
    let q = y + y + b - d in
    let (le, pos, e) : (d ≤ y + y + b) × (0 < q) × ((y * y + c) / q ≡ y') = ground (arith, h) in
    (
      q,
      omega (arith, le),
      rw e at (div-mul-le_self (y * y + c) q),
      rw e at (lt-div-mul-add {a = y * y + c} {b = q} pos),
    )

-- Two steps that are close: the later one is the root.
raised :
    (b c d y q : ℕ)
    → q + d ≡ y + y + b
    → (y + 1) * q ≤ y * y + c
    → y * y + c < (y + 1) * q + q
    → IsRoot b c d (y + 1)
raised b c d y q e low high =
    let e' : (y + 1) * (q + d) ≡ (y + 1) * (y + y + b) = ap (λ n. (y + 1) * n) e in
    (omega (arith, e, e', low), omega (arith, e, e', high))

kept :
    (b c d y q : ℕ) → q + d ≡ y + y + b → y * q ≤ y * y + c → y * y + c < y * q + q → IsRoot b c d y
kept b c d y q e low high =
    let e' : y * (q + d) ≡ y * (y + y + b) = ap (λ n. y * n) e in
    (omega (arith, e, e', low), omega (arith, e, e', high))

lowered :
    (b c d y q : ℕ)
    → q + d ≡ y + 1 + (y + 1) + b
    → y * q ≤ (y + 1) * (y + 1) + c
    → (y + 1) * (y + 1) + c < y * q + q
    → IsRoot b c d y
lowered b c d y q e low high =
    let e' : y * (q + d) ≡ y * (y + 1 + (y + 1) + b) = ap (λ n. y * n) e in
    (omega (arith, e, e', low), omega (arith, e, e', high))

close_cases : (y y' : ℕ) → close 1 y y' ≡ true → (y' ≡ y + 1) ⊎ ((y' ≡ y) ⊎ (y ≡ y' + 1))
unfolding close
close_cases y y' h = ground (arith, h)

close-IsRoot :
    (b c d y q y' : ℕ)
    → q + d ≡ y + y + b
    → y' * q ≤ y * y + c
    → y * y + c < y' * q + q
    → close 1 y y' ≡ true
    → IsRoot b c d y'
close-IsRoot b c d y q y' e low high near = elim (close_cases y y' near) [
  | inl up ↦ rw up (raised b c d y q e (rw up at low) (rw up at high))
  | inr (inl same) ↦ rw same (kept b c d y q e (rw same at low) (rw same at high))
  | inr (inr down) ↦ lowered b c d y' q (rw down at e) (rw down at low) (rw down at high)
]

newton_y-IsRoot : (b c d k y : ℕ) → Post (IsRoot b c d) (newton_y b c d k y)
unfolding newton_y
newton_y-IsRoot b c d zero y = tt
newton_y-IsRoot b c d (suc k) y = Post->>= (IsRoot b c d) (step_y b c d y) _ λ y' e.
    let (q, slope, low, high) = step_y-bounds b c d y e in
    let root : close 1 y y' ≡ true → IsRoot b c d y' = close-IsRoot b c d y q y' slope low high in
    let later = newton_y-IsRoot b c d k y' in
    elim (Bool-cases (close 1 y y')) [
      | inl near ↦ rw near (ground (arith, root near))
      | inr far ↦ rw far later
    ]

module _ (dec : Decimals) where
  pub calc_y-IsRoot :
      (from_asset : DecimalAsset) (to : AssetInfoValidated) (new_amount : ℕ)
      (pools : List DecimalAsset) (amp precision : ℕ) (config : Config) {y : ℕ}
      → calc_y dec from_asset to new_amount pools amp precision config ≡ ok y
      → (b c d : ℕ) × (equation dec from_asset to new_amount pools amp precision config
          ≡ ok (b, c, d))
        × IsRoot b c d y
  unfolding calc_y
  calc_y-IsRoot from_asset to new_amount pools amp precision config {y} h =
      let ((b, c, d), e, h') =
        >>=-eq-ok (equation dec from_asset to new_amount pools amp precision config) _ h in
      (
        b,
        c,
        d,
        e,
        Post-ok (IsRoot b c d) (newton_y b c d iterations d) (newton_y-IsRoot b c d iterations d)
            (ground (arith, h')),
      )
