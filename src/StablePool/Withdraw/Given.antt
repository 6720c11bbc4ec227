-- ===== src/StablePool/Withdraw/Given.antt =====
-- contracts/pool_stable/src/contract.rs: the balances that `imbalanced_withdraw` works with, and the
-- fee on them, described apart from its loops.
use whelp_contracts.Prelude.{
  ℕ, zero, suc, ◌+◌, ◌-◌, ◌*◌, ◌/◌, ◌^◌, ◌<◌, ◌≡◌, refl, ◌⊎◌, inl, inr, true, false, arith, List,
  [], ◌∷◌, some, Bool-cases, subst, ltb, if◌then◌else◌,
}
use whelp_contracts.Outcome.{Outcome, ok, map_err, map_err-eq-ok, >>=-eq-ok}
use whelp_contracts.Num.{Decimals, one, u256_max, sub, checked_fit}
use whelp_contracts.Dex.Error.{ContractError, std, overflow}
use whelp_contracts.Dex.Asset.{AssetInfoValidated, AssetValidated, equal}
use whelp_contracts.MultiHop.{text}
use whelp_contracts.Pool.State.{at}
use whelp_contracts.StablePool.Select.{DecimalAsset}
use whelp_contracts.StablePool.Decimals.{checked_multiply_ratio, with_precision, to_decimal_asset}
use whelp_contracts.StablePool.State.{Storage, get_precision}
use whelp_contracts.StablePool.Liquidity.{
  balance_of, names, omitted, in_decimals, old_balances, imbalance_fee, charge,
}
use whelp_contracts.StablePool.Withdraw.{collect, balances_without}

-- The asset is one of the pool's, with that balance.
abbrev pub Holds : List AssetValidated → AssetInfoValidated → ℕ → Type 0
Holds pools info balance =
    (i : ℕ) × (p : AssetValidated) × (at pools i ≡ ok p)
    × (equal p.info info ≡ true)
    × (balance ≡ p.amount)

balance_of-Holds :
    (info : AssetInfoValidated) (pools : List AssetValidated) {balance : ℕ}
    → balance_of info pools ≡ ok balance
    → Holds pools info balance
unfolding balance_of at
balance_of-Holds info [] h = ground arith
balance_of-Holds info (p ∷ pools) h = elim (Bool-cases (equal p.info info)) [
  | inl same ↦ (0, p, refl, same, ground (arith, h, same))
  | inr other ↦
      let (i, q, e, same, amount) = balance_of-Holds info pools (ground (arith, h, other)) in
      (suc i, q, e, same, amount)
]

module _ (dec : Decimals) (s : Storage) where
  -- An amount and a balance of an asset, in the decimals of its precision.
  abbrev pub IsScaled : AssetInfoValidated → ℕ → ℕ → DecimalAsset × ℕ → Type 0
  IsScaled info amount balance w =
      (precision : ℕ) × (s.precisions (text info) ≡ some precision)
      × (w.0.amount ≡ dec.from_atomics amount precision)
      × (w.1 ≡ dec.from_atomics balance precision)

  -- Each asset that is asked for, with its amount and the balance of its pool.
  abbrev pub Asked : List AssetValidated → List AssetValidated → List (DecimalAsset × ℕ) → Type 0
  Asked pools [] [] = Unit
  Asked pools (a ∷ assets) (w ∷ given) =
      (w.0.info ≡ a.info)
      × ((balance : ℕ) × Holds pools a.info balance × IsScaled a.info a.amount balance w)
      × Asked pools assets given
  Asked pools _ _ = ⊥

  -- Each pool that no asset names, with its balance and nothing taken.
  abbrev pub Untouched :
      List AssetValidated → List AssetValidated → List (DecimalAsset × ℕ) → Type 0
  Untouched assets [] others = others ≡ []
  Untouched assets (p ∷ pools) others =
      ((names p.info assets ≡ true) × Untouched assets pools others)
      ⊎ ((names p.info assets ≡ false)
          × ((w : DecimalAsset × ℕ) × (rest : List (DecimalAsset × ℕ)) × (others ≡ w ∷ rest)
              × (w.0.info ≡ p.info)
              × IsScaled p.info 0 p.amount w
              × Untouched assets pools rest))

  scaled_lem :
      (a : AssetValidated) (balance : ℕ) {precision n : ℕ} {d : DecimalAsset}
      → get_precision s a.info ≡ ok precision
      → to_decimal_asset dec a precision ≡ ok d
      → with_precision dec balance precision ≡ ok n
      → (d.info ≡ a.info) × IsScaled a.info a.amount balance (d, n)
  unfolding get_precision to_decimal_asset with_precision
  scaled_lem a balance {precision} e f g =
      (ground (arith, f), (precision, ground (arith, e), ground (arith, f), ground (arith, g)))

  pub collect-Asked :
      (pools assets : List AssetValidated) {given : List (DecimalAsset × ℕ)}
      → collect dec s pools assets ≡ ok given
      → Asked pools assets given
  unfolding collect
  collect-Asked pools [] {given = []} h = tt
  collect-Asked pools [] {given = w ∷ given} h = ground arith
  collect-Asked pools (a ∷ assets) {given} h =
      let (precision, e0, h0) = >>=-eq-ok (map_err std (get_precision s a.info)) _ h in
      let (pool, e1, h1) = >>=-eq-ok (balance_of a.info pools) _ h0 in
      let (d, e2, h2) = >>=-eq-ok (map_err std (to_decimal_asset dec a precision)) _ h1 in
      let (n, e3, h3) = >>=-eq-ok (map_err std (with_precision dec pool precision)) _ h2 in
      let (rest, e4, h4) = >>=-eq-ok (collect dec s pools assets) _ h3 in
      let (named, scaled) =
        scaled_lem a pool (map_err-eq-ok std _ e0) (map_err-eq-ok std _ e2)
          (map_err-eq-ok std _ e3) in
      let same : (d, n) ∷ rest ≡ given = ground (arith, h4) in
      subst (Asked pools (a ∷ assets)) same
        (named, (pool, balance_of-Holds a.info pools e1, scaled), collect-Asked pools assets e4)

  pub in_decimals-Untouched :
      (assets pools : List AssetValidated) {others : List (DecimalAsset × ℕ)}
      → in_decimals dec s (omitted assets pools) ≡ ok others
      → Untouched assets pools others
  unfolding in_decimals omitted
  in_decimals-Untouched assets [] h = ground (arith, h)
  in_decimals-Untouched assets (p ∷ pools) {others} h = elim (Bool-cases (names p.info assets)) [
    | inl named ↦ inl (named, in_decimals-Untouched assets pools (rw named at h))
    | inr new ↦
        let h' = rw new at h in
        let z = record p { amount = 0 } in
        let (precision, e0, h0) = >>=-eq-ok (get_precision s p.info) _ h' in
        let (d, e1, h1) = >>=-eq-ok (to_decimal_asset dec z precision) _ h0 in
        let (n, e2, h2) = >>=-eq-ok (with_precision dec p.amount precision) _ h1 in
        let (rest, e3, h3) = >>=-eq-ok (in_decimals dec s (omitted assets pools)) _ h2 in
        let (same, scaled) = scaled_lem z p.amount e0 e1 e2 in
        inr (
          new,
          ((d, n), rest, ground (arith, h3), same, scaled, in_decimals-Untouched assets pools e3),
        )
  ]

-- The balances before, and after what is taken.
abbrev pub Splits : List (DecimalAsset × ℕ) → List ℕ → List ℕ → Type 0
Splits [] [] [] = Unit
Splits (w ∷ withdrawn) (a ∷ old) (b ∷ new) =
    (a ≡ w.1) × (b + w.0.amount ≡ w.1) × Splits withdrawn old new
Splits _ _ _ = ⊥

pub balances_without-Splits :
    (withdrawn : List (DecimalAsset × ℕ)) {new : List ℕ}
    → balances_without withdrawn ≡ ok new
    → Splits withdrawn (old_balances withdrawn) new
unfolding balances_without old_balances
balances_without-Splits [] {new = []} h = tt
balances_without-Splits [] {new = b ∷ new} h = ground arith
balances_without-Splits (w ∷ withdrawn) {new = []} h = ground arith
balances_without-Splits (w ∷ withdrawn) {new = b ∷ new} h =
    let (n, e0, h0) = >>=-eq-ok (sub w.1 w.0.amount) _ h in
    let (rest, e, h') = >>=-eq-ok (balances_without withdrawn) _ h0 in
    let same : rest ≡ new = ground (arith, h') in
    (
      refl,
      ground (arith, e0, h'),
      subst (Splits withdrawn (old_balances withdrawn)) same (balances_without-Splits withdrawn e),
    )

-- Three percent times `n / (4 * (n - 1))`, rounded down twice.
abbrev pub IsFee : ℕ → ℕ → Type 0
IsFee n fee = (1 < n) × (fee ≡ 3 * 10 ^ 16 * (n * one / (4 * (n - 1))) / one)

-- The first `n` balances, each lowered by the fee on its distance from the ideal one, which is the
-- balance before in proportion to the invariants; the others are as they were.
abbrev pub Charged : ℕ → ℕ → ℕ → ℕ → List ℕ → List ℕ → List ℕ → Type 0
Charged fee d init_d zero old new out = out ≡ new
Charged fee d init_d (suc n) (a ∷ old) (b ∷ new) (c ∷ out) =
    let ideal = d * a / init_d in
    (c + fee * ((ideal - b) + (b - ideal)) / one ≡ b) × Charged fee d init_d n old new out
Charged fee d init_d (suc n) _ _ _ = ⊥

ok_injective : {a b : List ℕ} → ◌≡◌ {A = Outcome ContractError (List ℕ)} (ok a) (ok b) → a ≡ b
ok_injective h = cc

module _ (dec : Decimals) where
  pub imbalance_fee-IsFee : (n fee : ℕ) → imbalance_fee dec n ≡ ok fee → IsFee n fee
  unfolding imbalance_fee
  imbalance_fee-IsFee n fee h =
      let over : 1 < n = ground (arith, h) in
      let value : fee ≡ dec.mul_floor (3 * 10 ^ 16) (dec.from_ratio n (4 * (n - 1))) =
        ground (arith, h) in
      (over, rw (value, dec.mul_floor_lem, dec.from_ratio_lem) refl)

  charge_step :
      (fee a b d init_d ideal cut c : ℕ)
      → checked_multiply_ratio dec d a init_d ≡ ok ideal
      → checked_fit
          (std overflow)
          u256_max
          (dec.mul_floor fee (if ltb b ideal then ideal - b else b - ideal))
        ≡ ok cut
      → sub {E = ContractError} b cut ≡ ok c
      → c + fee * ((d * a / init_d - b) + (b - d * a / init_d)) / one ≡ b
  unfolding checked_multiply_ratio
  charge_step fee a b d init_d ideal cut c e f g =
      let is_ideal : ideal ≡ d * a / init_d =
        ground (arith, e, dec.multiply_ratio_lem d a init_d) in
      let distance : (if ltb b ideal then ideal - b else b - ideal) ≡ (ideal - b) + (b - ideal) =
        ground arith in
      let is_cut : cut ≡ fee * ((ideal - b) + (b - ideal)) / one =
        ground (arith, f, distance, dec.mul_floor_lem fee ((ideal - b) + (b - ideal))) in
      let back : c + cut ≡ b = ground (arith, g) in rw (← is_ideal, ← is_cut) back

  pub charge-Charged :
      (fee d init_d n : ℕ) (old new : List ℕ) {out : List ℕ}
      → charge dec fee d init_d n old new ≡ ok out
      → Charged fee d init_d n old new out
  unfolding charge
  charge-Charged fee d init_d zero old new h = ground (arith, h)
  charge-Charged fee d init_d (suc n) [] new h = ground (arith, h)
  charge-Charged fee d init_d (suc n) (a ∷ old) [] h = ground (arith, h)
  charge-Charged fee d init_d (suc n) (a ∷ old) (b ∷ new) h =
      let (ideal, e0, h0) = >>=-eq-ok (map_err std (checked_multiply_ratio dec d a init_d)) _ h in
      let difference = if ltb b ideal then ideal - b else b - ideal in
      let (cut, e1, h1) =
        >>=-eq-ok (checked_fit (std overflow) u256_max (dec.mul_floor fee difference)) _ h0 in
      let (c, e2, h2) = >>=-eq-ok (sub b cut) _ h1 in
      let (rest, e3, h3) = >>=-eq-ok (charge dec fee d init_d n old new) _ h2 in
      let same = ok_injective h3 in
      subst (Charged fee d init_d (suc n) (a ∷ old) (b ∷ new)) same (
        charge_step fee a b d init_d ideal cut c (map_err-eq-ok std _ e0) e1 e2,
        charge-Charged fee d init_d n old new e3,
      )
