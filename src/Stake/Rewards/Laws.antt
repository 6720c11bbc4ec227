-- ===== src/Stake/Rewards/Laws.antt =====
-- A change of power keeps the rewards that are due.
use whelp_contracts.Prelude.{
  ℕ, ◌+◌, ◌*◌, ◌<◌, ◌^◌, ◌≡◌, ◌≢◌, ◌/◌, ◌∙◌, sym, inl, inr, ap, arith, le→leb, ℕ-cases,
}
use whelp_contracts.Outcome.{Outcome, ok, ◌>>=◌, Post}
use whelp_contracts.Int.{
  ℤ, pos, pos_part, neg_part, ◌+ℤ◌, ◌-ℤ◌, ◌*ℤ◌, +ℤ_parts, -ℤ_parts, *ℤ_parts, eq_of_parts, as_i128,
  as_u128, fit_i128,
}
use whelp_contracts.Stake.State.{Distribution, WithdrawAdjustment}
use whelp_contracts.Stake.Rewards.{
  shares_scale, apply_points_correction, update_rewards, rewards_of_power,
}
use whelp_contracts.Num.{u128_max, sub}
use whelp_contracts.Stake.Error.{ContractError}

fit_i128-Post : (z : ℤ) → Post (λ w. w ≡ z) (fit_i128 {E = ContractError} z)
unfolding fit_i128
fit_i128-Post z = ground arith

as_i128-small : (n : ℕ) → n < 2 ^ 127 → as_i128 n ≡ pos n
unfolding as_i128
as_i128-small n h = ground arith

-- ppw * new + (c - ppw * (new - old)) is ppw * old + c.
correction_balances :
    (ppw old new : ℕ) (c : ℤ)
    → pos (ppw * new) +ℤ (c -ℤ pos ppw *ℤ (pos new -ℤ pos old)) ≡ pos (ppw * old) +ℤ c
correction_balances ppw old new c =
    let diff = pos new -ℤ pos old in
    let e : pos_part diff + old ≡ neg_part diff + new =
      omega (arith, -ℤ_parts (pos new) (pos old)) in
    eq_of_parts _ _ (
      omega (
        arith,
        ap (λ (t : ℕ). ppw * t) e,
        *ℤ_parts ppw diff,
        -ℤ_parts c (pos ppw *ℤ diff),
        +ℤ_parts (pos (ppw * new)) (c -ℤ pos ppw *ℤ diff),
        +ℤ_parts (pos (ppw * old)) c,
      ))

-- What `rewards_of_power` makes of the points that are due.
abbrev pub paid_out : ℤ → ℕ → Outcome ContractError ℕ
paid_out z withdrawn = do points ← fit_i128 z; sub (as_u128 points / shares_scale) withdrawn

pub rewards_of_power-eq-paid_out :
    (d : Distribution) (a : WithdrawAdjustment) (power : ℕ)
    → d.shares_per_point * power < 2 ^ 127
    → rewards_of_power d a power
      ≡ paid_out (pos (d.shares_per_point * power) +ℤ a.shares_correction) a.withdrawn_rewards
unfolding rewards_of_power
rewards_of_power-eq-paid_out d a power small =
    rw (le→leb (d.shares_per_point * power) u128_max (omega arith), as_i128-small _ small)

fit_i128-pos {ℓ} : {E : Type ℓ} (n : ℕ) → n < 2 ^ 127 → fit_i128 {E = E} (pos n) ≡ ok (pos n)
unfolding fit_i128
fit_i128-pos n h = ground arith

update_rewards_changes :
    (a : WithdrawAdjustment) (d : Distribution) (old new : ℕ) {a' : WithdrawAdjustment}
    → old ≢ new
    → d.shares_per_point < 2 ^ 127
    → old < 2 ^ 127
    → new < 2 ^ 127
    → update_rewards a d old new ≡ ok a'
    → (a'.shares_correction ≡ a.shares_correction -ℤ pos d.shares_per_point *ℤ (pos new -ℤ pos old))
      × (a'.withdrawn_rewards ≡ a.withdrawn_rewards)
unfolding update_rewards apply_points_correction
update_rewards_changes a d old new {a'} ne hs ho hn h =
    let split = rw (as_i128-small old ho, as_i128-small new hn, as_i128-small _ hs) at h in
    let diff = pos new -ℤ pos old in
    let product = pos d.shares_per_point *ℤ diff in
    ground (
      arith,
      fit_i128-Post diff,
      fit_i128-Post product,
      fit_i128-Post (a.shares_correction -ℤ product),
    )

update_rewards_same :
    (a : WithdrawAdjustment) (d : Distribution) (old new : ℕ) {a' : WithdrawAdjustment}
    → old ≡ new
    → update_rewards a d old new ≡ ok a'
    → rewards_of_power d a' new ≡ rewards_of_power d a old
unfolding update_rewards apply_points_correction
update_rewards_same a d old new e h = ground arith

-- If `update_rewards` goes through, with the shares per point, both powers, and the products of the
-- shares with each power below 2 ^ 127, the rewards of the holder with the new power and the new
-- adjustment are those with the old power and the old adjustment, failures included.
pub rewards_of_power-update_rewards :
    (a : WithdrawAdjustment) (d : Distribution) (old new : ℕ) {a' : WithdrawAdjustment}
    → d.shares_per_point < 2 ^ 127
    → old < 2 ^ 127
    → new < 2 ^ 127
    → d.shares_per_point * old < 2 ^ 127
    → d.shares_per_point * new < 2 ^ 127
    → update_rewards a d old new ≡ ok a'
    → rewards_of_power d a' new ≡ rewards_of_power d a old
rewards_of_power-update_rewards a d old new {a'} hs ho hn small_old small_new h =
    elim (ℕ-cases old new) [
      | inl e ↦ update_rewards_same a d old new e h
      | inr ne ↦
          let (c, w) = update_rewards_changes a d old new ne hs ho hn h in
          rewards_of_power-eq-paid_out d a' new small_new
          ∙ rw (c, w, correction_balances d.shares_per_point old new a.shares_correction)
              (sym (rewards_of_power-eq-paid_out d a old small_old))
    ]

balanced_parts :
    (spp old new : ℕ) (c c' : ℤ)
    → pos (spp * new) +ℤ c' ≡ pos (spp * old) +ℤ c
    → spp * new + pos_part c' + neg_part c ≡ spp * old + pos_part c + neg_part c'
balanced_parts spp old new c c' e = omega (
  arith,
  ap pos_part e,
  ap neg_part e,
  +ℤ_parts (pos (spp * new)) c',
  +ℤ_parts (pos (spp * old)) c,
)

update_rewards_parts_same :
    (a : WithdrawAdjustment) (d : Distribution) (old new : ℕ) {a' : WithdrawAdjustment}
    → old ≡ new
    → update_rewards a d old new ≡ ok a'
    → d.shares_per_point * new + pos_part a'.shares_correction + neg_part a.shares_correction
      ≡ d.shares_per_point * old + pos_part a.shares_correction + neg_part a'.shares_correction
unfolding update_rewards apply_points_correction
update_rewards_parts_same a d old new e h = ground arith

-- The same in the two parts of the corrections.
pub update_rewards_parts :
    (a : WithdrawAdjustment) (d : Distribution) (old new : ℕ) {a' : WithdrawAdjustment}
    → d.shares_per_point < 2 ^ 127
    → old < 2 ^ 127
    → new < 2 ^ 127
    → update_rewards a d old new ≡ ok a'
    → d.shares_per_point * new + pos_part a'.shares_correction + neg_part a.shares_correction
      ≡ d.shares_per_point * old + pos_part a.shares_correction + neg_part a'.shares_correction
update_rewards_parts a d old new {a'} hs ho hn h =
    let spp = d.shares_per_point in
    elim (ℕ-cases old new) [
      | inl e ↦ update_rewards_parts_same a d old new e h
      | inr ne ↦
          let (c, w) = update_rewards_changes a d old new ne hs ho hn h in
          balanced_parts spp old new a.shares_correction a'.shares_correction
            (rw c (correction_balances spp old new a.shares_correction))
    ]
