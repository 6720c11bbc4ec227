-- ===== src/StablePool/Amp/Laws.antt =====
-- The amplification over time, and what a change of it may do.
use native.Mathlib.Nat.{mul-le-mul, mul-le-mul_left, div-le_of_le-mul, zero-div}
use whelp_contracts.Prelude.{
  ℕ, String, subst, ap, some, ◌≡◌, ◌≤◌, ◌<◌, ◌⊎◌, inl, inr, refl, sym, ◌∙◌, ◌+◌, ◌-◌, ◌*◌, ◌/◌, ◌^◌,
  arith, str_eq, str_eq_iff, ltb, Bool-cases, Option-cases,
}
use whelp_contracts.Outcome.{ok, map_err-eq-ok}
use whelp_contracts.Num.{u64_max}
use whelp_contracts.Dex.Error.{std}
use whelp_contracts.StablePool.Amp.{
  Config, moved, compute_current_amp, start_changing_amp, stop_changing_amp, StablePoolUpdateParams,
  start_changing, stop_changing, change_amp, update_config,
}

abbrev pub IsRamp : Config → Type 0
IsRamp c =
    (0 < c.init_amp)
    × (c.init_amp ≤ 10 ^ 8)
    × (0 < c.next_amp)
    × (c.next_amp ≤ 10 ^ 8)
    × (c.init_amp_time ≤ c.next_amp_time)
    × (c.next_amp_time ≤ u64_max)

abbrev pub Between : ℕ → ℕ → ℕ → Type 0
Between a b x = ((a ≤ x) × (x ≤ b)) ⊎ ((b ≤ x) × (x ≤ a))

moved-le :
    (range elapsed time : ℕ)
    → range ≤ 10 ^ 8
    → elapsed < time
    → elapsed ≤ u64_max
    → (change : ℕ) × (moved range elapsed time ≡ ok change) × (change ≤ range)
unfolding moved
moved-le range elapsed time small early u64 =
    let fits : range * elapsed ≤ 10 ^ 8 * u64_max = mul-le-mul small u64 in
    let below : range * elapsed ≤ range * time = mul-le-mul_left range (omega arith) in
    (range * elapsed / time, ground arith, div-le_of_le-mul time (omega arith))

moved_none : (range time : ℕ) → 0 < time → moved range 0 time ≡ ok 0
unfolding moved
moved_none range time h =
    let none : range * 0 ≡ 0 = omega arith in
    let share : 0 / time ≡ 0 = zero-div time in ground (arith, none, share)

pub compute_current_amp-Between :
    (c : Config) (now : ℕ)
    → IsRamp c
    → c.init_amp_time ≤ now
    → (amp : ℕ) × (compute_current_amp c now ≡ ok amp) × Between c.init_amp c.next_amp amp
unfolding compute_current_amp
compute_current_amp-Between c now h later = elim (Bool-cases (ltb now c.next_amp_time)) [
  | inr done ↦ (c.next_amp, ground arith, ground arith)
  | inl running ↦
      let early : now < c.next_amp_time = ground arith in
      elim (Bool-cases (ltb c.init_amp c.next_amp)) [
        | inl up ↦
            let (change, e, le) =
              moved-le (c.next_amp - c.init_amp) (now - c.init_amp_time)
                (c.next_amp_time - c.init_amp_time) (omega arith) (omega arith) (omega arith) in
            let below : c.init_amp + change ≤ c.next_amp = ground (arith, up) in
            (c.init_amp + change, ground (arith, e), inl (omega arith, below))
        | inr down ↦
            let (change, e, le) =
              moved-le (c.init_amp - c.next_amp) (now - c.init_amp_time)
                (c.next_amp_time - c.init_amp_time) (omega arith) (omega arith) (omega arith) in
            let not_up : c.next_amp ≤ c.init_amp = ground (arith, down) in
            (c.init_amp - change, ground (arith, e), inr (omega arith, omega arith))
      ]
]

-- At the start of a ramp the amplification is the initial one.
compute_current_amp-start :
    (c : Config)
    → IsRamp c
    → c.init_amp_time < c.next_amp_time
    → compute_current_amp c c.init_amp_time ≡ ok c.init_amp
unfolding compute_current_amp
compute_current_amp-start c h runs =
    let none : c.init_amp_time - c.init_amp_time ≡ 0 = omega arith in
    let up =
      moved_none (c.next_amp - c.init_amp) (c.next_amp_time - c.init_amp_time) (omega arith) in
    let down =
      moved_none (c.init_amp - c.next_amp) (c.next_amp_time - c.init_amp_time) (omega arith) in
    elim (Bool-cases (ltb c.init_amp c.next_amp)) [
      | inl u ↦ ground (arith, none, up)
      | inr d ↦ ground (arith, none, down)
    ]

-- What a change does to the amplification, where it was `amp` before.
abbrev Continues : ℕ → ℕ → Config → Type 0
Continues amp now c =
    IsRamp c
    × (c.init_amp_time ≡ now)
    × (c.init_amp ≡ amp)
    × (compute_current_amp c now ≡ ok amp)
    × (c.next_amp ≤ 10 * amp)
    × (amp ≤ 10 * c.next_amp)

-- The number that a change of the amplification gives as a time is a `u64`.
abbrev pub Fits : StablePoolUpdateParams → Type 0
Fits (start_changing next_amp next_amp_time) = next_amp_time ≤ u64_max
Fits stop_changing = Unit

abbrev ramp : Config → ℕ → ℕ → ℕ → ℕ → Config
ramp c amp now next_amp next_amp_time = record c {
  init_amp = amp;
  next_amp = next_amp;
  init_amp_time = now;
  next_amp_time = next_amp_time;
}

-- The checks of a new ramp.
start_changing_amp-accepts :
    (c : Config) (now next_amp next_amp_time amp : ℕ) {c' : Config}
    → compute_current_amp c now ≡ ok amp
    → start_changing_amp c now next_amp next_amp_time ≡ ok c'
    → (0 < next_amp)
      × (next_amp ≤ 10 ^ 6)
      × (amp ≤ 10 * (next_amp * 100))
      × (next_amp * 100 ≤ 10 * amp)
      × (now + 86400 ≤ next_amp_time)
      × (ramp c amp now (next_amp * 100) next_amp_time ≡ c')
unfolding start_changing_amp
start_changing_amp-accepts c now next_amp next_amp_time amp {c'} e h = ground (arith, e, h)

stopped : (c : Config) (now amp : ℕ) → compute_current_amp (ramp c amp now amp now) now ≡ ok amp
unfolding compute_current_amp
stopped c now amp = ground arith

start_changing_amp-Continues :
    (c : Config) (now next_amp next_amp_time amp : ℕ) {c' : Config}
    → 0 < amp
    → amp ≤ 10 ^ 8
    → next_amp_time ≤ u64_max
    → compute_current_amp c now ≡ ok amp
    → start_changing_amp c now next_amp next_amp_time ≡ ok c'
    → Continues amp now c'
start_changing_amp-Continues c now next_amp next_amp_time amp {c'} pos small u64 e h =
    let (some_amp, most, lower, upper, day, e') =
      start_changing_amp-accepts c now next_amp next_amp_time amp e h in
    let r = ramp c amp now (next_amp * 100) next_amp_time in
    let is_ramp : IsRamp r = (pos, small, omega arith, omega arith, omega arith, u64) in
    let starts = compute_current_amp-start r is_ramp (omega arith) in
    subst (Continues amp now) e' (is_ramp, refl, refl, starts, upper, lower)

stop_changing_amp-Continues :
    (c : Config) (now amp : ℕ) {c' : Config}
    → 0 < amp
    → amp ≤ 10 ^ 8
    → now ≤ u64_max
    → compute_current_amp c now ≡ ok amp
    → stop_changing_amp c now ≡ ok c'
    → Continues amp now c'
unfolding stop_changing_amp
stop_changing_amp-Continues c now amp {c'} pos small u64 e h =
    let e' : ramp c amp now amp now ≡ c' = ground (arith, e, h) in
    subst (Continues amp now) e' (
      (pos, small, pos, small, omega arith, u64),
      refl,
      refl,
      stopped c now amp,
      omega arith,
      omega arith,
    )

change_amp-Continues :
    (c : Config) (now : ℕ) (p : StablePoolUpdateParams) (amp : ℕ) {c' : Config}
    → 0 < amp
    → amp ≤ 10 ^ 8
    → now ≤ u64_max
    → Fits p
    → compute_current_amp c now ≡ ok amp
    → change_amp c now p ≡ ok c'
    → Continues amp now c'
unfolding change_amp
change_amp-Continues c now (start_changing next t) amp pos small u64 fits e h =
    start_changing_amp-Continues c now next t amp pos small fits e h
change_amp-Continues c now stop_changing amp pos small u64 fits e h =
    stop_changing_amp-Continues c now amp pos small u64 e
      (map_err-eq-ok std (stop_changing_amp c now) h)

-- A change comes from the owner.
update_config-change_amp :
    (c : Config) (now : ℕ) (sender : String) (p : StablePoolUpdateParams) {c' : Config}
    → update_config (some c) now sender (some p) ≡ ok c'
    → (c.owner ≡ some sender) × (change_amp c now p ≡ ok c')
unfolding update_config
update_config-change_amp c now sender p h = elim (Option-cases c.owner) [
  | inl e ↦ ground (arith, e, h)
  | inr (owner, e) ↦ elim (Bool-cases (str_eq sender owner)) [
    | inr b ↦ ground (arith, e, b, h)
    | inl b ↦ (e ∙ ap some (sym ((str_eq_iff sender owner).0 b)), ground (arith, e, b, h))
  ]
]

-- Take a configuration whose two amplifications are above zero and at most 10 ^ 8, with its times
-- in order. If `update_config` accepts a change at a time that is not before the start of the ramp,
-- the sender is the owner, and the new configuration is of this kind again, with its ramp starting
-- now. The amplification is what it was at that moment, and at every later time it is at most ten
-- times, and at least a tenth, of that.
pub update_config-Continues :
    (c : Config) (now later : ℕ) (sender : String) (p : StablePoolUpdateParams) {c' : Config}
    → IsRamp c
    → c.init_amp_time ≤ now
    → now ≤ later
    → now ≤ u64_max
    → Fits p
    → update_config (some c) now sender (some p) ≡ ok c'
    → (c.owner ≡ some sender)
      × IsRamp c'
      × (c'.init_amp_time ≡ now)
      × ((before after : ℕ) × (compute_current_amp c now ≡ ok before)
          × (compute_current_amp c' now ≡ ok before)
          × (compute_current_amp c' later ≡ ok after)
          × (after ≤ 10 * before)
          × (before ≤ 10 * after))
update_config-Continues c now later sender p {c'} is_ramp past order u64 fits h =
    let (amp, e, between) = compute_current_amp-Between c now is_ramp past in
    let (owner, h') = update_config-change_amp c now sender p h in
    let (ramp', time, start, e', upper, lower) =
      change_amp-Continues c now p amp (ground (arith, between)) (ground (arith, between)) u64 fits
        e h' in
    let (amp', e'', between') = compute_current_amp-Between c' later ramp' (omega (arith, time)) in
    (
      owner,
      ramp',
      time,
      (
        amp,
        amp',
        e,
        e',
        e'',
        ground (arith, between', upper, lower, start),
        ground (arith, between', upper, lower, start),
      ),
    )
