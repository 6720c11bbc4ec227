-- ===== src/StablePool/Tests.antt =====
-- A ramp and a change of precision on concrete numbers.
pub mod Handlers
use whelp_contracts.Prelude.{ℕ, ◌≡◌, refl, true, some, [], ◌≤◌, ◌*◌, arith}
use whelp_contracts.Outcome.{ok, is_ok, value_or, is_ok→eq-ok}
use whelp_contracts.Pool.State.{stable}
use whelp_contracts.StablePool.Amp.{
  Config, moved, compute_current_amp, start_changing_amp, StablePoolUpdateParams, start_changing,
  change_amp, update_config,
}
use whelp_contracts.StablePool.Amp.Laws.{IsRamp, update_config-Continues}
use whelp_contracts.StablePool.Precision.{pow10, adjust_precision}

-- From 100 to 200 in the day after the second day.
abbrev config : Config
config = record {
  owner = some "owner";
  pool_info = record {
    asset_infos = [];
    contract_addr = "pool";
    liquidity_token = "lp";
    staking_addr = "stake";
    pool_type = stable;
    verified = true;
    fee_config = record { total_fee_bps = 30; protocol_fee_bps = 10 };
  };
  factory_addr = "factory";
  block_time_last = 0;
  init_amp = 10000;
  init_amp_time = 172800;
  next_amp = 20000;
  next_amp_time = 259200;
  greatest_precision = 6;
  cumulative_prices = [];
  trading_starts = 0;
}

half_way : compute_current_amp config 216000 ≡ ok 15000
unfolding compute_current_amp moved
half_way = refl

-- A day later the amplification is 200, and it goes to 50 in two days.
abbrev lower : StablePoolUpdateParams
lower = start_changing 50 432000

abbrev changed : Config
changed = value_or (update_config (some config) 259200 "owner" (some lower)) config

changes : is_ok (update_config (some config) 259200 "owner" (some lower)) ≡ true
unfolding update_config change_amp start_changing_amp compute_current_amp moved
changes = refl

config-IsRamp : IsRamp config
config-IsRamp = (omega arith, omega arith, omega arith, omega arith, omega arith, omega arith)

update_config-Continues_example :
    (config.owner ≡ some "owner")
    × IsRamp changed
    × (changed.init_amp_time ≡ 259200)
    × ((before after : ℕ) × (compute_current_amp config 259200 ≡ ok before)
        × (compute_current_amp changed 259200 ≡ ok before)
        × (compute_current_amp changed 300000 ≡ ok after)
        × (after ≤ 10 * before)
        × (before ≤ 10 * after))
update_config-Continues_example =
    update_config-Continues config 259200 300000 "owner" lower config-IsRamp (omega arith)
      (omega arith) (omega arith) (omega arith)
      (is_ok→eq-ok (update_config (some config) 259200 "owner" (some lower)) config changes)

adjusts : adjust_precision 25 6 8 ≡ ok 2500
unfolding adjust_precision pow10
adjusts = refl
