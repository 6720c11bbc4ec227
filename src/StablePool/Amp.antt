-- ===== src/StablePool/Amp.antt =====
-- contracts/pool_stable: the configuration of state.rs, `compute_current_amp` of utils.rs, and the
-- changes of the amplification, `update_config` of contract.rs. Times are in seconds.
use whelp_contracts.Prelude.{
  ℕ, String, Bool, Option, none, some, List, not, ◌||◌, ◌==◌, ltb, leb, str_eq, ◌+◌, ◌-◌, ◌*◌, ◌/◌,
  ◌^◌, if◌then◌else◌,
}
use whelp_contracts.Outcome.{Outcome, ok, err, ◌>>=◌, ◌>>◌, fail_if, map_err, ok_or}
use whelp_contracts.Num.{u64_max, u128_max, add, mul, sub, fit, checked_fit}
use whelp_contracts.Dex.Error.{
  StdError, divide_by_zero, overflow, not_found, ContractError, std, unauthorized, incorrect_amp,
  max_amp_change_assertion, min_amp_changing_time_assertion,
}
use whelp_contracts.Dex.Asset.{AssetInfoValidated}
use whelp_contracts.Pool.State.{PairInfo}
pub mod Laws

abbrev pub max_amp : ℕ
max_amp = 1000000

abbrev pub max_amp_change : ℕ
max_amp_change = 10

abbrev pub min_amp_changing_time : ℕ
min_amp_changing_time = 86400

abbrev pub amp_precision : ℕ
amp_precision = 100

pub record Config : Type 0 where
  pub owner : Option String
  pub pool_info : PairInfo
  pub factory_addr : String
  pub block_time_last : ℕ
  pub init_amp : ℕ
  pub init_amp_time : ℕ
  pub next_amp : ℕ
  pub next_amp_time : ℕ
  pub greatest_precision : ℕ
  pub cumulative_prices : List (AssetInfoValidated × AssetInfoValidated × ℕ)
  pub trading_starts : ℕ

-- `(amp_range * elapsed_time).checked_div(time_range)?`
unfoldable pub moved : ℕ → ℕ → ℕ → Outcome StdError ℕ
moved amp_range elapsed_time time_range = do
  product ← mul u128_max amp_range elapsed_time
  fail_if (time_range == 0) divide_by_zero
  ok (product / time_range)

-- The saturating subtractions of the times are those of natural numbers.
unfoldable pub compute_current_amp : Config → ℕ → Outcome StdError ℕ
compute_current_amp config now =
    let elapsed_time = now - config.init_amp_time in
    let time_range = config.next_amp_time - config.init_amp_time in
    if ltb now config.next_amp_time
    then (if ltb config.init_amp config.next_amp
        then (do
          change ← moved (config.next_amp - config.init_amp) elapsed_time time_range
          res ← add u128_max config.init_amp change
          checked_fit overflow u64_max res)
        else (do
          change ← moved (config.init_amp - config.next_amp) elapsed_time time_range
          res ← sub config.init_amp change
          checked_fit overflow u64_max res))
    else ok config.next_amp

unfoldable pub start_changing_amp : Config → ℕ → ℕ → ℕ → Outcome ContractError Config
start_changing_amp config now next_amp next_amp_time = do
  fail_if (next_amp == 0 || ltb max_amp next_amp) (incorrect_amp max_amp)
  current_amp ← map_err std (compute_current_amp config now)
  next_amp_with_precision ← mul u64_max next_amp amp_precision
  raised ← mul u64_max next_amp_with_precision max_amp_change
  fail_if (ltb raised current_amp) (max_amp_change_assertion max_amp_change)
  allowed ← mul u64_max current_amp max_amp_change
  fail_if (ltb allowed next_amp_with_precision) (max_amp_change_assertion max_amp_change)
  init_end ← add u64_max config.init_amp_time min_amp_changing_time
  fail_if (ltb now init_end) (min_amp_changing_time_assertion min_amp_changing_time)
  earliest ← add u64_max now min_amp_changing_time
  fail_if (ltb next_amp_time earliest) (min_amp_changing_time_assertion min_amp_changing_time)
  ok (record config {
    init_amp = current_amp;
    next_amp = next_amp_with_precision;
    init_amp_time = now;
    next_amp_time = next_amp_time;
  })

unfoldable pub stop_changing_amp : Config → ℕ → Outcome StdError Config
stop_changing_amp config now = do
  current_amp ← compute_current_amp config now
  ok (record config {
    init_amp = current_amp;
    next_amp = current_amp;
    init_amp_time = now;
    next_amp_time = now;
  })

pub data StablePoolUpdateParams : Type 0 where
  start_changing : ℕ → ℕ → StablePoolUpdateParams
  stop_changing : StablePoolUpdateParams

unfoldable pub change_amp : Config → ℕ → StablePoolUpdateParams → Outcome ContractError Config
change_amp config now (start_changing next_amp next_amp_time) =
    start_changing_amp config now next_amp next_amp_time
change_amp config now stop_changing = map_err std (stop_changing_amp config now)

-- `update_config`; the parameters are none where their bytes cannot be parsed.
unfoldable pub update_config :
    Option Config → ℕ → String → Option StablePoolUpdateParams → Outcome ContractError Config
update_config stored now sender params = do
  config ← map_err std (ok_or stored not_found)
  owner ← ok_or config.owner unauthorized
  fail_if (not (str_eq sender owner)) unauthorized
  p ← map_err std (ok_or params not_found)
  change_amp config now p
