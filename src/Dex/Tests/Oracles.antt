-- ===== src/Dex/Tests/Oracles.antt =====
-- The oracle and the change of ownership on concrete inputs.
use whelp_contracts.Prelude.{
  ℕ, ◌+◌, ◌-◌, ◌*◌, ◌/◌, ◌^◌, ◌≤◌, ◌<◌, ◌≡◌, refl, ◌⊎◌, true, false, none, some, List, [], ◌∷◌,
  arith, str_eq,
}
use whelp_contracts.Outcome.{Outcome, ok, value_or, is_ok→eq-ok}
use whelp_contracts.Num.{floors, one}
use whelp_contracts.Dex.Error.{StdError}
use whelp_contracts.Dex.Asset.{Api, validate_address}
use whelp_contracts.Dex.Oracle.{
  Accumulator, Prices, OracleStore, new_accumulator, update_accumulator, twaps_at, accumulate_nanos,
  empty_prices, buffer_depth,
}
use whelp_contracts.Dex.Oracle.Buffer.{
  calc_checkpoint, accumulate, copy_and_fill, shift, prefix, copy_at, copy_from_slice, zeros, fill,
  fill_all, checkpoint,
}
use whelp_contracts.Dex.Oracle.Store.{initialize_oracle, store_oracle_price, update_period}
use whelp_contracts.Dex.Oracle.Query.{range_end}
use whelp_contracts.Dex.Oracle.Shift.{Shifted, Refilled, accumulate-Shifted}
use whelp_contracts.Dex.Oracle.Invariant.{IsCurrent, store_all, initialize_oracle-IsCurrent}
use whelp_contracts.Dex.Ownership.{
  OwnershipProposal, propose_new_owner, claim_ownership, max_proposal_ttl,
}
use whelp_contracts.Dex.Ownership.Laws.{
  Ownership, Event, propose, claim, handle, handle_all, Origin, handle_all-Origin,
  propose_new_owner-claim_ownership,
}

abbrev secs : ℕ → ℕ
secs n = n * 10 ^ 9

-- A price of 2 since the second 0, and one old entry.
abbrev acc : Accumulator
acc = record { snapshot = 0; last_price = 2 * one; twap_a_per_b = 0; twap_b_per_a = 0 }

abbrev old_prices : Prices
old_prices = record { twap_a_per_b = 7 ∷ []; twap_b_per_a = 9 ∷ [] }

abbrev new_prices : Prices
new_prices = value_or (accumulate floors old_prices 0 120 acc 60) empty_prices

accumulates : accumulate floors old_prices 0 120 acc 60 ≡ ok new_prices
unfolding accumulate copy_and_fill shift prefix copy_at copy_from_slice zeros fill checkpoint
    twaps_at accumulate_nanos
accumulates = is_ok→eq-ok (accumulate floors old_prices 0 120 acc 60) new_prices refl

-- After 120 seconds at a price of 2 the value is 240, after 60 it is 120, and the old entry is third.
accumulated_values : new_prices.twap_a_per_b ≡ 240 * 10 ^ 18 ∷ 120 * 10 ^ 18 ∷ 7 ∷ []
unfolding accumulate copy_and_fill shift prefix copy_at copy_from_slice zeros fill checkpoint
    twaps_at accumulate_nanos
accumulated_values = refl

accumulate-Shifted_example :
    (((120 - 0) / 60 < buffer_depth)
      × Shifted floors old_prices 0 ((120 - 0) / 60) acc 60 new_prices)
    ⊎ ((buffer_depth ≤ (120 - 0) / 60) × Refilled floors 120 acc 60 new_prices)
accumulate-Shifted_example =
    accumulate-Shifted floors old_prices 0 120 acc 60 new_prices accumulates

abbrev entries : List (ℕ × ℕ)
entries = (secs 70, one) ∷ (secs 70, 3 * one) ∷ (secs 2000, 2 * one) ∷ []

abbrev history : Outcome StdError OracleStore
history = store_all floors (initialize_oracle 0 (2 * one)) entries

abbrev current : OracleStore
current = value_or history (initialize_oracle 0 one)

stores : history ≡ ok current
unfolding store_all initialize_oracle new_accumulator store_oracle_price update_period
    calc_checkpoint accumulate copy_and_fill shift prefix copy_at copy_from_slice zeros fill
    checkpoint twaps_at accumulate_nanos update_accumulator fill_all
stores = is_ok→eq-ok history current refl

initialize_oracle-IsCurrent_example : IsCurrent (secs 2000) (2 * one) current
initialize_oracle-IsCurrent_example =
    initialize_oracle-IsCurrent floors 0 (2 * one) entries current stores

reaches : calc_checkpoint 0 (secs 70) 60 ≡ ok (some 60)
unfolding calc_checkpoint
reaches = refl

-- A range of one step up to the present, 70 seconds: it is said to take 130 seconds.
abbrev range : Outcome StdError (ℕ × ℕ × ℕ)
range = range_end floors acc (secs 70) 60 0 empty_prices 1 none

abbrev ended : ℕ × ℕ × ℕ
ended = value_or range (0, 0, 0)

ends : range ≡ ok ended
unfolding range_end twaps_at accumulate_nanos
ends = is_ok→eq-ok range ended refl

abbrev api : Api
api = record { addr_validate = λ a. some a; to_lowercase = λ a. a; take_chars = λ n a. a }

abbrev offer : OwnershipProposal
offer = record { owner = "bob"; ttl = 100 }

proposes_bob : propose_new_owner api (secs 40) "ann" "bob" 60 "ann" ≡ ok (some offer)
unfolding propose_new_owner validate_address
proposes_bob = refl

propose_new_owner-claim_ownership_example :
    (str_eq "ann" "ann" ≡ true)
    × (str_eq "bob" "ann" ≡ false)
    × (100 ≤ secs 40 / 10 ^ 9 + max_proposal_ttl)
    × (claim_ownership (secs 99) "bob" (some offer) (λ old new. ok new) "ann" ≡ ok ("bob", none))
propose_new_owner-claim_ownership_example =
    propose_new_owner-claim_ownership api (secs 40) (secs 99) "ann" "bob" 60 "ann" offer
      proposes_bob (omega arith)

abbrev start : Ownership
start = record { owner = "ann"; proposal = none }

abbrev events : List Event
events = propose (secs 40) "ann" "bob" 60 ∷ claim (secs 99) "bob" ∷ []

hands_over : handle_all api start events ≡ ok (record { owner = "bob"; proposal = none })
unfolding handle_all handle propose_new_owner claim_ownership validate_address
hands_over = refl

handle_all-Origin_example : Origin api start events "bob"
handle_all-Origin_example =
    handle_all-Origin api start (record { owner = "bob"; proposal = none }) events hands_over
