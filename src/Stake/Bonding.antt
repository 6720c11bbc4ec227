-- ===== src/Stake/Bonding.antt =====
-- contracts/stake/src/state.rs: `BondingInfo`, the stake of one address in one unbonding period.
-- A `Timestamp` is its number of nanoseconds, and `now` is `env.block.time`.
pub mod Laws
pub mod Order
use whelp_contracts.Prelude.{ℕ, ◌+◌, List, [], ◌∷◌, ltb, leb, ◌==◌, ◌&&◌, ◌||◌, if◌then◌else◌}
use whelp_contracts.Outcome.{Outcome, ok, ◌>>=◌}
use whelp_contracts.Num.{u128_max, fit, add, checked_sub, checked_fit}
use whelp_contracts.Stake.Error.{ContractError, overflow}

pub record BondingInfo : Type 0 where
  pub stake : ℕ
  pub locked_tokens : List (ℕ × ℕ)

-- `BondingInfo::default()`
abbrev pub no_bonding : BondingInfo
no_bonding = record { stake = 0; locked_tokens = [] }

-- The sum over `map(|(_, amount)| amount)`, before the range check.
abbrev pub amounts : List (ℕ × ℕ) → ℕ
amounts [] = 0
amounts ((t, v) ∷ l) = v + amounts l

-- `partition(|(time, _)| time <= now)`: the entries that are kept, and the others.
unfoldable pub unlocked : ℕ → List (ℕ × ℕ) → List (ℕ × ℕ)
unlocked now [] = []
unlocked now ((t, v) ∷ l) = let rest = unlocked now l in if leb t now then (t, v) ∷ rest else rest

unfoldable pub locked : ℕ → List (ℕ × ℕ) → List (ℕ × ℕ)
locked now [] = []
locked now ((t, v) ∷ l) = let rest = locked now l in if leb t now then rest else (t, v) ∷ rest

unfoldable pub add_unlocked_tokens : BondingInfo → ℕ → Outcome ContractError BondingInfo
add_unlocked_tokens b amount = do
  tokens ← add u128_max b.stake amount
  ok (record b { stake = tokens })

-- `binary_search` of the pair in the list, which is sorted by expiry, and the insertion or the
-- addition at the position found. Where a list is not sorted, the source's position may be another.
unfoldable pub insert_locked : ℕ → ℕ → List (ℕ × ℕ) → Outcome ContractError (List (ℕ × ℕ))
insert_locked expires amount [] = ok ((expires, amount) ∷ [])
insert_locked expires amount ((t, v) ∷ l) =
    let rest = insert_locked expires amount l in
    if t == expires && v == amount
    then (do w ← add u128_max v amount; ok ((t, w) ∷ l))
    else if ltb t expires || (t == expires && ltb v amount)
    then (do l' ← rest; ok ((t, v) ∷ l'))
    else ok ((expires, amount) ∷ (t, v) ∷ l)

unfoldable pub add_locked_tokens : BondingInfo → ℕ → ℕ → Outcome ContractError BondingInfo
unfolding insert_locked
add_locked_tokens b expires amount = do
  l ← insert_locked expires amount b.locked_tokens
  ok (record b { locked_tokens = l })

unfoldable pub free_unlocked_tokens : ℕ → BondingInfo → Outcome ContractError BondingInfo
unfolding unlocked locked
free_unlocked_tokens now b = do
  freed ← fit u128_max (amounts (unlocked now b.locked_tokens))
  s ← add u128_max b.stake freed
  ok (record { stake = s; locked_tokens = locked now b.locked_tokens })

unfoldable pub release_stake : ℕ → ℕ → BondingInfo → Outcome ContractError BondingInfo
unfolding free_unlocked_tokens
release_stake now amount b = do
  freed ← free_unlocked_tokens now b
  s ← checked_sub overflow freed.stake amount
  ok (record freed { stake = s })

unfoldable pub force_unlock_all : BondingInfo → Outcome ContractError BondingInfo
force_unlock_all b = do
  l ← fit u128_max (amounts b.locked_tokens)
  s ← checked_fit overflow u128_max (b.stake + l)
  ok (record { stake = s; locked_tokens = [] })

unfoldable pub total_locked : ℕ → BondingInfo → Outcome ContractError ℕ
unfolding locked
total_locked now b = fit u128_max (amounts (locked now b.locked_tokens))

unfoldable pub total_unlocked : ℕ → BondingInfo → Outcome ContractError ℕ
unfolding unlocked
total_unlocked now b = do
  freed ← fit u128_max (amounts (unlocked now b.locked_tokens))
  add u128_max b.stake freed

unfoldable pub total_stake : BondingInfo → Outcome ContractError ℕ
total_stake b = do l ← fit u128_max (amounts b.locked_tokens); add u128_max b.stake l
