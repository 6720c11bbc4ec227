-- ===== src/Stake/Bonding/Order.antt =====
-- The locked tokens stay sorted by expiry, and `release_stake` frees exactly what has expired.
use whelp_contracts.Prelude.{ℕ, ◌+◌, ◌-◌, ◌≤◌, ◌≡◌, List, [], ◌∷◌, arith, leb, if◌then◌else◌}
use whelp_contracts.Outcome.{ok, err, Post}
use whelp_contracts.Stake.Error.{overflow}
use whelp_contracts.Num.{u128_max}
use whelp_contracts.Stake.Bonding.Laws.{amounts-unlocked-locked}
use whelp_contracts.Stake.Bonding.{
  BondingInfo, amounts, unlocked, locked, insert_locked, add_locked_tokens, release_stake,
}

-- No entry of the list expires before `lo`.
abbrev pub From : ℕ → List (ℕ × ℕ) → Type 0
From lo [] = Unit
From lo ((t, v) ∷ l) = (lo ≤ t) × From lo l

abbrev pub IsSorted : List (ℕ × ℕ) → Type 0
IsSorted [] = Unit
IsSorted ((t, v) ∷ l) = From t l × IsSorted l

From-le : (lo hi : ℕ) (l : List (ℕ × ℕ)) → lo ≤ hi → From hi l → From lo l
From-le lo hi [] h f = tt
From-le lo hi ((t, v) ∷ l) h f = (omega arith, From-le lo hi l h f.1)

From-insert_locked :
    (lo e a : ℕ) (l : List (ℕ × ℕ)) → lo ≤ e → From lo l → Post (From lo) (insert_locked e a l)
unfolding insert_locked
From-insert_locked lo e a [] h f = (h, tt)
From-insert_locked lo e a ((t, v) ∷ l) h f = ground (arith, From-insert_locked lo e a l h f.1)

insert_locked-IsSorted :
    (e a : ℕ) (l : List (ℕ × ℕ)) → IsSorted l → Post IsSorted (insert_locked e a l)
unfolding insert_locked
insert_locked-IsSorted e a [] s = (tt, tt)
insert_locked-IsSorted e a ((t, v) ∷ l) s =
    ground (arith, insert_locked-IsSorted e a l s.1, From-insert_locked t e a l, From-le e t l)

locked-From : (now lo : ℕ) (l : List (ℕ × ℕ)) → From lo l → From lo (locked now l)
unfolding locked
locked-From now lo [] f = tt
locked-From now lo ((t, v) ∷ l) f = ground (arith, locked-From now lo l f.1)

locked-IsSorted : (now : ℕ) (l : List (ℕ × ℕ)) → IsSorted l → IsSorted (locked now l)
unfolding locked
locked-IsSorted now [] s = tt
locked-IsSorted now ((t, v) ∷ l) s =
    ground (arith, locked-IsSorted now l s.1, locked-From now t l s.0)

locked-later : (now : ℕ) (l : List (ℕ × ℕ)) → From (now + 1) (locked now l)
unfolding locked
locked-later now [] = tt
locked-later now ((t, v) ∷ l) = ground (arith, locked-later now l)

add_locked_tokens-IsSorted :
    (b : BondingInfo) (expires amount : ℕ) {b' : BondingInfo}
    → IsSorted b.locked_tokens
    → add_locked_tokens b expires amount ≡ ok b'
    → IsSorted b'.locked_tokens
unfolding add_locked_tokens
add_locked_tokens-IsSorted b e a s h = ground (arith, insert_locked-IsSorted e a b.locked_tokens s)

-- For an entry whose tokens fit a `Uint128` and whose locks are sorted by expiry, `release_stake`
-- fails with the overflow error exactly if the amount exceeds the stake with the expired locks;
-- else it takes the amount from these and keeps the other locks. The locks kept are sorted and all
-- expire after now.
pub release_stake_lem :
    (now amount : ℕ) (b : BondingInfo)
    → b.stake + amounts b.locked_tokens ≤ u128_max
    → IsSorted b.locked_tokens
    → (release_stake now amount b ≡ (
        if leb amount (b.stake + amounts (unlocked now b.locked_tokens))
        then ok (record {
          stake = b.stake + amounts (unlocked now b.locked_tokens) - amount;
          locked_tokens = locked now b.locked_tokens;
        })
        else err overflow))
      × IsSorted (locked now b.locked_tokens)
      × From (now + 1) (locked now b.locked_tokens)
unfolding release_stake
release_stake_lem now amount b fits s = (
  ground (arith, amounts-unlocked-locked now b.locked_tokens),
  locked-IsSorted now b.locked_tokens s,
  locked-later now b.locked_tokens,
)
