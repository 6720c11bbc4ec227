-- ===== src/Stake/Bonding/Laws.antt =====
-- Tokens are neither made nor lost inside a `BondingInfo`: what each operation does to `held`.
use whelp_contracts.Prelude.{ℕ, ◌+◌, ◌≡◌, List, [], ◌∷◌, arith}
use whelp_contracts.Outcome.{ok, Post}
use whelp_contracts.Stake.Bonding.{
  BondingInfo, amounts, unlocked, locked, add_unlocked_tokens, insert_locked, add_locked_tokens,
  release_stake, force_unlock_all, total_locked, total_unlocked, total_stake,
}

-- All tokens of the entry, locked or not.
abbrev pub held : BondingInfo → ℕ
held b = b.stake + amounts b.locked_tokens

pub amounts-unlocked-locked :
    (now : ℕ) (l : List (ℕ × ℕ)) → amounts (unlocked now l) + amounts (locked now l) ≡ amounts l
unfolding unlocked locked
amounts-unlocked-locked now [] = omega arith
amounts-unlocked-locked now ((t, v) ∷ l) = ground (arith, amounts-unlocked-locked now l)

amounts-insert_locked :
    (e a : ℕ) (l : List (ℕ × ℕ)) → Post (λ l'. amounts l' ≡ amounts l + a) (insert_locked e a l)
unfolding insert_locked
amounts-insert_locked e a [] = omega arith
amounts-insert_locked e a ((t, v) ∷ l) = ground (arith, amounts-insert_locked e a l)

pub total_stake-eq-held : (b : BondingInfo) {n : ℕ} → total_stake b ≡ ok n → n ≡ held b
unfolding total_stake
total_stake-eq-held b h = ground arith

pub held-add_unlocked_tokens :
    (b : BondingInfo) (a : ℕ) {b' : BondingInfo}
    → add_unlocked_tokens b a ≡ ok b'
    → held b' ≡ held b + a
unfolding add_unlocked_tokens
held-add_unlocked_tokens b a h = ground arith

pub held-add_locked_tokens :
    (b : BondingInfo) (e a : ℕ) {b' : BondingInfo}
    → add_locked_tokens b e a ≡ ok b'
    → held b' ≡ held b + a
unfolding add_locked_tokens
held-add_locked_tokens b e a h = ground (arith, amounts-insert_locked e a b.locked_tokens)

pub held-release_stake :
    (now a : ℕ) (b : BondingInfo) {b' : BondingInfo}
    → release_stake now a b ≡ ok b'
    → held b' + a ≡ held b
unfolding release_stake
held-release_stake now a b h = ground (arith, amounts-unlocked-locked now b.locked_tokens)

pub held-force_unlock_all :
    (b : BondingInfo) {b' : BondingInfo}
    → force_unlock_all b ≡ ok b'
    → (held b' ≡ held b) × (b'.locked_tokens ≡ [])
unfolding force_unlock_all
held-force_unlock_all b h = ground arith

pub total_stake_split :
    (now : ℕ) (b : BondingInfo) {l u : ℕ}
    → total_locked now b ≡ ok l
    → total_unlocked now b ≡ ok u
    → held b ≡ l + u
unfolding total_locked total_unlocked
total_stake_split now b h k = ground (arith, amounts-unlocked-locked now b.locked_tokens)
