-- ===== src/Stake/State/Map.antt =====
-- Reading and writing the stakes of one address.
use whelp_contracts.Prelude.{ℕ, ◌≡◌, ◌≢◌, refl, some, [], ◌∷◌, arith, ◌+◌, none, ◌<◌}
use whelp_contracts.Stake.Bonding.{BondingInfo}
use whelp_contracts.Stake.Bonding.Laws.{held}
use whelp_contracts.Stake.State.{Stakes, get_stake, put_stake, stake_or_default}

-- All tokens of an address.
abbrev pub held_all : Stakes → ℕ
held_all [] = 0
held_all ((p, b) ∷ l) = held b + held_all l

-- Ascending periods, as the storage keeps its keys.
abbrev pub Above : ℕ → Stakes → Type 0
Above lo [] = Unit
Above lo ((p, b) ∷ l) = (lo < p) × Above lo l

abbrev pub Ascending : Stakes → Type 0
Ascending [] = Unit
Ascending ((p, b) ∷ l) = Above p l × Ascending l

pub get_stake-put_stake_self :
    (p : ℕ) (b : BondingInfo) (l : Stakes) → get_stake p (put_stake p b l) ≡ some b
unfolding get_stake put_stake
get_stake-put_stake_self p b [] = ground arith
get_stake-put_stake_self p b ((q, c) ∷ l) = ground (arith, get_stake-put_stake_self p b l)

pub get_stake-put_stake_ne :
    (p q : ℕ) (b : BondingInfo) (l : Stakes) → p ≢ q → get_stake q (put_stake p b l) ≡ get_stake q l
unfolding get_stake put_stake
get_stake-put_stake_ne p q b [] ne = ground arith
get_stake-put_stake_ne p q b ((r, c) ∷ l) ne = ground (arith, get_stake-put_stake_ne p q b l ne)

absent : (p : ℕ) (l : Stakes) → Above p l → get_stake p l ≡ none
unfolding get_stake
absent p [] a = refl
absent p ((q, b) ∷ l) a = ground (arith, absent p l a.1)

Above-below : (p q : ℕ) (l : Stakes) → p < q → Above q l → Above p l
Above-below p q [] h a = tt
Above-below p q ((r, b) ∷ l) h a = (omega arith, Above-below p q l h a.1)

-- A write replaces the tokens of its period.
pub held_all-put_stake :
    (p : ℕ) (b : BondingInfo) (l : Stakes)
    → Ascending l
    → held_all (put_stake p b l) + held (stake_or_default p l) ≡ held_all l + held b
unfolding get_stake put_stake
held_all-put_stake p b [] a = omega arith
held_all-put_stake p b ((q, c) ∷ l) a =
    ground (arith, held_all-put_stake p b l a.1, absent p l, Above-below p q l)

Above-put_stake :
    (lo p : ℕ) (b : BondingInfo) (l : Stakes) → lo < p → Above lo l → Above lo (put_stake p b l)
unfolding put_stake
Above-put_stake lo p b [] h a = (h, tt)
Above-put_stake lo p b ((q, c) ∷ l) h a = ground (arith, Above-put_stake lo p b l h a.1)

pub put_stake-Ascending :
    (p : ℕ) (b : BondingInfo) (l : Stakes) → Ascending l → Ascending (put_stake p b l)
unfolding put_stake
put_stake-Ascending p b [] a = (tt, tt)
put_stake-Ascending p b ((q, c) ∷ l) a =
    ground (arith, put_stake-Ascending p b l a.1, Above-put_stake q p b l, Above-below p q l)
