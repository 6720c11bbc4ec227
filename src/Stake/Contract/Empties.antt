-- ===== src/Stake/Contract/Empties.antt =====
-- contracts/stake/src/contract.rs: the quick unbond leaves its stakers with nothing.
use whelp_contracts.Prelude.{
  ℕ, ◌≡◌, String, Bool, true, false, List, [], ◌∷◌, arith, if◌then◌else◌, str_eq, str_eq_refl,
}
use whelp_contracts.Outcome.{ok}
use whelp_contracts.Num.{Decimals}
use whelp_contracts.Dex.Asset.{Msg}
use whelp_contracts.Stake.State.{Stakes}
use whelp_contracts.Stake.State.Map.{held_all}
use whelp_contracts.Stake.Chain.{Chain}
use whelp_contracts.Stake.Bond.{Storage}
use whelp_contracts.Stake.Contract.{
  Unbonded, no_unbonded, unbond_staker, unbond_stakers, unbond_addresses,
}
use whelp_contracts.Stake.Contract.Unbond.{Loop, loop_steps, address_steps, unbond_stakes-Emptied}
use whelp_contracts.Stake.Contract.Quick.{staker_frame}

chosen :
    (b : Bool) (l l' : Stakes)
    → held_all l ≡ 0
    → held_all l' ≡ 0
    → held_all (if b then l else l') ≡ 0
chosen true l l' h k = h
chosen false l l' h k = k

module _ (dec : Decimals) (chain : Chain) where
  -- None of the addresses has a token left.
  abbrev pub Empty : List String → Storage dec chain → Type 0
  Empty [] s = Unit
  Empty (a ∷ l) s = (held_all (s.stakes a) ≡ 0) × Empty l s

  -- The staker of a round is emptied, and whoever was empty stays so.
  staker_cleared :
      (now : ℕ) (s : Storage dec chain) (u : Unbonded) (claimed : ℕ) (staker : String)
      {r : Loop dec chain}
      → unbond_staker dec chain now s u claimed staker ≡ ok r
      → held_all (r.0.stakes staker) ≡ 0
  staker_cleared now s u claimed staker h =
      let (rest, er, stakes, config, ds, totals) =
        staker_frame dec chain now s u claimed staker h in
      rw (stakes, str_eq_refl staker) ((unbond_stakes-Emptied now (s.stakes staker) u 0 er).0)

  stays_cleared :
      (now : ℕ) (s : Storage dec chain) (u : Unbonded) (claimed : ℕ) (staker a : String)
      {r : Loop dec chain}
      → unbond_staker dec chain now s u claimed staker ≡ ok r
      → held_all (s.stakes a) ≡ 0
      → held_all (r.0.stakes a) ≡ 0
  stays_cleared now s u claimed staker a h e =
      let (rest, er, stakes, config, ds, totals) =
        staker_frame dec chain now s u claimed staker h in
      rw stakes (
        chosen (str_eq staker a) (rest.0) (s.stakes a)
          ((unbond_stakes-Emptied now (s.stakes staker) u 0 er).0) e)

  loop_cleared :
      (now : ℕ) (s : Storage dec chain) (u : Unbonded) (claimed : ℕ) (l : List String) (a : String)
      {r : Loop dec chain}
      → unbond_stakers dec chain now s u claimed l ≡ ok r
      → held_all (s.stakes a) ≡ 0
      → held_all (r.0.stakes a) ≡ 0
  unfolding unbond_stakers
  loop_cleared now s u claimed [] a h e = ground (arith, h, e)
  loop_cleared now s u claimed (b ∷ l) a h e =
      let (one, rest, eo, er, same) = loop_steps dec chain now s u claimed b l h in
      rw same
        (loop_cleared now (one.0) (one.1) (one.2) l a er (stays_cleared now s u claimed b a eo e))

  all_cleared :
      (now : ℕ) (s : Storage dec chain) (u : Unbonded) (claimed : ℕ) (l : List String)
      {r : Loop dec chain}
      → unbond_stakers dec chain now s u claimed l ≡ ok r
      → Empty l (r.0)
  all_cleared now s u claimed [] h = tt
  all_cleared now s u claimed (b ∷ l) h =
      let (one, rest, eo, er, same) = loop_steps dec chain now s u claimed b l h in
      rw same (
        loop_cleared now (one.0) (one.1) (one.2) l b er (staker_cleared now s u claimed b eo),
        all_cleared now (one.0) (one.1) (one.2) l er,
      )

  moved :
      (l : List String) (s s' : Storage dec chain) → s'.stakes ≡ s.stakes → Empty l s → Empty l s'
  moved [] s s' e h = tt
  moved (a ∷ l) s s' e h = (rw e (h.0), moved l s s' e h.1)

  -- If the quick unbond of a list of addresses goes through, none of these addresses has a token
  -- left in any period, locked or not, whatever the list repeats.
  pub unbond_addresses-Empty :
      (s : Storage dec chain) (now : ℕ) (l : List String) {r : Storage dec chain × List Msg}
      → unbond_addresses dec chain s now l ≡ ok r
      → Empty l (r.0)
  unbond_addresses-Empty s now l {r} h =
      let (loop, el, staked, unbonding, msgs, lowered, config, ds, stakes) =
        address_steps dec chain s now l h in
      moved l (loop.0) (r.0) stakes
        (all_cleared now s (no_unbonded s.config.unbonding_periods) 0 l el)
