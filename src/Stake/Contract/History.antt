-- ===== src/Stake/Contract/History.antt =====
-- contracts/stake: the storage over the life of the contract, as the steps of its messages.
use whelp_contracts.Prelude.{ℕ, ◌≡◌, List, [], ◌∷◌, arith, refl, ap}
use whelp_contracts.Outcome.{ok}
use whelp_contracts.Num.{Decimals}
use whelp_contracts.Dex.Asset.{Msg}
use whelp_contracts.Stake.Chain.{Chain, Call}
use whelp_contracts.Stake.Bond.{Storage}
use whelp_contracts.Stake.Contract.{InstantiateMsg, instantiate, zero_totals, ExecuteMsg, execute}
use whelp_contracts.Stake.Contract.Frame.{periods_of}
use whelp_contracts.Stake.Contract.Invariant.{WellFormed}
use whelp_contracts.Stake.Contract.Reach.{execute-WellFormed}

module _ (dec : Decimals) (chain : Chain) where
  -- The storages that messages lead to. A message that fails or panics changes nothing.
  pub data Reachable (start : Storage dec chain) : Storage dec chain → Type 1 where
    here : Reachable start start
    after :
        {s : Storage dec chain} {r : Storage dec chain × List Msg} (call : Call) (msg : ExecuteMsg)
        → Reachable start s
        → execute dec chain s call msg ≡ ok r
        → Reachable start (r.0)

  periods-zero_totals : (l : List ℕ) → periods_of (zero_totals l) ≡ l
  unfolding zero_totals
  periods-zero_totals [] = refl
  periods-zero_totals (p ∷ l) = ap (λ t. p ∷ t) (periods-zero_totals l)

  instantiate_steps :
      (claims : chain.Claims) (call : Call) (msg : InstantiateMsg) {s : Storage dec chain}
      → instantiate dec chain claims call msg ≡ ok s
      → (s.distributions ≡ [])
        × (s.totals ≡ zero_totals s.config.unbonding_periods)
        × (s.stakes ≡ (λ a. []))
  unfolding instantiate
  instantiate_steps claims call msg h = ground arith

  instantiate-WellFormed :
      (claims : chain.Claims) (call : Call) (msg : InstantiateMsg) {s : Storage dec chain}
      → instantiate dec chain claims call msg ≡ ok s
      → WellFormed dec chain s
  instantiate-WellFormed claims call msg {s} h =
      let (ds, totals, stakes) = instantiate_steps claims call msg h in
      record {
        bounded = rw ds (omega arith);
        flows = rw ds tt;
        totals = rw totals (periods-zero_totals s.config.unbonding_periods);
        stakes = λ a. rw stakes tt;
      }

  kept :
      {start s : Storage dec chain}
      → WellFormed dec chain start
      → Reachable start s
      → WellFormed dec chain s
  kept w here = w
  kept w (after {s} call msg before h) = execute-WellFormed dec chain s call msg (kept w before) h

  -- Take a contract that `instantiate` created and any sequence of messages that `execute`
  -- accepted. The storage at the end is well formed: it has at most `max_distributions` flows, each
  -- with one multiplier for every unbonding period in order and no two for the same asset, the
  -- totals list exactly the unbonding periods, and the stakes of every address are in ascending
  -- order of the period.
  pub Reachable-WellFormed :
      (claims : chain.Claims) (call : Call) (msg : InstantiateMsg) {start s : Storage dec chain}
      → instantiate dec chain claims call msg ≡ ok start
      → Reachable start s
      → WellFormed dec chain s
  Reachable-WellFormed claims call msg h run = kept (instantiate-WellFormed claims call msg h) run
