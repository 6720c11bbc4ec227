-- ===== src/Stake/Contract/Invariant.antt =====
-- contracts/stake: the invariant of the storage over every message of `execute`.
use whelp_contracts.Prelude.{
  ℕ, ◌+◌, ◌≤◌, ◌≡◌, String, Bool, true, false, List, [], ◌∷◌, ◌++◌, arith, refl, length,
  if◌then◌else◌, str_eq,
}
use whelp_contracts.Num.{Decimals}
use whelp_contracts.Dex.Asset.{AssetInfoValidated, equal}
use whelp_contracts.Stake.State.{Stakes, Distributions}
use whelp_contracts.Stake.State.Map.{Ascending}
use whelp_contracts.Stake.Chain.{Chain}
use whelp_contracts.Stake.Bond.{Storage}
use whelp_contracts.Stake.Flows.{same_periods, has_asset}
use whelp_contracts.Stake.Contract.Frame.{Shape, shape, periods_of, Keeps}
use whelp_contracts.Stake.Contract.Flows.{Same}

-- No asset of the shape is `a`.
abbrev pub Fresh : AssetInfoValidated → Shape → Type 0
Fresh a [] = Unit
Fresh a ((b, m) ∷ sh) = (equal a b ≡ false) × Fresh a sh

-- Every flow has a multiplier for each unbonding period, in order, and its asset comes only once.
abbrev pub FlowsOk : List ℕ → Shape → Type 0
FlowsOk periods [] = Unit
FlowsOk periods ((a, m) ∷ sh) = (same_periods m periods ≡ true) × Fresh a sh × FlowsOk periods sh

Fresh-append :
    (a b : AssetInfoValidated) (m : List (ℕ × ℕ)) (sh : Shape)
    → Fresh a sh
    → equal a b ≡ false
    → Fresh a (sh ++ (b, m) ∷ [])
Fresh-append a b m [] f e = (e, tt)
Fresh-append a b m ((c, n) ∷ sh) f e = (f.0, Fresh-append a b m sh f.1 e)

pub FlowsOk-append :
    (periods : List ℕ) (a : AssetInfoValidated) (m : List (ℕ × ℕ)) (ds : Distributions)
    → FlowsOk periods (shape ds)
    → same_periods m periods ≡ true
    → has_asset a ds ≡ false
    → FlowsOk periods (shape ds ++ (a, m) ∷ [])
unfolding has_asset
FlowsOk-append periods a m [] f e n = (e, tt, tt)
FlowsOk-append periods a m ((b, d) ∷ ds) f e n =
    let (first, rest) : (equal b a ≡ false) × (has_asset a ds ≡ false) = ground (arith, n) in
    (f.0, Fresh-append b a m (shape ds) f.1 first, FlowsOk-append periods a m ds f.2 e rest)

pick : (b : Bool) (l l' : Stakes) → Ascending l → Ascending l' → Ascending (if b then l else l')
pick true l l' h k = h
pick false l l' h k = k

pub length-shape : (ds : Distributions) → length (shape ds) ≡ length ds
length-shape [] = refl
length-shape ((a, d) ∷ ds) = omega (arith, length-shape ds)

pub length-snoc :
    (sh : Shape) (x : AssetInfoValidated × List (ℕ × ℕ)) → length (sh ++ x ∷ []) ≡ length sh + 1
length-snoc [] x = refl
length-snoc (y ∷ sh) x = omega (arith, length-snoc sh x)

module _ (dec : Decimals) (chain : Chain) where
  -- The limit on the flows, their periods and keys, the keys of the totals, and the order of every
  -- address's stakes.
  pub record WellFormed (s : Storage dec chain) : Type 0 where
    pub bounded : length (shape s.distributions) ≤ s.config.max_distributions
    pub flows : FlowsOk s.config.unbonding_periods (shape s.distributions)
    pub totals : periods_of s.totals ≡ s.config.unbonding_periods
    pub stakes : (a : String) → Ascending (s.stakes a)

  -- What only the frame is needed for.
  pub Keeps-WellFormed :
      (s s' : Storage dec chain)
      → Keeps dec chain s s'
      → WellFormed s
      → ((a : String) → Ascending (s'.stakes a))
      → WellFormed s'
  Keeps-WellFormed s s' (config, flows, totals) w stakes = record {
    bounded = rw (config, flows) w.bounded;
    flows = rw (config, flows) w.flows;
    totals = rw (config, totals) w.totals;
    stakes = stakes;
  }

  pub Same-WellFormed :
      (s s' : Storage dec chain) → Same dec chain s s' → WellFormed s → WellFormed s'
  Same-WellFormed s s' (keeps, stakes) w =
      Keeps-WellFormed s s' keeps w (λ a. rw stakes (w.stakes a))

  -- The stakes after a handler that changes those of one address.
  pub written :
      (s s' : Storage dec chain) (k : String)
      → WellFormed s
      → Ascending (s'.stakes k)
      → ((a : String) → s'.stakes a ≡ (if str_eq k a then s'.stakes k else s.stakes a))
      → (a : String) → Ascending (s'.stakes a)
  written s s' k w here all a =
      rw (all a) (pick (str_eq k a) (s'.stakes k) (s.stakes a) here (w.stakes a))
