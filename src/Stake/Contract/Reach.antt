-- ===== src/Stake/Contract/Reach.antt =====
-- contracts/stake: every message keeps the storage well formed, and so does every sequence of
-- messages from a fresh contract.
use whelp_contracts.Prelude.{ℕ, ◌≡◌, String, Option, List, [], ◌∷◌, ◌++◌, arith, refl}
use whelp_contracts.Outcome.{ok}
use whelp_contracts.Num.{Decimals}
use whelp_contracts.Dex.Asset.{AssetInfo, Msg, Coin}
use whelp_contracts.Stake.Chain.{Chain, Call}
use whelp_contracts.Stake.Bond.{
  Storage, execute_bond, execute_mass_bond, execute_rebond, execute_unbond,
}
use whelp_contracts.Stake.Bond.Laws.{execute_mass_bond_effect, execute_unbond_effect}
use whelp_contracts.Stake.Bond.Rebond.{execute_rebond_effect}
use whelp_contracts.Stake.Flows.{execute_delegate_withdrawal, execute_create_distribution_flow}
use whelp_contracts.Stake.Contract.{
  ExecuteMsg, delegate, update_admin, create_distribution_flow, rebond, unbond, quick_unbond,
  unbond_all, stop_unbond_all, claim, receive, distribute_rewards, withdraw_rewards,
  delegate_withdrawal, fund_distribution, execute, execute_unbond_all, execute_stop_unbond_all,
  execute_update_admin,
}
use whelp_contracts.Stake.Contract.Frame.{
  shape, execute_mass_bond-Keeps, execute_rebond-Keeps, execute_unbond-Keeps, execute_claim-Keeps,
}
use whelp_contracts.Stake.Contract.Flows.{
  Same, execute_fund_distribution-Same, execute_receive-Same, execute_distribute_rewards-Same,
  execute_withdraw_rewards-Same, execute_create_distribution_flow_steps, shape-append,
}
use whelp_contracts.Stake.Contract.Quick.{execute_quick_unbond-Keeps}
use whelp_contracts.Stake.Contract.Invariant.{
  WellFormed, Keeps-WellFormed, Same-WellFormed, written, FlowsOk-append, length-shape, length-snoc,
}

module _ (dec : Decimals) (chain : Chain) where
  mass_bond-WellFormed :
      (s : Storage dec chain) (sender : String) (c : Coin) (period : ℕ)
      {r : Storage dec chain × List Msg}
      → WellFormed dec chain s
      → execute_mass_bond dec chain s sender c period ≡ ok r
      → WellFormed dec chain (r.0)
  mass_bond-WellFormed s sender c period {r} w h =
      Keeps-WellFormed dec chain s (r.0) (execute_mass_bond-Keeps dec chain s sender c period h) w (
        written dec chain s (r.0) sender w
          ((execute_mass_bond_effect dec chain s sender c period sender (w.stakes sender) h).1)
          (λ a. (execute_mass_bond_effect dec chain s sender c period a (w.stakes sender) h).5))

  delegate_cases :
      (s : Storage dec chain) (call : Call) (period : ℕ) (funds : List Coin)
      {r : Storage dec chain × List Msg}
      → call.funds ≡ funds
      → execute dec chain s call (delegate period) ≡ ok r
      → (c : Coin) × (execute_mass_bond dec chain s call.sender c period ≡ ok r)
  unfolding execute execute_bond
  delegate_cases s call period [] e h = (record { denom = call.sender; amount = 0 }, ground arith)
  delegate_cases s call period (c ∷ []) e h = (c, ground arith)
  delegate_cases s call period (c ∷ d ∷ ds) e h = (c, ground arith)

  rebond-WellFormed :
      (s : Storage dec chain) (call : Call) (n p q : ℕ) {r : Storage dec chain × List Msg}
      → WellFormed dec chain s
      → execute_rebond dec chain s call n p q ≡ ok r
      → WellFormed dec chain (r.0)
  rebond-WellFormed s call n p q {r} w h =
      Keeps-WellFormed dec chain s (r.0) (execute_rebond-Keeps dec chain s call n p q h) w (
        written dec chain s (r.0) call.sender w
          ((execute_rebond_effect dec chain s call n p q call.sender (w.stakes call.sender) h).1)
          (λ a. (execute_rebond_effect dec chain s call n p q a (w.stakes call.sender) h).5))

  unbond-WellFormed :
      (s : Storage dec chain) (call : Call) (n p : ℕ) {r : Storage dec chain × List Msg}
      → WellFormed dec chain s
      → execute_unbond dec chain s call n p ≡ ok r
      → WellFormed dec chain (r.0)
  unbond-WellFormed s call n p {r} w h =
      Keeps-WellFormed dec chain s (r.0) (execute_unbond-Keeps dec chain s call n p h) w (
        written dec chain s (r.0) call.sender w
          ((execute_unbond_effect dec chain s call n p call.sender (w.stakes call.sender) h).6)
          (λ a. (execute_unbond_effect dec chain s call n p a (w.stakes call.sender) h).5))

  flow-WellFormed :
      (s : Storage dec chain) (call : Call) (manager : String) (asset : AssetInfo)
      (rewards : List (ℕ × ℕ)) {r : Storage dec chain × List Msg}
      → WellFormed dec chain s
      → execute_create_distribution_flow dec chain s call manager asset rewards ≡ ok r
      → WellFormed dec chain (r.0)
  flow-WellFormed s call manager asset rewards {r} w h =
      let (a, m, ea, em, ds, periods, room, new, config, totals, stakes) =
        execute_create_distribution_flow_steps dec chain s call manager asset rewards h in
      let longer : shape r.0.distributions ≡ shape s.distributions ++ (a, rewards) ∷ [] =
        rw ds (shape-append dec chain s.distributions _) in
      record {
        bounded =
            rw (config, longer, length-snoc (shape s.distributions) (a, rewards))
              (omega (arith, room, length-shape s.distributions));
        flows =
            rw (config, longer)
              (FlowsOk-append s.config.unbonding_periods a rewards s.distributions w.flows periods
                new);
        totals = rw (config, totals) w.totals;
        stakes = λ b. rw stakes (w.stakes b);
      }

  -- The handlers that change none of the parts that the invariant reads.
  rest-Same :
      (s : Storage dec chain) (call : Call) {r : Storage dec chain × List Msg}
      → (execute_unbond_all dec chain s call ≡ ok r → Same dec chain s (r.0))
        × (execute_stop_unbond_all dec chain s call ≡ ok r → Same dec chain s (r.0))
        × ((a : Option String)
            → execute_update_admin dec chain s call a ≡ ok r
            → Same dec chain s (r.0))
        × ((d : String)
            → execute_delegate_withdrawal dec chain s call d ≡ ok r
            → Same dec chain s (r.0))
  unfolding execute_unbond_all execute_stop_unbond_all execute_update_admin
      execute_delegate_withdrawal
  rest-Same s call =
      (λ h. ground arith, λ h. ground arith, λ a h. ground arith, λ d h. ground arith)

  -- No message that goes through breaks the invariant of the storage: the limit on the flows, a
  -- multiplier for every period in each flow, one flow per asset, a total for every period, and the
  -- order of the stakes.
  pub execute-WellFormed :
      (s : Storage dec chain) (call : Call) (msg : ExecuteMsg) {r : Storage dec chain × List Msg}
      → WellFormed dec chain s
      → execute dec chain s call msg ≡ ok r
      → WellFormed dec chain (r.0)
  unfolding execute
  execute-WellFormed s call (delegate period) w h =
      let (c, e) = delegate_cases s call period call.funds refl h in
      mass_bond-WellFormed s call.sender c period w e
  execute-WellFormed s call (update_admin a) {r} w h =
      Same-WellFormed dec chain s (r.0) ((rest-Same s call).2 a h) w
  execute-WellFormed s call (create_distribution_flow manager asset rewards) w h =
      flow-WellFormed s call manager asset rewards w h
  execute-WellFormed s call (rebond n p q) w h = rebond-WellFormed s call n p q w h
  execute-WellFormed s call (unbond n p) w h = unbond-WellFormed s call n p w h
  execute-WellFormed s call (quick_unbond stakers) {r} w h =
      let (keeps, stakes) = execute_quick_unbond-Keeps dec chain s call stakers w.stakes h in
      Keeps-WellFormed dec chain s (r.0) keeps w stakes
  execute-WellFormed s call unbond_all {r} w h =
      Same-WellFormed dec chain s (r.0) ((rest-Same s call).0 h) w
  execute-WellFormed s call stop_unbond_all {r} w h =
      Same-WellFormed dec chain s (r.0) ((rest-Same s call).1 h) w
  execute-WellFormed s call claim {r} w h =
      Same-WellFormed dec chain s (r.0) (execute_claim-Keeps dec chain s call h) w
  execute-WellFormed s call (receive n f) {r} w h =
      Same-WellFormed dec chain s (r.0) (execute_receive-Same dec chain s call n f h) w
  execute-WellFormed s call (distribute_rewards sender) {r} w h =
      Same-WellFormed dec chain s (r.0) (execute_distribute_rewards-Same dec chain s call sender h)
        w
  execute-WellFormed s call (withdraw_rewards owner receiver) {r} w h =
      Same-WellFormed dec chain s (r.0)
        (execute_withdraw_rewards-Same dec chain s call owner receiver h) w
  execute-WellFormed s call (delegate_withdrawal d) {r} w h =
      Same-WellFormed dec chain s (r.0) ((rest-Same s call).3 d h) w
  execute-WellFormed s call (fund_distribution f) {r} w h =
      Same-WellFormed dec chain s (r.0) (execute_fund_distribution-Same dec chain s call f h) w
