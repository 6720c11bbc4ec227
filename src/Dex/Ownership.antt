-- ===== src/Dex/Ownership.antt =====
-- packages/dex/src/common.rs: the change of a contract's owner in two steps. The item `proposal` is
-- an option; `now` is the block time in nanoseconds. `claim_ownership` calls back the contract to
-- store the new owner: its state is a parameter.
use whelp_contracts.Prelude.{
  ℕ, ◌+◌, ◌/◌, ◌^◌, String, Bool, not, Option, none, some, List, ltb, str_eq,
}
use whelp_contracts.Outcome.{Outcome, ok, err, panic, ◌>>=◌, ◌>>◌, fail_if, ok_or, traverse}
use whelp_contracts.Num.{u64_max, add}
use whelp_contracts.Dex.Error.{
  StdError, unauthorized, same_owner, ttl_too_high, no_proposal, proposal_expired,
}
use whelp_contracts.Dex.Asset.{Api, validate_address}
pub mod Laws

abbrev pub max_proposal_ttl : ℕ
max_proposal_ttl = 1209600

pub record OwnershipProposal : Type 0 where
  pub owner : String
  pub ttl : ℕ

module _ (api : Api) where
  -- The new value of the item.
  unfoldable pub propose_new_owner :
      ℕ → String → String → ℕ → String → Outcome StdError (Option OwnershipProposal)
  propose_new_owner now sender new_owner expires_in owner = do
    fail_if (not (str_eq sender owner)) unauthorized
    new_owner' ← validate_address api new_owner
    fail_if (str_eq new_owner' owner) same_owner
    fail_if (ltb max_proposal_ttl expires_in) ttl_too_high
    ttl ← add u64_max (now / 10 ^ 9) expires_in
    ok (some (record { owner = new_owner'; ttl = ttl }))

  unfoldable pub validate_addresses : List String → Outcome StdError (List String)
  validate_addresses admins = traverse (validate_address api) admins

unfoldable pub drop_ownership_proposal :
    String → String → Outcome StdError (Option OwnershipProposal)
drop_ownership_proposal sender owner = do fail_if (not (str_eq sender owner)) unauthorized; ok none

-- The callback's state, and the new value of the item.
unfoldable pub claim_ownership {ℓ} :
    {S : Type ℓ}
    → ℕ
    → String
    → Option OwnershipProposal
    → (S → String → Outcome StdError S)
    → S
    → Outcome StdError (S × Option OwnershipProposal)
claim_ownership now sender proposal callback s = do
  p ← ok_or proposal no_proposal
  fail_if (not (str_eq sender p.owner)) unauthorized
  fail_if (ltb p.ttl (now / 10 ^ 9)) proposal_expired
  s' ← callback s p.owner
  ok (s', none)
