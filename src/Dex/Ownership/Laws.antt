-- ===== src/Dex/Ownership/Laws.antt =====
-- packages/dex/src/common.rs: who becomes the owner of a contract.
use whelp_contracts.Prelude.{
  ℕ, ◌/◌, ◌^◌, ◌≤◌, ◌+◌, ◌≡◌, refl, sym, ap, subst, ◌∙◌, ◌⊎◌, inl, inr, String, Bool, true, false,
  ◌||◌, Option, none, some, List, [], ◌∷◌, str_eq, str_eq_refl, arith, Option-cases,
}
use whelp_contracts.Outcome.{Outcome, ok, >>=-eq-ok, ◌>>=◌, value_or}
use whelp_contracts.Dex.Error.{StdError}
use whelp_contracts.Dex.Asset.{Api, validate_address}
use whelp_contracts.Dex.Ownership.{
  OwnershipProposal, propose_new_owner, drop_ownership_proposal, claim_ownership, max_proposal_ttl,
}

pub record Ownership : Type 0 where
  pub owner : String
  pub proposal : Option OwnershipProposal

-- The three messages, with the time and the sender.
pub data Event : Type 0 where
  propose : ℕ → String → String → ℕ → Event
  drop : String → Event
  claim : ℕ → String → Event

module _ (api : Api) where
  -- A contract whose callback stores the new owner.
  unfoldable pub handle : Ownership → Event → Outcome StdError Ownership
  handle s (propose now sender new_owner expires_in) = do
    p ← propose_new_owner api now sender new_owner expires_in s.owner
    ok (record s { proposal = p })
  handle s (drop sender) = do
    p ← drop_ownership_proposal sender s.owner
    ok (record s { proposal = p })
  handle s (claim now sender) = do
    (owner, p) ← claim_ownership now sender s.proposal (λ old new. ok new) s.owner
    ok (record { owner = owner; proposal = p })

  unfoldable pub handle_all : Ownership → List Event → Outcome StdError Ownership
  handle_all s [] = ok s
  handle_all s (e ∷ events) = do s' ← handle s e; handle_all s' events

  -- If `propose_new_owner` succeeds, its sender is the owner, the proposal is for another address
  -- and lasts for at most 14 days, and `claim_ownership` from the proposed owner by the end of the
  -- proposal calls the callback with that address and removes the proposal.
  pub propose_new_owner-claim_ownership :
      (now sender_time : ℕ) (sender new_owner : String) (expires_in : ℕ) (owner : String)
      (p : OwnershipProposal)
      → propose_new_owner api now sender new_owner expires_in owner ≡ ok (some p)
      → sender_time / 10 ^ 9 ≤ p.ttl
      → (str_eq sender owner ≡ true)
        × (str_eq p.owner owner ≡ false)
        × (p.ttl ≤ now / 10 ^ 9 + max_proposal_ttl)
        × (claim_ownership sender_time p.owner (some p) (λ old new. ok new) owner
            ≡ ok (p.owner, none))
  unfolding propose_new_owner claim_ownership
  propose_new_owner-claim_ownership now sender_time sender new_owner expires_in owner p h le =
      ground (arith, str_eq_refl p.owner)

-- Whether the address claimed the ownership.
abbrev pub claims : String → List Event → Bool
claims a [] = false
claims a (propose now sender new_owner expires_in ∷ events) = claims a events
claims a (drop sender ∷ events) = claims a events
claims a (claim now sender ∷ events) = str_eq sender a || claims a events

module _ (api : Api) where
  -- Whether a validated address was proposed.
  abbrev pub Proposes : String → List Event → Type 0
  Proposes a [] = ⊥
  Proposes a (propose now sender new_owner expires_in ∷ events) =
      (validate_address api new_owner ≡ ok a) ⊎ Proposes a events
  Proposes a (drop sender ∷ events) = Proposes a events
  Proposes a (claim now sender ∷ events) = Proposes a events

  -- The address is that of the open proposal.
  abbrev pub Open : String → Option OwnershipProposal → Type 0
  Open a none = ⊥
  Open a (some p) = p.owner ≡ a

  -- How the owner at the end came to be it.
  abbrev pub Origin : Ownership → List Event → String → Type 0
  Origin s events a =
      (a ≡ s.owner) ⊎ ((claims a events ≡ true) × (Open a s.proposal ⊎ Proposes a events))

  propose_steps :
      (s s' : Ownership) (now : ℕ) (sender new_owner : String) (expires_in : ℕ)
      → handle api s (propose now sender new_owner expires_in) ≡ ok s'
      → (p : OwnershipProposal) × (s'.owner ≡ s.owner)
        × (s'.proposal ≡ some p)
        × (validate_address api new_owner ≡ ok p.owner)
  unfolding handle propose_new_owner
  propose_steps s s' now sender new_owner expires_in h =
      let a = value_or (validate_address api new_owner) "" in
      (
        record { owner = a; ttl = now / 10 ^ 9 + expires_in },
        ground arith,
        ground arith,
        ground arith,
      )

  claim_steps :
      (s s' : Ownership) (now : ℕ) (sender : String)
      → handle api s (claim now sender) ≡ ok s'
      → (s'.proposal ≡ none) × Open s'.owner s.proposal × (str_eq sender s'.owner ≡ true)
  unfolding handle claim_ownership
  claim_steps s s' now sender h = elim (Option-cases s.proposal) [
    | inl e ↦ ground (arith, e)
    | inr (p, e) ↦
        let steps : (s'.proposal ≡ none) × (p.owner ≡ s'.owner) × (str_eq sender p.owner ≡ true) =
          ground (arith, e) in
        let (gone, same, by) = steps in (gone, rw e same, rw (sym same) by)
  ]

  drop_steps :
      (s s' : Ownership) (sender : String)
      → handle api s (drop sender) ≡ ok s'
      → (s'.owner ≡ s.owner) × (s'.proposal ≡ none)
  unfolding handle drop_ownership_proposal
  drop_steps s s' sender h = ground arith

  -- If a run of the three messages succeeds, then the owner at the end is that at the start, or
  -- this address has sent a claim of the ownership, and it is the address of the proposal that was
  -- open at the start or the validated address of one that was made during the run.
  pub handle_all-Origin :
      (s s' : Ownership) (events : List Event)
      → handle_all api s events ≡ ok s'
      → Origin s events s'.owner
  unfolding handle_all
  handle_all-Origin s s' [] h = inl (ground arith)
  handle_all-Origin s s' (propose now sender new_owner expires_in ∷ events) h =
      let (m, e, h') = >>=-eq-ok (handle api s (propose now sender new_owner expires_in)) _ h in
      let (p, eo, ep, ev) = propose_steps s m now sender new_owner expires_in e in
      elim (handle_all-Origin m s' events h') [
        | inl same ↦ inl (same ∙ eo)
        | inr (by, inl opened) ↦
            let a : p.owner ≡ s'.owner = rw ep at opened in inr (by, inr (inl (ev ∙ ap ok a)))
        | inr (by, inr proposed) ↦ inr (by, inr (inr proposed))
      ]
  handle_all-Origin s s' (drop sender ∷ events) h =
      let (m, e, h') = >>=-eq-ok (handle api s (drop sender)) _ h in
      let (eo, ep) = drop_steps s m sender e in
      elim (handle_all-Origin m s' events h') [
        | inl same ↦ inl (same ∙ eo)
        | inr (by, inl opened) ↦ elim (rw ep at opened) [ ]
        | inr (by, inr proposed) ↦ inr (by, inr proposed)
      ]
  handle_all-Origin s s' (claim now sender ∷ events) h =
      let (m, e, h') = >>=-eq-ok (handle api s (claim now sender)) _ h in
      let (ep, opened, by) = claim_steps s m now sender e in
      elim (handle_all-Origin m s' events h') [
        | inl same ↦
            inr (rw (same, by) refl, inl (subst (λ a. Open a s.proposal) (sym same) opened))
        | inr (later, inl opened) ↦ elim (rw ep at opened) [ ]
        | inr (later, inr proposed) ↦ inr (ground (arith, later), inr proposed)
      ]
