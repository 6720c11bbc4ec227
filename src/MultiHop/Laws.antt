-- ===== src/MultiHop/Laws.antt =====
-- contracts/multi-hop/src/contract.rs: what `assert_operations` guarantees of a route.
use whelp_contracts.Prelude.{
  String, true, ◌≡◌, refl, sym, ◌∙◌, ◌⊎◌, inl, inr, List, [], ◌∷◌, str_eq, str_eq_iff, str_eq_refl,
  Bool-cases, length, arith,
}
use whelp_contracts.Outcome.{ok, >>=-eq-ok}
use whelp_contracts.Dex.Asset.{Api}
use whelp_contracts.MultiHop.{
  SwapOperation, contains, remove, insert, validated, outputs, assert_operations,
}

-- The text is that of the offered asset of an operation.
abbrev pub Offered : String → List (String × String) → Type 0
Offered x [] = ⊥
Offered x ((offer, ask) ∷ operations) = (offer ≡ x) ⊎ Offered x operations

-- Every asset that an operation asks for is the result, or a later operation offers it.
abbrev pub Connected : List (String × String) → String → Type 0
Connected [] result = Unit
Connected ((offer, ask) ∷ operations) result =
    ((ask ≡ result) ⊎ Offered ask operations) × Connected operations result

same : (x y : String) → str_eq x y ≡ true → x ≡ y
same x y h = (str_eq_iff x y).0 h

contains-insert :
    (x y : String) (set : List String) → contains x set ≡ true → contains x (insert y set) ≡ true
unfolding insert contains
contains-insert x y set h = ground (arith, h)

contains-inserted : (x : String) (set : List String) → contains x (insert x set) ≡ true
unfolding insert contains
contains-inserted x set = ground (arith, str_eq_refl x)

-- An element that is not removed stays.
contains-remove :
    (x y : String) (set : List String)
    → contains x set ≡ true
    → (y ≡ x) ⊎ (contains x (remove y set) ≡ true)
unfolding contains remove
contains-remove x y [] h = ground arith
contains-remove x y (z ∷ set) h = elim (Bool-cases (str_eq z y)) [
  | inl gone ↦ elim (Bool-cases (str_eq z x)) [
    | inl here ↦ inl (sym (same z y gone) ∙ same z x here)
    | inr other ↦ elim (contains-remove x y set (ground (arith, h, other))) [
      | inl e ↦ inl e
      | inr c ↦ inr (ground (arith, gone, c))
    ]
  ]
  | inr stays ↦ elim (Bool-cases (str_eq z x)) [
    | inl here ↦ inr (ground (arith, stays, here))
    | inr other ↦ elim (contains-remove x y set (ground (arith, h, other))) [
      | inl e ↦ inl e
      | inr c ↦ inr (ground (arith, stays, c))
    ]
  ]
]

outputs-contains :
    (x : String) (operations : List (String × String)) (set : List String)
    → contains x set ≡ true
    → (contains x (outputs operations set) ≡ true) ⊎ Offered x operations
unfolding outputs
outputs-contains x [] set h = inl h
outputs-contains x ((offer, ask) ∷ operations) set h = elim (contains-remove x offer set h) [
  | inl e ↦ inr (inl e)
  | inr c ↦
      elim (outputs-contains x operations (insert ask (remove offer set))
        (contains-insert x ask (remove offer set) c)) [ inl k ↦ inl k | inr o ↦ inr (inr o) ]
]

contains_one : (x y : String) → contains x (y ∷ []) ≡ true → y ≡ x
unfolding contains
contains_one x y h = same y x (ground (arith, h))

outputs-Connected :
    (operations : List (String × String)) (set : List String) (result : String)
    → outputs operations set ≡ result ∷ []
    → Connected operations result
unfolding outputs
outputs-Connected [] set result h = tt
outputs-Connected ((offer, ask) ∷ operations) set result h =
    let set' = insert ask (remove offer set) in
    (
      elim (outputs-contains ask operations set' (contains-inserted ask (remove offer set))) [
        | inl k ↦ inl (sym (contains_one ask result (rw h at k)))
        | inr o ↦ inr o
      ],
      outputs-Connected operations set' result h,
    )

one_element : (l : List String) → length l ≡ 1 → (x : String) × (l ≡ x ∷ [])
one_element [] h = ground (arith, h)
one_element (x ∷ []) h = (x, refl)
one_element (x ∷ y ∷ l) h = ground (arith, h)

-- If `assert_operations` accepts a list of operations, their assets are valid, and there is one
-- asset, the result, such that every asset that an operation asks for is the result or is offered
-- by a later operation: nothing else is left over.
pub assert_operations-Connected :
    (api : Api) (operations : List SwapOperation)
    → assert_operations api operations ≡ ok tt
    → (texts : List (String × String)) × (result : String) × (validated api operations ≡ ok texts)
      × Connected texts result
unfolding assert_operations
assert_operations-Connected api operations h =
    let (texts, e, h') = >>=-eq-ok (validated api operations) _ h in
    let single : length (outputs texts []) ≡ 1 = ground (arith, h') in
    let (result, o) = one_element (outputs texts []) single in
    (texts, result, e, outputs-Connected texts [] result o)
