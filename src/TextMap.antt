-- ===== src/TextMap.antt =====
-- Maps from texts, as the storage maps of the contracts are used: lookups, writes, and walks in
-- ascending order of the keys. No code of the repository is modelled here.
use Prim.Native.Nat.{Ordering, compare as compare_ℕ}
use Prim.Native.Char.{code}
use Prim.Native.String.{compare}
use whelp_contracts.Prelude.{
  ℕ, String, Bool, true, false, Option, none, some, List, [], ◌∷◌, ◌≡◌, refl, sym, ◌∙◌, ap, ◌≢◌,
  str_eq, str_eq_iff, str_eq_refl, if◌then◌else◌, arith,
}
pub mod Laws
pub mod Order

-- Whether the first text is before the second one.
abbrev pub before : String → String → Bool
before a b = elim (compare a b) [ Ordering.lt ↦ true | _ ↦ false ]

module _ {ℓ} {V : Type ℓ} where
  abbrev pub lookup : String → List (String × V) → Option V
  lookup k [] = none
  lookup k ((l, v) ∷ m) = let rest = lookup k m in if str_eq l k then some v else rest

  abbrev pub has : String → List (String × V) → Bool
  has k [] = false
  has k ((l, v) ∷ m) = let rest = has k m in if str_eq l k then true else rest

  -- The list stays in ascending order of the keys.
  abbrev pub save : String → V → List (String × V) → List (String × V)
  save k v [] = (k, v) ∷ []
  save k v ((l, w) ∷ m) =
      let rest = save k v m in
      if str_eq l k then (k, v) ∷ m else if before k l then (k, v) ∷ (l, w) ∷ m else (l, w) ∷ rest

  abbrev pub remove : String → List (String × V) → List (String × V)
  remove k [] = []
  remove k ((l, v) ∷ m) = let rest = remove k m in if str_eq l k then rest else (l, v) ∷ rest

  abbrev pub values : List (String × V) → List V
  values [] = []
  values ((k, v) ∷ m) = v ∷ values m
