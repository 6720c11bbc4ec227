-- ===== src/TextMap/Laws.antt =====
-- Maps whose keys ascend, and what a lookup finds after a write.
use Prim.Native.Nat.{Ordering}
use Prim.Native.String.{compare}
use whelp_contracts.Prelude.{
  String, ◌≡◌, refl, arith, true, false, none, some, List, [], ◌∷◌, inl, inr, Bool-cases,
  if◌then◌else◌, str_eq, str_eq_iff, str_eq_refl, subst,
}
use whelp_contracts.TextMap.{before, lookup, has, save, remove}
use whelp_contracts.TextMap.Order.{swapped_text, lt_text}

-- The key stands before those of the map.
abbrev pub First {ℓ} : {V : Type ℓ} → String → List (String × V) → Type 0
First k [] = Unit
First k ((l, v) ∷ m) = compare k l ≡ Ordering.lt

abbrev pub Ascending {ℓ} : {V : Type ℓ} → List (String × V) → Type 0
Ascending [] = Unit
Ascending ((k, v) ∷ m) = First k m × Ascending m

before-lt : (k l : String) → before k l ≡ true → compare k l ≡ Ordering.lt
before-lt k l h = ground arith

not_before-lt : (k l : String) → str_eq l k ≡ false → before k l ≡ false → compare l k ≡ Ordering.lt
not_before-lt k l h h' = ground (arith, swapped_text k l)

module _ {ℓ} {V : Type ℓ} where
  First-save :
      (l k : String) (v : V) (m : List (String × V))
      → compare l k ≡ Ordering.lt
      → First l m
      → First l (save k v m)
  First-save l k v [] h f = h
  First-save l k v ((j, w) ∷ m) h f = elim (Bool-cases (str_eq j k)) [
    | inl e ↦ rw e h
    | inr n ↦ elim (Bool-cases (before k j)) [ inl b ↦ rw (n, b) h | inr b ↦ rw (n, b) f ]
  ]

  pub save-Ascending :
      (k : String) (v : V) (m : List (String × V)) → Ascending m → Ascending (save k v m)
  save-Ascending k v [] a = (tt, tt)
  save-Ascending k v ((l, w) ∷ m) (f, a) = elim (Bool-cases (str_eq l k)) [
    | inl e ↦ rw e (subst (λ x. First x m) ((str_eq_iff l k).0 e) f, a)
    | inr n ↦ elim (Bool-cases (before k l)) [
      | inl b ↦ rw (n, b) (before-lt k l b, (f, a))
      | inr b ↦ rw (n, b) (First-save l k v m (not_before-lt k l n b) f, save-Ascending k v m a)
    ]
  ]

  First-trans :
      (l j : String) (m : List (String × V)) → compare l j ≡ Ordering.lt → First j m → First l m
  First-trans l j [] h f = tt
  First-trans l j ((i, v) ∷ m) h f = lt_text l j i h f

  -- In ascending order the first key stands before all others.
  First-remove :
      (l k : String) (m : List (String × V)) → First l m → Ascending m → First l (remove k m)
  First-remove l k [] f a = tt
  First-remove l k ((j, w) ∷ m) f (f', a) = elim (Bool-cases (str_eq j k)) [
    | inl e ↦ rw e (First-remove l k m (First-trans l j m f f') a)
    | inr n ↦ rw n f
  ]

  pub remove-Ascending : (k : String) (m : List (String × V)) → Ascending m → Ascending (remove k m)
  remove-Ascending k [] a = tt
  remove-Ascending k ((l, w) ∷ m) (f, a) = elim (Bool-cases (str_eq l k)) [
    | inl e ↦ rw e (remove-Ascending k m a)
    | inr n ↦ rw n (First-remove l k m f a, remove-Ascending k m a)
  ]

  pub lookup-save :
      (j k : String) (v : V) (m : List (String × V))
      → lookup j (save k v m) ≡ (if str_eq k j then some v else lookup j m)
  lookup-save j k v [] = refl
  lookup-save j k v ((l, w) ∷ m) =
      ground (arith, lookup-save j k v m, str_eq_iff l k, str_eq_iff k j, str_eq_iff l j)

  pub lookup-remove :
      (j k : String) (m : List (String × V))
      → lookup j (remove k m) ≡ (if str_eq k j then none else lookup j m)
  lookup-remove j k [] = ground arith
  lookup-remove j k ((l, w) ∷ m) =
      ground (arith, lookup-remove j k m, str_eq_iff l k, str_eq_iff k j, str_eq_iff l j)

  remove_absent : (k : String) (m : List (String × V)) → lookup k m ≡ none → remove k m ≡ m
  remove_absent k [] h = refl
  remove_absent k ((l, w) ∷ m) h = ground (arith, remove_absent k m, h)

  -- A new key can be removed again.
  pub remove-save :
      (k : String) (v : V) (m : List (String × V)) → lookup k m ≡ none → remove k (save k v m) ≡ m
  remove-save k v [] h = ground (arith, str_eq_refl k)
  remove-save k v ((l, w) ∷ m) h =
      ground (arith, h, remove-save k v m, remove_absent k m, str_eq_refl k)

  pub has-lookup : (k : String) (m : List (String × V)) → has k m ≡ false → lookup k m ≡ none
  has-lookup k [] h = refl
  has-lookup k ((l, w) ∷ m) h = ground (arith, has-lookup k m)

  pub lookup-has :
      (k : String) (m : List (String × V)) {v : V} → lookup k m ≡ some v → has k m ≡ true
  lookup-has k [] {v = v} h = cc
  lookup-has k ((l, w) ∷ m) {v = v} h = ground (arith, lookup-has k m {v = v}, h)
