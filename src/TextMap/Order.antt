-- ===== src/TextMap/Order.antt =====
-- The order of texts is antisymmetric and transitive.
use Prim.Native.Nat.{Ordering, compare as compare_ℕ}
use Prim.Native.Char.{code}
use Prim.Native.String.{compare, then, [], ◌∷◌}
use Prim.Native.String.compare
pub use text.Mathlib.TextEquality.{path_by_compare}
use whelp_contracts.Prelude.{ℕ, String, ◌≡◌, refl, sym, ◌∙◌, ap, arith}

abbrev pub swapped : Ordering → Ordering
swapped Ordering.lt = Ordering.gt
swapped Ordering.eq = Ordering.eq
swapped Ordering.gt = Ordering.lt

swapped_number : (m n : ℕ) → compare_ℕ n m ≡ swapped (compare_ℕ m n)
swapped_number m n = ground arith

then-swapped : (a b : Ordering) → then (swapped a) (swapped b) ≡ swapped (then a b)
then-swapped Ordering.lt b = refl
then-swapped Ordering.eq b = refl
then-swapped Ordering.gt b = refl

pub swapped_text : (s t : String) → compare t s ≡ swapped (compare s t)
swapped_text [] [] = rw compare.nil-nil refl
swapped_text [] (d ∷ t) = rw (compare.nil-cons, compare.cons-nil) refl
swapped_text (c ∷ s) [] = rw (compare.nil-cons, compare.cons-nil) refl
swapped_text (c ∷ s) (d ∷ t) =
    compare.cons-cons d c t s
    ∙ (rw (swapped_number (code c) (code d), swapped_text s t)
        (then-swapped (compare_ℕ (code c) (code d)) (compare s t)))
    ∙ ap swapped (sym (compare.cons-cons c d s t))

-- Where the first numbers are equal, the rest decides.
then_lt :
    (m n k : ℕ) (a b r : Ordering)
    → then (compare_ℕ m n) a ≡ Ordering.lt
    → then (compare_ℕ n k) b ≡ Ordering.lt
    → (a ≡ Ordering.lt → b ≡ Ordering.lt → r ≡ Ordering.lt)
    → then (compare_ℕ m k) r ≡ Ordering.lt
then_lt m n k a b r h h' rest = ground (arith, rest)

pub lt_text :
    (s t u : String)
    → compare s t ≡ Ordering.lt
    → compare t u ≡ Ordering.lt
    → compare s u ≡ Ordering.lt
lt_text [] [] u h h' = h'
lt_text [] (d ∷ t) [] h h' = cc (compare.cons-nil d t)
lt_text [] (d ∷ t) (e ∷ u) h h' = compare.nil-cons e u
lt_text (c ∷ s) [] u h h' = cc (compare.cons-nil c s)
lt_text (c ∷ s) (d ∷ t) [] h h' = cc (compare.cons-nil d t)
lt_text (c ∷ s) (d ∷ t) (e ∷ u) h h' =
    compare.cons-cons c e s u
    ∙ then_lt (code c) (code d) (code e) (compare s t) (compare t u) (compare s u)
        (sym (compare.cons-cons c d s t) ∙ h) (sym (compare.cons-cons d e t u) ∙ h') (lt_text s t u)
