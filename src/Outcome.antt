-- ===== src/Outcome.antt =====
-- How a call of the contracts ends: with a value, with an error (`Err`), or by a panic, which an
-- overflow, an `unwrap` or an index out of bounds causes. The chain rolls the storage back after
-- an error and after a panic alike, so a state comes back only beside a value.
use whelp_contracts.Prelude.{◌≡◌, refl, Bool, true, false, Option, none, some, List, [], ◌∷◌}

pub data Outcome {ℓ κ} (E : Type ℓ) (A : Type κ) : Type (ℓ ⊔ κ) where
  ok : A → Outcome E A
  err : E → Outcome E A
  panic : Outcome E A

infixl 5 ◌>>=◌ ◌>>◌
abbrev pub ◌>>=◌ {ℓ κ μ} :
    {E : Type ℓ} {A : Type κ} {B : Type μ} → Outcome E A → (A → Outcome E B) → Outcome E B
panic >>= next = panic
err e >>= next = err e
ok a >>= next = next a

abbrev pub ◌>>◌ {ℓ κ} : {E : Type ℓ} {B : Type κ} → Outcome E (Unit {0}) → Outcome E B → Outcome E B
check >> next = check >>= λ done. next

module _ {ℓ} {E : Type ℓ} where
  -- `ensure!`: the error unless the test holds.
  abbrev pub ensure : Bool → E → Outcome E (Unit {0})
  ensure false e = err e
  ensure true e = ok tt

  -- `if test { return Err(e); }`
  abbrev pub fail_if : Bool → E → Outcome E (Unit {0})
  fail_if false e = ok tt
  fail_if true e = err e

module _ {ℓ κ} {E : Type ℓ} {A : Type κ} where
  -- `Option::ok_or`
  abbrev pub ok_or : Option A → E → Outcome E A
  ok_or none e = err e
  ok_or (some a) e = ok a

  -- `Option::unwrap`
  abbrev pub unwrap : Option A → Outcome E A
  unwrap none = panic
  unwrap (some a) = ok a

-- `map_err`, and the conversion of an error by `?`.
abbrev pub map_err {ℓ κ μ} :
    {E : Type ℓ} {F : Type κ} {A : Type μ} → (E → F) → Outcome E A → Outcome F A
map_err f (ok a) = ok a
map_err f (err e) = err (f e)
map_err f panic = panic

-- `iter().map(f).collect::<Result<Vec<_>, _>>()`: the first failure ends the walk.
unfoldable pub traverse {ℓ κ μ} :
    {E : Type ℓ} {A : Type κ} {B : Type μ} → (A → Outcome E B) → List A → Outcome E (List B)
traverse f [] = ok []
traverse f (x ∷ xs) = do ok ((← f x) ∷ (← traverse f xs))

-- Inversion of a successful step.
pub >>=-eq-ok {ℓ κ μ} :
    {A : Type ℓ} {B : Type κ} {E : Type μ} (step : Outcome E A) (next : A → Outcome E B) {out : B}
    → step >>= next ≡ ok out
    → (value : A) × (step ≡ ok value) × (next value ≡ ok out)
>>=-eq-ok panic next done = cc
>>=-eq-ok (err e) next done = cc
>>=-eq-ok (ok value) next done = (value, refl, done)

pub map_err-eq-ok {ℓ κ μ} :
    {E : Type ℓ} {F : Type κ} {A : Type μ} (f : E → F) (m : Outcome E A) {a : A}
    → map_err f m ≡ ok a
    → m ≡ ok a
map_err-eq-ok f (ok a) h = cc
map_err-eq-ok f (err e) h = cc
map_err-eq-ok f panic h = cc

-- What holds of the value, if there is one.
abbrev pub Post {ℓ κ μ} : {E : Type ℓ} {A : Type κ} → (A → Type μ) → Outcome E A → Type μ
Post P (ok a) = P a
Post P (err e) = Unit
Post P panic = Unit

pub Post-ok {ℓ κ μ} :
    {E : Type ℓ} {A : Type κ} (P : A → Type μ) (m : Outcome E A) {a : A} → Post P m → m ≡ ok a → P a
Post-ok P m h e = rw e at h

pub Post-of {ℓ κ μ} :
    {E : Type ℓ} {A : Type κ} (P : A → Type μ) (m : Outcome E A)
    → ((a : A) → m ≡ ok a → P a)
    → Post P m
Post-of P (ok a) h = h a refl
Post-of P (err e) h = tt
Post-of P panic h = tt

-- The rules for a chain of steps.
pub Post->>= {ℓ κ μ ν} :
    {E : Type ℓ} {A : Type κ} {B : Type μ} (P : B → Type ν) (step : Outcome E A)
    (next : A → Outcome E B)
    → ((a : A) → step ≡ ok a → Post P (next a))
    → Post P (step >>= next)
Post->>= P panic next h = tt
Post->>= P (err e) next h = tt
Post->>= P (ok a) next h = h a refl

pub Post-fail_if {ℓ κ μ} :
    {E : Type ℓ} {B : Type κ} (P : B → Type μ) (test : Bool) (e : E) (next : Outcome E B)
    → (test ≡ false → Post P next)
    → Post P (fail_if test e >> next)
Post-fail_if P false e next h = h refl
Post-fail_if P true e next h = tt

pub fail_if-eq-ok {ℓ κ} :
    {E : Type ℓ} {B : Type κ} (test : Bool) (e : E) (next : Outcome E B) {b : B}
    → fail_if test e >> next ≡ ok b
    → (test ≡ false) × (next ≡ ok b)
fail_if-eq-ok false e next h = (refl, h)
fail_if-eq-ok true e next h = cc

module _ {ℓ κ} {E : Type ℓ} {A : Type κ} where
  abbrev pub is_ok : Outcome E A → Bool
  is_ok (ok a) = true
  is_ok (err e) = false
  is_ok panic = false

  abbrev pub value_or : Outcome E A → A → A
  value_or (ok a) d = a
  value_or (err e) d = d
  value_or panic d = d

  pub is_ok→eq-ok : (m : Outcome E A) (d : A) → is_ok m ≡ true → m ≡ ok (value_or m d)
  is_ok→eq-ok (ok a) d h = refl
  is_ok→eq-ok (err e) d h = cc
  is_ok→eq-ok panic d h = cc
