-- ===== src/Common/Throws.antt =====
-- A call that returns or throws. An error is what the program throws.
use mathlib.Core.Path.{◌≡◌, refl}
use mathlib.Core.Logic.{◌⊎◌, inl, inr}
use mathlib.Core.Bool.{Bool, true, false}
use mathlib.Core.Option.{Option, none, some}
use mathlib.Core.List.{List, [], ◌∷◌}

pub data Result {ℓ κ} (E : Type κ) (A : Type ℓ) : Type (ℓ ⊔ κ) where
  ok : A → Result E A
  err : E → Result E A

infixl 5 ◌>>=◌ ◌>>◌
abbrev pub ◌>>=◌ {ℓ κ μ} :
    {E : Type μ} {A : Type ℓ} {B : Type κ} → Result E A → (A → Result E B) → Result E B
err thrown >>= next = err thrown
ok value >>= next = next value

abbrev pub ◌>>◌ {ℓ μ} : {E : Type μ} {B : Type ℓ} → Result E (Unit {0}) → Result E B → Result E B
check >> rest = check >>= λ _. rest

-- `if (!condition) throw e`
abbrev pub guard {μ} : {E : Type μ} → Bool → E → Result E (Unit {0})
guard false thrown = err thrown
guard true thrown = ok tt

-- A guard that also narrows a type: what is there if the test passes.
abbrev pub expect {ℓ μ} : {E : Type μ} {A : Type ℓ} → Option A → E → Result E A
expect none thrown = err thrown
expect (some value) thrown = ok value

-- `xs.map(f)` where `f` may throw: the first error ends the loop.
abbrev pub traverse {ℓ κ μ} :
    {E : Type μ} {A : Type ℓ} {B : Type κ} → (A → Result E B) → List A → Result E (List B)
traverse f [] = ok []
traverse f (x ∷ xs) = f x >>= λ y. traverse f xs >>= λ ys. ok (y ∷ ys)

-- Inversion of steps that succeeded.
module _ {ℓ κ μ} {E : Type μ} {A : Type ℓ} {B : Type κ} where
  pub >>=-eq-ok :
      (step : Result E A) (next : A → Result E B) {result : B}
      → (step >>= next) ≡ ok result
      → (value : A) × (step ≡ ok value) × (next value ≡ ok result)
  >>=-eq-ok (err thrown) next h = cc
  >>=-eq-ok (ok value) next h = (value, refl, h)

module _ {ℓ μ} {E : Type μ} {B : Type ℓ} where
  pub guard-eq-ok :
      (b : Bool) (e : E) (k : Result E B) {r : B}
      → (guard b e >> k) ≡ ok r
      → (b ≡ true) × (k ≡ ok r)
  guard-eq-ok true e k h = (refl, h)
  guard-eq-ok false e k h = cc

module _ {ℓ κ μ} {E : Type μ} {A : Type ℓ} {B : Type κ} where
  pub expect-eq-ok :
      (o : Option A) (e : E) (f : A → Result E B) {b : B}
      → (expect o e >>= f) ≡ ok b
      → (a : A) × (o ≡ some a) × (f a ≡ ok b)
  expect-eq-ok (some a) e f h = (a, refl, h)
  expect-eq-ok none e f h = cc

module _ {ℓ μ} {E : Type μ} {A : Type ℓ} where
  pub ok-injective : {a b : A} → ◌≡◌ {A = Result E A} (ok a) (ok b) → a ≡ b
  ok-injective e = cc

  pub Result-cases : (r : Result E A) → ((a : A) × (r ≡ ok a)) ⊎ ((e : E) × (r ≡ err e))
  Result-cases (ok a) = inl (a, refl)
  Result-cases (err e) = inr (e, refl)
