-- ===== src/Common/Maps.antt =====
-- A JavaScript Map: the entries in the order in which their keys were first set.
use Prim.Native.Nat.{ℕ}
use Prim.Native.String.{String}
use mathlib.Core.Path.{◌≡◌, refl}
use mathlib.Core.Logic.{◌≢◌, ◌↔◌, ◌⊎◌, inl, inr}
use mathlib.Core.Bool.{Bool, true, false}
use mathlib.Core.List.{List, [], ◌∷◌}
use mathlib.Core.Option.{Option, none, some}
use private_communication.Common.Tests.{◌==◌, ==_iff, Bool-cases, if◌then◌else◌}
use private_communication.Common.Text.{str_eq, str_eq_iff}
use native.Mathlib.Omega.{arith}

-- What a key is compared by.
pub record Key (K : Type 0) : Type 0 where
  pub same : K → K → Bool
  pub same_iff : (a b : K) → (same a b ≡ true) ↔ (a ≡ b)

instance abbrev pub number_key : Key ℕ
number_key = record { same = ◌==◌; same_iff = ==_iff }

instance abbrev pub string_key : Key String
string_key = record { same = str_eq; same_iff = str_eq_iff }

abbrev pub Map {ℓ} : Type 0 → Type ℓ → Type ℓ
Map K V = List (K × V)

module _ {K : Type 0} ⦃e : Key K⦄ where
  pub same_refl : (k : K) → e.same k k ≡ true
  same_refl k = (e.same_iff k k).1 refl

  pub same-ne : (j k : K) → j ≢ k → e.same j k ≡ false
  same-ne j k h = elim (Bool-cases (e.same j k)) [
    | inl t ↦ absurd (h ((e.same_iff j k).0 t))
    | inr f ↦ f
  ]

  pub Key-cases : (j k : K) → (j ≡ k) ⊎ (j ≢ k)
  Key-cases j k = elim (Bool-cases (e.same j k)) [
    | inl t ↦ inl ((e.same_iff j k).0 t)
    | inr f ↦ inr (λ p. cc ((e.same_iff j k).1 p, f))
  ]

module _ {ℓ} {K : Type 0} {V : Type ℓ} ⦃e : Key K⦄ where
  unfoldable pub lookup : K → Map K V → Option V
  lookup k [] = none
  lookup k (h ∷ m) = if e.same h.0 k then some h.1 else lookup k m

  -- `map.set(k, v)`
  unfoldable pub insert : K → V → Map K V → Map K V
  insert k v [] = (k, v) ∷ []
  insert k v (h ∷ m) = if e.same h.0 k then (k, v) ∷ m else h ∷ insert k v m

  -- `map.delete(k)`
  unfoldable pub erase : K → Map K V → Map K V
  erase k [] = []
  erase k (h ∷ m) = if e.same h.0 k then erase k m else h ∷ erase k m

  pub lookup-insert_self : (k : K) (v : V) (m : Map K V) → lookup k (insert k v m) ≡ some v
  unfolding lookup insert
  lookup-insert_self k v [] = ground (arith, same_refl k)
  lookup-insert_self k v (h ∷ m) = ground (arith, same_refl k, lookup-insert_self k v m)

  pub lookup-insert_ne :
      (j k : K) (v : V) (m : Map K V) → j ≢ k → lookup k (insert j v m) ≡ lookup k m
  unfolding lookup insert
  lookup-insert_ne j k v [] n = ground (arith, same-ne j k n)
  lookup-insert_ne j k v (h ∷ m) n =
      ground (arith, same-ne j k n, lookup-insert_ne j k v m n, e.same_iff h.0 j, e.same_iff h.0 k)

  pub lookup-erase_self : (k : K) (m : Map K V) → lookup k (erase k m) ≡ none
  unfolding lookup erase
  lookup-erase_self k [] = refl
  lookup-erase_self k (h ∷ m) = ground (arith, lookup-erase_self k m)

  pub lookup-erase_ne : (j k : K) (m : Map K V) → j ≢ k → lookup k (erase j m) ≡ lookup k m
  unfolding lookup erase
  lookup-erase_ne j k [] n = refl
  lookup-erase_ne j k (h ∷ m) n =
      ground (arith, same-ne j k n, lookup-erase_ne j k m n, e.same_iff h.0 j, e.same_iff h.0 k)
