-- ===== src/Common/Equality.antt =====
-- Equality tests as an interface, and maps given by a function from keys.
use Prim.Native.Nat.{ℕ}
use mathlib.Core.Path.{◌≡◌, refl}
use mathlib.Core.Logic.{◌≢◌, ◌↔◌}
use mathlib.Core.Bool.{Bool, true, false, ◌&&◌}
use mathlib.Core.Option.{Option, none, some}
use mathlib.Core.List.{List, [], ◌∷◌}
use native.Mathlib.Omega.{arith}
use ggskit.Common.Tests.{nat_beq, nat_beq_iff, if◌then◌else◌}

pub record Eq {ℓ} (A : Type ℓ) : Type ℓ where
  pub beq : A → A → Bool
  pub beq_iff : (a b : A) → (beq a b ≡ true) ↔ (a ≡ b)

instance abbrev pub nat_eq : Eq ℕ
nat_eq = record { beq = nat_beq; beq_iff = nat_beq_iff }

unfoldable pub text_beq : List ℕ → List ℕ → Bool
text_beq [] [] = true
text_beq [] (y ∷ ys) = false
text_beq (x ∷ xs) [] = false
text_beq (x ∷ xs) (y ∷ ys) = nat_beq x y && text_beq xs ys

pub text_beq_iff : (xs ys : List ℕ) → (text_beq xs ys ≡ true) ↔ (xs ≡ ys)
unfolding text_beq
text_beq_iff [] [] = ground arith
text_beq_iff [] (y ∷ ys) = ground arith
text_beq_iff (x ∷ xs) [] = ground arith
text_beq_iff (x ∷ xs) (y ∷ ys) = ground (arith, text_beq_iff xs ys)

instance abbrev pub text_eq : Eq (List ℕ)
text_eq = record { beq = text_beq; beq_iff = text_beq_iff }

infix 50 ◌==◌
abbrev pub ◌==◌ {ℓ} : {K : Type ℓ} ⦃keys : Eq K⦄ → K → K → Bool
◌==◌ ⦃keys⦄ = keys.beq

module _ {ℓ} {A : Type ℓ} ⦃e : Eq A⦄ where
  pub ==_refl : (a : A) → (a == a) ≡ true
  ==_refl a = (e.beq_iff a a).1 refl

  pub ==_ne : (a b : A) → a ≢ b → (a == b) ≡ false
  ==_ne a b h = ground (arith, e.beq_iff a b)

-- A Go map that is never ranged over, as a function.
abbrev pub Map {ℓ κ} : Type ℓ → Type κ → Type (ℓ ⊔ κ)
Map K V = K → Option V

module _ {ℓ κ} {K : Type ℓ} {V : Type κ} ⦃e : Eq K⦄ where
  abbrev pub put : K → V → Map K V → Map K V
  put k v m j = if k == j then some v else m j

  abbrev pub delete : K → Map K V → Map K V
  delete k m j = if k == j then none else m j

  pub put_self : (k : K) (v : V) (m : Map K V) → put k v m k ≡ some v
  put_self k v m = rw (==_refl k)

  pub put_ne : (k j : K) (v : V) (m : Map K V) → k ≢ j → put k v m j ≡ m j
  put_ne k j v m h = rw (==_ne k j h)

  pub delete_self : (k : K) (m : Map K V) → delete k m k ≡ none
  delete_self k m = rw (==_refl k)

  pub delete_ne : (k j : K) (m : Map K V) → k ≢ j → delete k m j ≡ m j
  delete_ne k j m h = rw (==_ne k j h)

  -- The value of a key in a list of pairs.
  abbrev pub assoc : K → List (K × V) → Option V
  assoc k [] = none
  assoc k ((j, v) ∷ xs) = let rest = assoc k xs in if j == k then some v else rest
