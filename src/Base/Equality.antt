-- ===== src/Base/Equality.antt =====
-- `PartialEq` as an interface with its law; numbers and lists of comparable things are comparable.
use mathlib.Core.Path.{◌≡◌, refl}
use mathlib.Core.Logic.{◌↔◌}
use mathlib.Core.Bool.{Bool, true, false, ◌&&◌}
use mathlib.Core.List.{List, [], ◌∷◌}
use Prim.Native.Nat.{ℕ}
use native.Mathlib.Omega.{arith}
use watchwoman.Base.Lists.{any}
use watchwoman.Base.Tests.{nat_beq, nat_beq_iff}

-- `a == b`, and that it holds of equal values only.
pub record PartialEq {κ} (K : Type κ) : Type κ where
  pub eq : K → K → Bool
  pub same_iff : (x y : K) → (eq x y ≡ true) ↔ (x ≡ y)

module _ {κ} {K : Type κ} ⦃inst : PartialEq K⦄ where
  infix 50 ◌==◌
  abbrev pub ◌==◌ : K → K → Bool
  ◌==◌ = inst.eq

  pub eq_iff : (x y : K) → ((x == y) ≡ true) ↔ (x ≡ y)
  eq_iff = inst.same_iff

  pub eq_refl : (x : K) → (x == x) ≡ true
  eq_refl x = (inst.same_iff x x).1 refl

  abbrev pub list_beq : List K → List K → Bool
  list_beq (x ∷ xs) (y ∷ ys) = x == y && list_beq xs ys
  list_beq [] [] = true
  list_beq _ _ = false

  pub list_beq_iff : (xs ys : List K) → (list_beq xs ys ≡ true) ↔ (xs ≡ ys)
  list_beq_iff [] [] = ground arith
  list_beq_iff (x ∷ xs) (y ∷ ys) = ground (arith, inst.same_iff x y, list_beq_iff xs ys)
  list_beq_iff [] (y ∷ ys) = ground arith
  list_beq_iff (x ∷ xs) [] = ground arith

instance abbrev pub list_eq {κ} : {K : Type κ} ⦃inst : PartialEq K⦄ → PartialEq (List K)
list_eq ⦃inst⦄ = record { same_iff = list_beq_iff; eq = list_beq }

instance abbrev pub nat_eq : PartialEq ℕ
nat_eq = record { same_iff = nat_beq_iff; eq = nat_beq }

-- `contains` of a slice.
abbrev pub contains {κ} : {K : Type κ} ⦃inst : PartialEq K⦄ → List K → K → Bool
contains xs x = any (λ y. y == x) xs
