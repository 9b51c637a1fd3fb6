-- ===== src/Prelude/Eq.antt =====
-- Decidable equality as a Boolean test, an instance for each type that the program compares.
use Prim.Native.Nat.{ℕ}
use mathlib.Core.Path.{◌≡◌, refl}
use mathlib.Core.Logic.{◌↔◌}
use mathlib.Core.Bool.{Bool, true, false, ◌&&◌}
use mathlib.Core.List.{List, [], ◌∷◌}
use native.Mathlib.Omega.{arith}
use kubernix.Prelude.Tests.{eqb, eqb_iff, &&-eq-true}

pub record Eq {ℓ} (T : Type ℓ) : Type ℓ where
  pub beq : T → T → Bool
  pub beq_iff : (a b : T) → (beq a b ≡ true) ↔ (a ≡ b)

infix 50 ◌==◌
abbrev pub ◌==◌ {ℓ} : {T : Type ℓ} ⦃test : Eq T⦄ → T → T → Bool
◌==◌ ⦃test⦄ = test.beq

instance abbrev pub nat_eq : Eq ℕ
nat_eq = record { beq = eqb; beq_iff = eqb_iff }

module _ {ℓ} {T : Type ℓ} ⦃test : Eq T⦄ where
  abbrev pub list_beq : List T → List T → Bool
  list_beq [] [] = true
  list_beq [] (y ∷ ys) = false
  list_beq (x ∷ xs) [] = false
  list_beq (x ∷ xs) (y ∷ ys) = (x == y) && list_beq xs ys

  list_beq_refl : (xs : List T) → list_beq xs xs ≡ true
  list_beq_refl [] = refl
  list_beq_refl (x ∷ xs) = ground (arith, (test.beq_iff x x).1 refl, list_beq_refl xs)

  list_beq→eq : (xs ys : List T) → list_beq xs ys ≡ true → xs ≡ ys
  list_beq→eq [] [] h = refl
  list_beq→eq [] (y ∷ ys) h = cc
  list_beq→eq (x ∷ xs) [] h = cc
  list_beq→eq (x ∷ xs) (y ∷ ys) h =
      let (p, q) = &&-eq-true (x == y) (list_beq xs ys) h in
      cc ((test.beq_iff x y).0 p, list_beq→eq xs ys q)

  pub list_beq_iff : (xs ys : List T) → (list_beq xs ys ≡ true) ↔ (xs ≡ ys)
  list_beq_iff xs ys = (list_beq→eq xs ys, λ p. rw p (list_beq_refl ys))

instance abbrev pub list_eq {ℓ} : {T : Type ℓ} ⦃test : Eq T⦄ → Eq (List T)
list_eq ⦃test⦄ = record { beq = list_beq; beq_iff = list_beq_iff }

pub ==-refl {ℓ} : {T : Type ℓ} ⦃test : Eq T⦄ (a : T) → (a == a) ≡ true
==-refl ⦃test⦄ a = (test.beq_iff a a).1 refl

pub ==→eq {ℓ} : {T : Type ℓ} ⦃test : Eq T⦄ (a b : T) → (a == b) ≡ true → a ≡ b
==→eq ⦃test⦄ a b = (test.beq_iff a b).0
